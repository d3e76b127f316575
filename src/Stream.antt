-- ===== src/Stream.antt =====
-- crates/twl-server/src/proxy/stream.rs: forwarding a response while accounting for it.
pub mod LineBuffer
pub mod BoundedBuffer
pub mod Accumulate
pub mod Accounting
