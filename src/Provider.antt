-- ===== src/Provider.antt =====
-- crates/twl-provider/src: what the proxy reads from the responses of its backends.
pub mod Usage
pub mod Models
