-- ===== src/Backends.antt =====
-- crates/twl-backends/src/lib.rs: the model catalog, the placement of requests, and the registry.
pub mod Catalog
pub mod Placement
pub mod Registry
