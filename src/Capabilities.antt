-- ===== src/Capabilities.antt =====
-- crates/walastack-runtime/src/capabilities.rs: the registry of the Configure phase, the frozen
-- view, and the selection strategies.
pub mod Registry
pub mod View
pub mod Lookup
pub mod Defaults
pub mod Rotation
pub mod Examples
