-- ===== src/Supervision.antt =====
-- crates/walastack-runtime/src/supervision.rs: restart policies, the watcher of one service, and
-- the tree of the supervised services.
pub mod Watcher
pub mod Restarts
pub mod Tree
pub mod Examples
