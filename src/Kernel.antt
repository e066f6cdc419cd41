-- ===== src/Kernel.antt =====
-- crates/walastack-runtime/src: the resource registry, the plugins, the builder and the runtime's
-- lifecycle.
pub mod Resources
pub mod Plugins
pub mod Requirements
pub mod Runtime
pub mod Lifecycle
pub mod Phases
pub mod Context
pub mod Examples
