-- ===== src/Mcp.antt =====
-- crates/walastack-mcp/src: the configuration of MCP servers, what it resolves to, the in-memory
-- provider, the connection to a subprocess, and the service that watches it.
pub mod Config
pub mod InMemory
pub mod Tools
pub mod Environment
pub mod Connection
pub mod Stdio
pub mod Contents
pub mod Watching
pub mod Correlation
pub mod Examples
