-- ===== src/Jobs.antt =====
-- crates/walastack-jobs/src: the in-memory store, the dispatch of one job, the worker, the public
-- `enqueue`, and the SQLite store.
pub mod Store
pub mod Contract
pub mod Dispatch
pub mod Plugins
pub mod Startup
pub mod Rows
pub mod Sqlite
pub mod Examples
pub mod ContractExamples
pub mod StartupExamples
pub mod RowExamples
