-- ===== src/OpenApi.antt =====
-- crates/walastack-openapi/src/lib.rs: the OpenAPI document of an application's routes.
pub mod Schema
pub mod Routes
pub mod Document
pub mod Paths
pub mod Agreement
pub mod Mixed
pub mod Examples
