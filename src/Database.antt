-- ===== src/Database.antt =====
-- crates/walastack-db/src/lib.rs: the plugins of the two pools, with the types of the pool and of the
-- marker, and the handles of the two `Arc`s. The pools are sqlx's.
use walastack_rs.Base.{ℕ, String, []}
use walastack_rs.Capabilities.Registry.{register_default}
use walastack_rs.Kernel.Plugins.{Plugin}

abbrev pool_plugin : (name : String) → (pool_type database_type typed marker : ℕ) → Plugin
pool_plugin name pool_type database_type typed marker = record {
  name = name;
  register_resources = λ r. r;
  register_capabilities =
      λ c. (register_default database_type marker (register_default pool_type typed c).1).1;
  register_services = λ p. p;
  required_capabilities = [];
}

unfoldable pub sqlite_plugin : (pool_type database_type typed marker : ℕ) → Plugin
sqlite_plugin pool_type database_type typed marker =
    pool_plugin "sqlite" pool_type database_type typed marker

unfoldable pub postgres_plugin : (pool_type database_type typed marker : ℕ) → Plugin
postgres_plugin pool_type database_type typed marker =
    pool_plugin "postgres" pool_type database_type typed marker
