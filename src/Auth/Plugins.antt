-- ===== src/Auth/Plugins.antt =====
-- crates/walastack-auth/src/lib.rs: the three plugins. The `Arc` that a plugin makes goes by its
-- number.
use walastack_rs.Base.{ℕ, Option, [], ◌∷◌, nat_keys, string_keys, map_or}
use walastack_rs.Capabilities.Registry.{register_default}
use walastack_rs.Kernel.Resources.{insert_arc}
use walastack_rs.Kernel.Plugins.{Plugin, any}
use walastack_rs.Auth.Extractor.{AuthTypes}

unfoldable pub in_memory_secrets_plugin : AuthTypes → (provider_arc : ℕ) → Plugin
unfolding register_default
in_memory_secrets_plugin types provider_arc = record {
  name = "in-memory-secrets";
  register_resources = λ r. r;
  register_capabilities = λ c. (register_default types.secrets_type provider_arc c).1;
  register_services = λ p. p;
  required_capabilities = [];
}

unfoldable pub session_store_plugin : (sessions_type store_arc : ℕ) → Plugin
unfolding register_default
session_store_plugin sessions_type store_arc = record {
  name = "in-memory-session-store";
  register_resources = λ r. r;
  register_capabilities = λ c. (register_default sessions_type store_arc c).1;
  register_services = λ p. p;
  required_capabilities = [];
}

-- `AuthPlugin::new`, and `with_jwt` with the handle of the settings.
unfoldable pub auth_plugin : AuthTypes → (settings_arc : Option ℕ) → Plugin
unfolding insert_arc any
auth_plugin types settings_arc = record {
  name = "auth";
  register_resources = λ r. map_or r (λ arc. (insert_arc types.settings_type arc r).1) settings_arc;
  register_capabilities = λ c. c;
  register_services = λ p. p;
  required_capabilities = any types.secrets_type types.secrets_type_name ∷ [];
}
