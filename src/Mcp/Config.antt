-- ===== src/Mcp/Config.antt =====
-- crates/walastack-mcp/src/config.rs, errors.rs and descriptors.rs: configuration and errors. A
-- `ServerId` is its text, a duration its nanoseconds.
use walastack_rs.Base.{
  ℕ, String, Option, none, some, List, [], ◌∷◌, ◌++◌, nat_keys, string_keys, codes_keys, ℤ,
}

-- Non-exhaustive, with one transport.
pub data TransportSpec : Type 0 where
  stdio : (command : String) (args : List String) → TransportSpec

pub data EnvVar : Type 0 where
  from_secret : (var secret_name : String) → EnvVar
  literal_value : (var value : String) → EnvVar

pub record McpServerSpec : Type 0 where
  pub id : String
  pub transport : TransportSpec
  pub env : List EnvVar
  pub request_timeout : Option ℕ
  pub display_name : Option String

unfoldable pub new_spec : (id : String) → McpServerSpec
new_spec id = record {
  id = id;
  transport = stdio "" [];
  env = [];
  request_timeout = none;
  display_name = none;
}

unfoldable pub with_transport : TransportSpec → McpServerSpec → McpServerSpec
with_transport transport spec = record spec { transport = transport }

unfoldable pub with_env : EnvVar → McpServerSpec → McpServerSpec
with_env env spec = record spec { env = spec.env ++ env ∷ [] }

unfoldable pub with_env_from_secret : (var secret_name : String) → McpServerSpec → McpServerSpec
unfolding with_env
with_env_from_secret var secret_name spec = with_env (from_secret var secret_name) spec

unfoldable pub with_env_literal : (var value : String) → McpServerSpec → McpServerSpec
unfolding with_env
with_env_literal var value spec = with_env (literal_value var value) spec

unfoldable pub with_request_timeout : ℕ → McpServerSpec → McpServerSpec
with_request_timeout timeout spec = record spec { request_timeout = some timeout }

unfoldable pub with_display_name : String → McpServerSpec → McpServerSpec
with_display_name name spec = record spec { display_name = some name }

pub record McpConfig : Type 0 where
  pub servers : List McpServerSpec
  pub default_request_timeout : ℕ
  pub ping_interval : ℕ

unfoldable pub new_config : McpConfig
new_config = record {
  servers = [];
  default_request_timeout = 30000000000;
  ping_interval = 15000000000;
}

unfoldable pub with_server : McpServerSpec → McpConfig → McpConfig
with_server spec config = record config { servers = config.servers ++ spec ∷ [] }

unfoldable pub with_default_request_timeout : ℕ → McpConfig → McpConfig
with_default_request_timeout timeout config = record config { default_request_timeout = timeout }

unfoldable pub with_ping_interval : ℕ → McpConfig → McpConfig
with_ping_interval interval config = record config { ping_interval = interval }

pub data McpError : Type 0 where
  unknown_server : String → McpError
  unknown_tool : (server tool : String) → McpError
  unknown_resource : (server uri : String) → McpError
  serialization : String → McpError
  transport_failed : String → McpError  -- `Transport`
  remote_error : (code : ℤ) (message : String) → McpError
  timed_out : (server : String) → McpError  -- `Timeout`
  secret_not_found : String → McpError
  other : String → McpError
