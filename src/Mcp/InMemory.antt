-- ===== src/Mcp/InMemory.antt =====
-- crates/walastack-mcp/src/inmemory.rs: servers that are built by hand, behind both capabilities.
use walastack_rs.Base.{negsuc}
use walastack_rs.Base.{
  ℕ, String, Bool, true, Option, none, some, List, [], ◌∷◌, ◌++◌, map, ◌==◌, nat_keys, string_keys,
  codes_keys, find, option_map, lookup, insert, Result, ◌>>=◌, ok_or, map_err,
}
use walastack_rs.Capabilities.Registry.{register_default}
use walastack_rs.Kernel.Plugins.{Plugin}
use walastack_rs.Mcp.Config.{McpError, unknown_server, unknown_tool, unknown_resource, remote_error}

-- Values are those of serde_json.
module _ (Value : Type 0) where
  pub record ToolDescriptor : Type 0 where
    pub name : String
    pub description : Option String
    pub input_schema : Option Value
    pub output_schema : Option Value

  pub data ResourcePayload : Type 0 where
    text_payload : String → ResourcePayload
    blob_payload : String → ResourcePayload

  pub record ResourceDescriptor : Type 0 where
    pub uri : String
    pub name : Option String
    pub description : Option String
    pub mime_type : Option String

  pub record ResourceContent : Type 0 where
    pub uri : String
    pub mime_type : Option String
    pub payload : ResourcePayload

  abbrev pub ToolImpl : Type 0
  ToolImpl = Value → Result Value String

  pub record InMemoryServer : Type 0 where
    pub id : String
    pub display_name : Option String
    pub tools : List ToolDescriptor
    pub tool_impls : List (String × ToolImpl)
    pub resources : List ResourceDescriptor
    pub resource_contents : List (String × ResourceContent)

  unfoldable pub new_server : (id : String) → InMemoryServer
  new_server id = record {
    id = id;
    display_name = none;
    tools = [];
    tool_impls = [];
    resources = [];
    resource_contents = [];
  }

  unfoldable pub with_display_name : String → InMemoryServer → InMemoryServer
  with_display_name name s = record s { display_name = some name }

  unfoldable pub with_tool : ToolDescriptor → ToolImpl → InMemoryServer → InMemoryServer
  with_tool descriptor run s = record s {
    tools = s.tools ++ descriptor ∷ [];
    tool_impls = insert descriptor.name run s.tool_impls;
  }

  unfoldable pub with_resource :
      ResourceDescriptor → ResourceContent → InMemoryServer → InMemoryServer
  with_resource descriptor content s = record s {
    resources = s.resources ++ descriptor ∷ [];
    resource_contents = insert descriptor.uri content s.resource_contents;
  }

  -- `InMemoryMcp`; a poisoned lock is taken all the same.
  abbrev pub InMemoryMcp : Type 0
  InMemoryMcp = List InMemoryServer

  unfoldable pub with_server : InMemoryServer → InMemoryMcp → InMemoryMcp
  with_server server mcp = mcp ++ server ∷ []

  unfoldable pub find_server : (id : String) → InMemoryMcp → Option InMemoryServer
  find_server id mcp = find (λ (s : InMemoryServer). s.id == id) mcp

  pub record ServerDescriptor : Type 0 where
    pub id : String
    pub display_name : Option String
    pub connected : Bool

  unfoldable pub list_servers : InMemoryMcp → List ServerDescriptor
  list_servers mcp =
      map
        (λ (s : InMemoryServer). record {
          id = s.id;
          display_name = s.display_name;
          connected = true;
        })
        mcp

  unfoldable pub list_tools :
      (server : String) → InMemoryMcp → Result (List ToolDescriptor) McpError
  unfolding find_server
  list_tools server mcp =
      ok_or (option_map (λ (s : InMemoryServer). s.tools) (find_server server mcp))
        (unknown_server server)

  unfoldable pub list_resources :
      (server : String) → InMemoryMcp → Result (List ResourceDescriptor) McpError
  unfolding find_server
  list_resources server mcp =
      ok_or (option_map (λ (s : InMemoryServer). s.resources) (find_server server mcp))
        (unknown_server server)

  unfoldable pub invoke_tool : (server tool : String) → Value → InMemoryMcp → Result Value McpError
  unfolding find_server
  invoke_tool server tool arguments mcp =
      ok_or (option_map (λ (s : InMemoryServer). lookup tool s.tool_impls) (find_server server mcp))
        (unknown_server server)
      >>= λ found. ok_or found (unknown_tool server tool) >>= λ run.
          map_err (remote_error (negsuc 31999)) (run arguments)

  unfoldable pub read_resource :
      (server uri : String) → InMemoryMcp → Result ResourceContent McpError
  unfolding find_server
  read_resource server uri mcp =
      ok_or
        (option_map (λ (s : InMemoryServer). lookup uri s.resource_contents)
          (find_server server mcp))
        (unknown_server server)
      >>= λ found. ok_or found (unknown_resource server uri)

-- `InMemoryMcpPlugin`, with the types of the two capabilities and the handle of the provider.
unfoldable pub in_memory_mcp_plugin : (registry_type client_type provider_arc : ℕ) → Plugin
unfolding register_default
in_memory_mcp_plugin registry_type client_type provider_arc = record {
  name = "in-memory-mcp";
  register_resources = λ r. r;
  register_capabilities = λ c.
      (register_default client_type provider_arc
        (register_default registry_type provider_arc c).1).1;
  register_services = λ p. p;
  required_capabilities = [];
}
