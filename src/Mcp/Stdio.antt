-- ===== src/Mcp/Stdio.antt =====
-- `StdioMcp` of crates/walastack-mcp/src/stdio.rs: the calls over the map of connections, and what
-- `StdioConnection::open` makes of the subprocess. What `request` answers on a connection is given.
use walastack_rs.Base.{
  String, Bool, true, Option, none, some, List, [], ◌∷◌, map, if◌then◌else◌, nat_keys, string_keys,
  codes_keys, and_then, option_map, or_else, lookup, Result, ok, err, ◌>>=◌, ok_or, map_err,
}
use Prim.Native.String.{◌++◌ as append}
use walastack_rs.Json.{SerdeJson}
use walastack_rs.Mcp.Config.{McpError, unknown_server, transport_failed, serialization}
use walastack_rs.Mcp.InMemory.{
  ToolDescriptor, ResourceDescriptor, ResourceContent, ResourcePayload, text_payload, blob_payload,
  ServerDescriptor,
}

-- What the start of a subprocess gives.
pub record Spawned : Type 0 where
  pub has_stdin : Bool
  pub has_stdout : Bool

-- `first`.
abbrev pub first_of {ℓ} : {A : Type ℓ} → List A → Option A
first_of [] = none
first_of (x ∷ _) = some x

module _ (json : SerdeJson) where
  open json use {Value, text, object, get, as_str, as_array}

  -- The display name in the answer to `initialize`.
  unfoldable pub server_name : Value → Option String
  server_name init_result = and_then (and_then (get "serverInfo" init_result) (get "name")) as_str

  -- `open`: the start (whose error shows the command without quotes here), the two pipes, `initialize` and the notification, in this order. Its result
  -- goes by the display name.
  unfoldable pub open_stdio :
      (command : String)
      → Result Spawned String
      → (initialize : Result Value McpError) → (notified : Result (Unit {0}) McpError)
      → Result (Option String) McpError
  unfolding server_name
  open_stdio command spawned initialize notified =
      map_err (λ e. transport_failed (append "spawn " (append command (append " failed: " e))))
        spawned
      >>= λ child.
          (if child.has_stdin then ok tt else err (transport_failed "subprocess stdin unavailable"))
          >>= λ (_ : Unit {0}).
              (if child.has_stdout
                then ok tt
                else err (transport_failed "subprocess stdout unavailable"))
              >>= λ (_ : Unit {0}).
                  initialize >>= λ init_result. notified >>= λ _. ok (server_name init_result)

  -- The payload of an entry of `contents`: its text, or else its blob.
  unfoldable pub entry_payload : Value → Result (ResourcePayload Value) McpError
  entry_payload first =
      ok_or
        (or_else (option_map text_payload (and_then (get "text" first) as_str))
          (option_map blob_payload (and_then (get "blob" first) as_str)))
        (transport_failed "resources/read content has neither text nor blob")

  -- What `read_resource` makes of the answer.
  unfoldable pub first_content :
      (uri : String) → (result : Value) → Result (ResourceContent Value) McpError
  unfolding entry_payload
  first_content uri result =
      ok_or (and_then (get "contents" result) as_array)
        (transport_failed "resources/read result missing `contents` array")
      >>= λ contents.
          ok_or (first_of contents) (transport_failed "resources/read returned empty contents")
          >>= λ first. entry_payload first >>= λ payload. ok (record {
            uri = uri;
            mime_type = and_then (get "mimeType" first) as_str;
            payload = payload;
          })

  -- What a listing makes of the answer; `from_value` is serde's for a list of descriptors.
  unfoldable pub listed :
      {A : Type 0} (from_value : Value → Result A String) (key missing : String)
      → (result : Value) → Result A McpError
  listed from_value key missing result =
      ok_or (get key result) (transport_failed missing) >>= λ raw.
      map_err serialization (from_value raw)

  module _ {Connection : Type 0}
      (request : Connection → String → Value → Result Value McpError) where
    abbrev pub Connections : Type 0
    Connections = List (String × Connection)

    unfoldable pub connection_of : (server : String) → Connections → Result Connection McpError
    connection_of server connections = ok_or (lookup server connections) (unknown_server server)

    -- `list_servers`; a map that is locked for writing gives no server.
    unfoldable pub list_servers :
        (display_name : Connection → Option String) (write_locked : Bool)
        → Connections
        → List (ServerDescriptor Value)
    list_servers display_name write_locked connections =
        if write_locked
        then []
        else map
            (λ (e : String × Connection). record {
              id = e.0;
              display_name = display_name e.1;
              connected = true;
            })
            connections

    unfoldable pub list_tools :
        (from_value : Value → Result (List (ToolDescriptor Value)) String) (server : String)
        → Connections
        → Result (List (ToolDescriptor Value)) McpError
    unfolding connection_of listed
    list_tools from_value server connections = connection_of server connections >>= λ conn.
        request conn "tools/list" (object []) >>= λ result.
        listed from_value "tools" "tools/list result missing `tools`" result

    unfoldable pub list_resources :
        (from_value : Value → Result (List (ResourceDescriptor Value)) String) (server : String)
        → Connections
        → Result (List (ResourceDescriptor Value)) McpError
    unfolding connection_of listed
    list_resources from_value server connections = connection_of server connections >>= λ conn.
        request conn "resources/list" (object []) >>= λ result.
        listed from_value "resources" "resources/list result missing `resources`" result

    unfoldable pub invoke_tool :
        (server tool : String) → (arguments : Value) → Connections → Result Value McpError
    unfolding connection_of
    invoke_tool server tool arguments connections = connection_of server connections >>= λ conn.
        request conn "tools/call" (object (("name", text tool) ∷ ("arguments", arguments) ∷ []))

    unfoldable pub read_resource :
        (server uri : String) → Connections → Result (ResourceContent Value) McpError
    unfolding connection_of first_content
    read_resource server uri connections = connection_of server connections >>= λ conn.
        request conn "resources/read" (object (("uri", text uri) ∷ [])) >>= λ result.
        first_content uri result
