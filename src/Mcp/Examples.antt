-- ===== src/Mcp/Examples.antt =====
-- Runs of the models of crates/walastack-mcp/src on small inputs. The values are texts.
use walastack_rs.Base.{
  ℕ, Result, String, ◌≡◌, refl, false, none, some, List, [], ◌∷◌, ◌++◌, nat_keys, string_keys,
  codes_keys, lookup, insert, ok, err,
}
use walastack_rs.Supervision.Examples.{no_floats}
use walastack_rs.Supervision.Watcher.{service_stopped, exited, Turn, supervise}
use walastack_rs.Auth.{text, secrets_provider}
use walastack_rs.Mcp.Config.{McpError, EnvVar, from_secret, literal_value}
use walastack_rs.Mcp.InMemory.{
  ResourceContent, text_payload, ToolDescriptor, InMemoryServer, new_server, with_tool,
}
use walastack_rs.Mcp.Tools.{starts, adds_tool, Invokes, invoke_tool-list_tools}
use walastack_rs.Mcp.Environment.{Binds, bind_entries-cases}
use walastack_rs.Mcp.Watching.{
  server_unhealthy, clean_up, ping_failed, ping_loop, pings, server_policy, unhealthy_stops,
}
use walastack_rs.Mcp.Connection.{
  JsonRpcResponse, StdioConnection, responded, new_connection, begin_request, deliver,
  finish_request, elapsed, sender_dropped,
}
use walastack_rs.Json.Tree.{Tree, null_tree, tree_json, tree_json-IsLawful}
use walastack_rs.Mcp.Stdio.{read_resource}
use walastack_rs.Mcp.Contents.{content_value, read_resource-content}
use walastack_rs.Mcp.Correlation.{
  opened, begins, reads, IsCorrelated, Reach-IsCorrelated, finish_request_leaks,
}

abbrev echo : ToolDescriptor String
echo = record { name = "echo"; description = none; input_schema = none; output_schema = none }

abbrev echo_server : InMemoryServer String
echo_server = with_tool String echo ok (new_server String "demo")

invoke_tool-list_tools_example : Invokes String "demo" "echo" "hi" (echo_server ∷ [])
invoke_tool-list_tools_example =
    invoke_tool-list_tools String "demo" "echo" "hi" (echo_server ∷ [])
      (adds_tool echo ok (starts "demo"), tt)

abbrev env : List EnvVar
env = literal_value "A" "1" ∷ from_secret "A" "token" ∷ literal_value "B" "2" ∷ []

bind_entries-cases_example :
    Binds (secrets_provider (("token", text "s3cret") ∷ [])) "demo" "A" env []
bind_entries-cases_example =
    bind_entries-cases (secrets_provider (("token", text "s3cret") ∷ [])) "demo" "A" env []

abbrev stopped_turn : Turn
stopped_turn = record {
  shut_first = false;
  exit = exited;
  subsec = 0;
  shut_in_backoff = false;
  restart = ok tt;
}

unhealthy_stops_example :
    ((ping_loop "demo" (pings 2 ++ ping_failed "timeout" ∷ [])).0
      ≡ server_unhealthy "demo" "timeout" ∷ clean_up "demo")
    × (supervise no_floats "mcp-demo" server_policy (stopped_turn ∷ stopped_turn ∷ [])
        ≡ service_stopped "mcp-demo" ∷ [])
unfolding ping_loop
unhealthy_stops_example =
    unhealthy_stops no_floats "mcp-demo" "demo" "timeout" 2 [] stopped_turn (stopped_turn ∷ []) refl
      refl

-- A call whose response comes twice.
abbrev answer : JsonRpcResponse String
answer = record { id = 1; result = some "pong"; error = none }

abbrev answered : StdioConnection String
answered =
    deliver String answer
      (deliver String answer (begin_request String (new_connection String "demo")).1)

Reach-IsCorrelated_example : IsCorrelated String answered
Reach-IsCorrelated_example = Reach-IsCorrelated String (reads answer (reads answer (begins opened)))

-- A connection with a call that waits.
abbrev waiting : StdioConnection String
waiting = (begin_request String (new_connection String "demo")).1

finish_request_leaks_example :
    ((deliver String answer
        (finish_request String "null" 1 (err "broken pipe") waiting).1).delivered
      ≡ (0, answer) ∷ [])
    × (deliver String answer (finish_request String "null" 1 (ok elapsed) waiting).1
        ≡ (finish_request String "null" 1 (ok elapsed) waiting).1)
    × (deliver String answer (finish_request String "null" 1 (ok sender_dropped) waiting).1
        ≡ (finish_request String "null" 1 (ok sender_dropped) waiting).1)
    × (((deliver String answer waiting).delivered ≡ (0, answer) ∷ [])
        × (deliver String answer
              (finish_request String "null" 1
                (ok (responded answer))
                (deliver String answer waiting)).1
            ≡ (finish_request String "null" 1
                (ok (responded answer))
                (deliver String answer waiting)).1))
unfolding new_connection begin_request insert lookup
finish_request_leaks_example =
    finish_request_leaks String "null" waiting 1 0 "broken pipe" answer answer refl refl refl

abbrev note : ResourceContent Tree
note = record {
  uri = "file:///stored";
  mime_type = some "text/plain";
  payload = text_payload "hello";
}

-- A connection whose every answer holds the note.
abbrev answers_note : (conn : ℕ) (method : String) → Tree → Result Tree McpError
answers_note conn method params = ok (
    tree_json.object
      (("contents", tree_json.array (content_value tree_json note ∷ null_tree ∷ [])) ∷ []))

read_resource-content_example :
    read_resource tree_json answers_note "demo" "file:///asked" (("demo", 7) ∷ [])
    ≡ ok (record note { uri = "file:///asked" })
unfolding lookup
read_resource-content_example =
    read_resource-content tree_json tree_json-IsLawful answers_note (("demo", 7) ∷ []) "demo"
      "file:///asked" 7 note (null_tree ∷ []) refl refl
