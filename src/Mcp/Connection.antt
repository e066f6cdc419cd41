-- ===== src/Mcp/Connection.antt =====
-- crates/walastack-mcp/src/jsonrpc.rs and stdio.rs: messages, and the requests of a connection that
-- wait for a response. A oneshot sender goes by the number of the call of `request` that made it.
use walastack_rs.Base.{
  ℕ, ◌+◌, ◌%◌, String, Bool, Option, none, some, List, [], ◌∷◌, if◌then◌else◌, nat_keys,
  string_keys, codes_keys, is_some, and_then, unwrap_or, lookup, insert, remove, ℤ, Result, ok, err,
  ◌>>=◌,
}
use walastack_rs.Json.{SerdeJson}
use walastack_rs.Mcp.Config.{McpError, transport_failed, remote_error, timed_out}

abbrev pub u64_size : ℕ
u64_size = 18446744073709551616

module _ (Value : Type 0) where
  pub record JsonRpcError : Type 0 where
    pub code : ℤ
    pub message : String
    pub error_data : Option Value

  pub record JsonRpcResponse : Type 0 where
    pub id : ℕ
    pub result : Option Value
    pub error : Option JsonRpcError

  pub data IncomingMessage : Type 0 where
    response : JsonRpcResponse → IncomingMessage
    notification : (method : String) (params : Value) → IncomingMessage

  pub record StdioConnection : Type 0 where
    pub server_id : String
    pub next_id : ℕ  -- AtomicU64
    pub pending : List (ℕ × ℕ)  -- the call, by the id of its request
    pub calls : ℕ  -- how many calls there were
    pub delivered : List (ℕ × JsonRpcResponse)  -- what each call was sent

  unfoldable pub new_connection : (server_id : String) → StdioConnection
  new_connection server_id = record {
    server_id = server_id;
    next_id = 1;
    pending = [];
    calls = 0;
    delivered = [];
  }

  -- The first half of `request`: the id, and the connection with the sender.
  unfoldable pub begin_request : StdioConnection → ℕ × StdioConnection
  begin_request c = (
    c.next_id,
    record c {
      next_id = (c.next_id + 1) % u64_size;
      pending = insert c.next_id c.calls c.pending;
      calls = c.calls + 1;
    },
  )

  -- The reader's answer to a response.
  unfoldable pub deliver : JsonRpcResponse → StdioConnection → StdioConnection
  deliver r c = elim (lookup r.id c.pending) [
    | none ↦ c
    | some call ↦ record c { pending = remove r.id c.pending; delivered = (call, r) ∷ c.delivered }
  ]

  unfoldable pub forget_request : (id : ℕ) → StdioConnection → StdioConnection
  forget_request id c = record c { pending = remove id c.pending }

  -- What the wait for the response comes to.
  pub data Wait : Type 0 where
    responded : JsonRpcResponse → Wait
    sender_dropped : Wait
    elapsed : Wait

  abbrev pub response_result : (null : Value) → JsonRpcResponse → Result Value McpError
  response_result null r = elim r.error [
    | some e ↦ err (remote_error e.code e.message)
    | none ↦ ok (unwrap_or r.result null)
  ]

  -- The second half of `request`, after the write; an error of the write leaves the connection as it
  -- is.
  unfoldable pub finish_request :
      (null : Value) (id : ℕ)
      → Result Wait String
      → StdioConnection
      → Result Value McpError × StdioConnection
  unfolding forget_request
  finish_request null id (err e) c = (err (transport_failed e), c)
  finish_request null id (ok (responded r)) c = (response_result null r, c)
  finish_request null id (ok sender_dropped) c =
      (err (transport_failed "reader task closed before responding"), forget_request id c)
  finish_request null id (ok elapsed) c = (err (timed_out c.server_id), forget_request id c)

module _ (json : SerdeJson) where
  open json use {Value, null, from_str, get, as_str}

  -- `parse_incoming`; `from_value` is serde's for a response.
  unfoldable pub parse_incoming :
      (from_value : Value → Result (JsonRpcResponse Value) String)
      → (line : String) → Result (IncomingMessage Value) String
  parse_incoming from_value line = from_str line >>= λ value.
      if is_some (get "id" value)
      then (from_value value >>= λ r. ok (response r))
      else ok (
          notification (unwrap_or (and_then (get "method" value) as_str) "")
            (unwrap_or (get "params" value) null))

  -- The body of the reader's loop; an empty line is skipped, as `is_blank` tells.
  unfoldable pub read_line :
      (from_value : Value → Result (JsonRpcResponse Value) String)
      → (is_blank : String → Bool) → (line : String) → StdioConnection Value
      → StdioConnection Value
  unfolding parse_incoming deliver
  read_line from_value is_blank line c =
      if is_blank line then c else elim (parse_incoming from_value line) [
        | err _ ↦ c
        | ok (notification _ _) ↦ c
        | ok (response r) ↦ deliver Value r c
      ]

-- `StdioMcp`: the connections by the server's id, which a lookup of a call takes.
module _ {Connection : Type 0} where
  unfoldable pub insert_connection :
      (server : String) → Connection → List (String × Connection) → List (String × Connection)
  insert_connection server connection connections = insert server connection connections

  unfoldable pub remove_connection :
      (server : String)
      → List (String × Connection)
      → Option Connection × List (String × Connection)
  remove_connection server connections = (lookup server connections, remove server connections)
