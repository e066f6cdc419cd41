-- ===== src/Mcp/Watching.antt =====
-- crates/walastack-mcp/src/service.rs and plugin.rs: the service of a server, its ping loop, and what
-- its watcher makes of the end of the loop.
use walastack_rs.Base.{
  ℕ, zero, suc, String, ◌≡◌, refl, ap, ◌∙◌, false, Option, none, some, List, [], ◌∷◌, ◌++◌, arith,
  nat_keys, string_keys, codes_keys, unwrap_or, u32_max, Result, ok, err, ◌>>=◌,
}
use walastack_rs.Scheduler.Backoff.{Floats, linear}
use walastack_rs.Supervision.Watcher.{
  RestartPolicy, on_failure, service_stopped, Exit, exited, Turn, supervise, supervise_from,
}
use walastack_rs.Capabilities.Registry.{register_default}
use walastack_rs.Kernel.Resources.{insert_arc}
use walastack_rs.Kernel.Plugins.{Plugin, Service, ServicePlanner, add_supervised, any}
use walastack_rs.Mcp.Config.{McpServerSpec, McpConfig}

-- What the service does, in order: on the map of connections, on the bus, and with the subprocess.
pub data McpEffect : Type 0 where
  inserts_connection : (server : String) → McpEffect
  server_connected : (server : String) → McpEffect
  server_unhealthy : (server reason : String) → McpEffect
  closes_connection : McpEffect
  removes_connection : (server : String) → McpEffect
  server_disconnected : (server : String) → McpEffect

-- The end of the wait in a turn of the loop: the shutdown signal, or the answer to a ping.
pub data Ping : Type 0 where
  signalled : Ping
  pinged : Ping
  ping_failed : (error : String) → Ping

-- The clean-up after the loop.
unfoldable pub clean_up : (server : String) → List McpEffect
clean_up server = closes_connection ∷ removes_connection server ∷ server_disconnected server ∷ []

-- The task, over the turns of its loop, and how it ends, if it does.
unfoldable pub ping_loop : (server : String) → List Ping → List McpEffect × Option Exit
unfolding clean_up
ping_loop server [] = ([], none)
ping_loop server (signalled ∷ _) = (clean_up server, some exited)
ping_loop server (pinged ∷ pings) = ping_loop server pings
ping_loop server (ping_failed error ∷ _) =
    (server_unhealthy server error ∷ clean_up server, some exited)

-- `start`: what `resolve_env` and `StdioConnection::open` answer decides.
unfoldable pub start_server :
    {Env Connection : Type 0} (server : String)
    → Result Env String
    → (open_connection : Env → Result Connection String) → Result Connection String × List McpEffect
start_server server env open_connection = elim (env >>= open_connection) [
  | err e ↦ (err e, [])
  | ok connection ↦ (ok connection, inserts_connection server ∷ server_connected server ∷ [])
]

unfoldable pub request_timeout : McpServerSpec → McpConfig → ℕ
request_timeout spec config = unwrap_or spec.request_timeout config.default_request_timeout

-- Restarts without a limit that counts, one second after the other.
abbrev pub server_policy : RestartPolicy
server_policy = on_failure u32_max (linear 1000000000 1000000000)

-- The loop of `register_services`: `service_of` is `McpServerService::new` with its answer to `start`.
unfoldable pub plan_servers :
    (service_of : McpServerSpec → Service) → List McpServerSpec → ServicePlanner → ServicePlanner
unfolding add_supervised
plan_servers service_of [] planner = planner
plan_servers service_of (spec ∷ specs) planner =
    plan_servers service_of specs (add_supervised (service_of spec) server_policy planner)

-- The types and handles that `McpPlugin` registers.
pub record McpTypes : Type 0 where
  pub config_type : ℕ
  pub config_arc : ℕ
  pub registry_type : ℕ
  pub client_type : ℕ
  pub stdio_arc : ℕ
  pub secrets_type : ℕ
  pub secrets_type_name : String

unfoldable pub mcp_plugin : McpTypes → (service_of : McpServerSpec → Service) → McpConfig → Plugin
unfolding insert_arc register_default plan_servers any
mcp_plugin types service_of config = record {
  name = "mcp";
  register_resources = λ r. (insert_arc types.config_type types.config_arc r).1;
  register_capabilities = λ c.
      (register_default types.client_type types.stdio_arc
        (register_default types.registry_type types.stdio_arc c).1).1;
  register_services = plan_servers service_of config.servers;
  required_capabilities = any types.secrets_type types.secrets_type_name ∷ [];
}

-- Good pings.
abbrev pub pings : ℕ → List Ping
pings zero = []
pings (suc n) = pinged ∷ pings n

ping_loop-pinged :
    (server : String) (n : ℕ) (error : String) (later : List Ping)
    → ping_loop server (pings n ++ ping_failed error ∷ later)
      ≡ (server_unhealthy server error ∷ clean_up server, some exited)
unfolding ping_loop
ping_loop-pinged server zero error later = refl
ping_loop-pinged server (suc n) error later = ping_loop-pinged server n error later

-- A server that fails a ping after any number of good ones is published as unhealthy, closed and
-- removed, and never started again: the task ends without a panic, which the policy takes for a stop,
-- so that the watcher publishes `ServiceStopped` and ends, whatever its later turns would be.
pub unhealthy_stops :
    (fl : Floats) (name server error : String) (n : ℕ) (later : List Ping) (t : Turn)
    (turns : List Turn)
    → t.shut_first ≡ false
    → some t.exit ≡ (ping_loop server (pings n ++ ping_failed error ∷ later)).1
    → ((ping_loop server (pings n ++ ping_failed error ∷ later)).0
        ≡ server_unhealthy server error ∷ clean_up server)
      × (supervise fl name server_policy (t ∷ turns) ≡ service_stopped name ∷ [])
unfolding supervise supervise_from
unhealthy_stops fl name server error n later t turns live ended =
    let loop = ping_loop-pinged server n error later in
    let same : some t.exit ≡ some exited =
      ended ∙ ap (λ (x : List McpEffect × Option Exit). x.1) loop in
    let stopped : t.exit ≡ exited = cc same in
    (ap (λ (x : List McpEffect × Option Exit). x.0) loop, ground (arith, live, stopped))
