-- ===== src/App/Server.antt =====
-- crates/walastack-app/src/lib.rs: `App::run`, `HttpService` and its accept loop. What the standard
-- library and tokio answer is given: the parse of an address, the bind, and what each turn of the
-- loop accepts.
use walastack_rs.Base.{
  ℕ, String, ◌≡◌, sym, ◌∙◌, Bool, List, [], ◌∷◌, ◌++◌, nat_keys, string_keys, codes_keys, Result,
  ok, err, map_err,
}
use Prim.Native.String.{◌++◌ as append}
use mathlib.Core.List.{append_assoc, append-nil}
use walastack_rs.Router.{Matchit, Router}
use walastack_rs.Kernel.Context.{RuntimeContext}
use walastack_rs.Kernel.Plugins.{Service, Plugin}
use walastack_rs.Kernel.Runtime.{
  RuntimeError, RuntimeEffect, RuntimeBuilder, new_builder, with_service, with_plugin, run_builder,
}
use walastack_rs.Http.{Response, Error, invalid_address, custom}
use walastack_rs.Http.Extract.{Request}
use walastack_rs.App.Handlers.{Handler}
use walastack_rs.App.{App, serve_request}

unfoldable pub parse_addr :
    {Address : Type 0} (parse : String → Result Address String) (addr : String)
    → Result Address Error
parse_addr parse addr = map_err (λ e. invalid_address (append addr (append ": " e))) (parse addr)

-- The service, by what its bind answers.
unfoldable pub http_service : Result (Unit {0}) String → Service
http_service bound = record { name = "http"; start = bound }

-- The loop over the plugins in `run`.
unfoldable pub add_plugins : List Plugin → RuntimeBuilder → RuntimeBuilder
unfolding with_plugin
add_plugins [] b = b
add_plugins (p ∷ plugins) b = add_plugins plugins (with_plugin p b)

-- What `accept` and the shutdown signal give in a turn of the loop: a connection goes by its requests.
pub data Turn : Type 0 where
  shutdown_received : Turn
  accepted : List Request → Turn
  accept_failed : String → Turn

module _ (matchit : Matchit Handler) (Value : Type 0) where
  -- `App::run`; `show` is the text of an error.
  unfoldable pub run :
      {Address : Type 0} (parse : String → Result Address String)
      (bind : Address → Result (Unit {0}) String) (show : RuntimeError → String)
      (in_time : ℕ → Bool) (addr : String)
      → App matchit Value
      → Result (Unit {0}) Error × List RuntimeEffect
  unfolding parse_addr http_service add_plugins with_service run_builder
  run parse bind show in_time addr app = elim (parse_addr parse addr) [
    | err e ↦ (err e, [])
    | ok parsed ↦
        let (answer, effects) =
          run_builder in_time
            (with_service (http_service (bind parsed)) (add_plugins app.plugins new_builder)) in
        (map_err (λ e. custom (show e)) answer, effects)
  ]

  -- The connection task: each request is served, one after the other.
  unfoldable pub serve_connection : Router matchit → RuntimeContext → List Request → List Response
  unfolding serve_request
  serve_connection router runtime [] = []
  serve_connection router runtime (req ∷ reqs) =
      serve_request matchit Value router runtime req ∷ serve_connection router runtime reqs

  -- `accept_loop`: the responses of each connection.
  unfoldable pub accept_loop : Router matchit → RuntimeContext → List Turn → List (List Response)
  unfolding serve_connection
  accept_loop router runtime [] = []
  accept_loop router runtime (shutdown_received ∷ turns) = []
  accept_loop router runtime (accepted reqs ∷ turns) =
      serve_connection router runtime reqs ∷ accept_loop router runtime turns
  accept_loop router runtime (accept_failed _ ∷ turns) = accept_loop router runtime turns

  -- The builder of `run` has the plugins of the application, in the order in which they were added.
  pub add_plugins-plugins :
      (plugins : List Plugin) (b : RuntimeBuilder)
      → (add_plugins plugins b).plugins ≡ b.plugins ++ plugins
  unfolding add_plugins with_plugin
  add_plugins-plugins [] b = sym (append-nil b.plugins)
  add_plugins-plugins (p ∷ plugins) b =
      add_plugins-plugins plugins (with_plugin p b) ∙ append_assoc b.plugins (p ∷ []) plugins
