-- ===== src/Kernel/Runtime.antt =====
-- crates/walastack-runtime/src/runtime.rs: `RuntimeBuilder` and `Runtime`. The lifecycle's events and
-- what the supervision tree does form one sequence of effects.
use walastack_rs.Base.{
  ℕ, String, Bool, true, false, ◌||◌, List, [], ◌∷◌, ◌++◌, map, if◌then◌else◌, nat_keys,
  string_keys, Result, ok, err, ◌>>=◌, map_err,
}
use walastack_rs.Capabilities.Registry.{
  CapabilityRegistry, new_registry, register, register_default,
}
use walastack_rs.Capabilities.View.{Capabilities}
use walastack_rs.Capabilities.View
use walastack_rs.Supervision.Watcher.{RestartPolicy, one_shot, WatchEffect}
use walastack_rs.Supervision.Tree.{SupervisionTree, new_tree, start_supervised, drain}
use walastack_rs.Kernel.Resources.{ResourceRegistry, new_resources, insert_arc, Resources}
use walastack_rs.Kernel.Resources
use walastack_rs.Kernel.Plugins.{
  Service, Plugin, Registries, apply_all, PluginError, validate_requirements,
}

pub data RuntimeError : Type 0 where
  service_start : (name : String) (source : String) → RuntimeError
  plugin_error : PluginError → RuntimeError

pub record RuntimeBuilder : Type 0 where
  pub resources : ResourceRegistry
  pub capabilities : CapabilityRegistry
  pub services : List (Service × RestartPolicy)
  pub plugins : List Plugin
  pub shutdown_deadline : ℕ

unfoldable pub new_builder : RuntimeBuilder
new_builder = record {
  resources = new_resources;
  capabilities = new_registry;
  services = [];
  plugins = [];
  shutdown_deadline = 10000000000;
}

-- `with_resource` and `with_resource_arc`.
unfoldable pub with_resource : (type_id value : ℕ) → RuntimeBuilder → RuntimeBuilder
with_resource ty value b = record b { resources = (insert_arc ty value b.resources).1 }

unfoldable pub with_capability :
    (type_id : ℕ) → String → (provider : ℕ) → RuntimeBuilder → RuntimeBuilder
with_capability c name provider b = record b {
  capabilities = (register c name provider b.capabilities).1;
}

unfoldable pub with_default_capability : (type_id provider : ℕ) → RuntimeBuilder → RuntimeBuilder
with_default_capability c provider b = record b {
  capabilities = (register_default c provider b.capabilities).1;
}

-- `with_supervised` and `with_arc`, and `with`.
unfoldable pub with_supervised : Service → RestartPolicy → RuntimeBuilder → RuntimeBuilder
with_supervised service policy b = record b { services = b.services ++ (service, policy) ∷ [] }

unfoldable pub with_service : Service → RuntimeBuilder → RuntimeBuilder
unfolding with_supervised
with_service service b = with_supervised service one_shot b

-- `with_plugin` and `with_plugin_arc`.
unfoldable pub with_plugin : Plugin → RuntimeBuilder → RuntimeBuilder
with_plugin plugin b = record b { plugins = b.plugins ++ plugin ∷ [] }

unfoldable pub with_shutdown_deadline : ℕ → RuntimeBuilder → RuntimeBuilder
with_shutdown_deadline deadline b = record b { shutdown_deadline = deadline }

pub record Runtime : Type 0 where
  pub resources : Resources
  pub capabilities : Capabilities
  pub supervision : SupervisionTree
  pub services : List (Service × RestartPolicy)
  pub shutdown_deadline : ℕ
  pub shut_down : Bool  -- of the event bus

-- The Configure phase: every plugin has registered.
unfoldable pub configure : RuntimeBuilder → Registries
configure b =
    apply_all b.plugins
      (record { resources = b.resources; capabilities = b.capabilities; planner = [] })

unfoldable pub build : RuntimeBuilder → Result Runtime RuntimeError
build b =
    let r = configure b in
    let capabilities = View.build r.capabilities in
    map_err plugin_error (validate_requirements capabilities b.plugins) >>= λ _. ok (record {
      resources = Resources.build r.resources;
      capabilities = capabilities;
      supervision = new_tree;
      services = b.services ++ r.planner;
      shutdown_deadline = b.shutdown_deadline;
      shut_down = false;
    })

pub data RuntimeEffect : Type 0 where
  runtime_starting runtime_started runtime_stopping runtime_stopped : RuntimeEffect
  supervises : WatchEffect → RuntimeEffect
  waits_for_shutdown : RuntimeEffect

-- What a start comes to: its answer, the tree, and the effects.
abbrev pub Outcome : Type 0
Outcome = Result (Unit {0}) RuntimeError × SupervisionTree × List RuntimeEffect

-- The body of the loop of `start`, with the answer of the supervision tree; `rest` is the rest of
-- the loop.
unfoldable pub after_start :
    (name : String)
    → Result (Unit {0}) String × SupervisionTree × List WatchEffect
    → (SupervisionTree → Outcome)
    → Outcome
after_start name (err source, tree, effects) rest =
    (err (service_start name source), tree, map supervises effects)
after_start name (ok _, tree, effects) rest =
    let onward = rest tree in (onward.0, onward.1, map supervises effects ++ onward.2)

-- The loop of `start` over the services.
unfoldable pub start_services : List (Service × RestartPolicy) → SupervisionTree → Outcome
unfolding after_start
start_services [] tree = (ok tt, tree, [])
start_services ((service, _) ∷ rest) tree =
    after_start service.name (start_supervised service.name service.start tree)
      (start_services rest)

abbrev pub is_ok {ℓ κ} : {A : Type ℓ} {E : Type κ} → Result A E → Bool
is_ok (ok _) = true
is_ok (err _) = false

unfoldable pub start : Runtime → Result (Unit {0}) RuntimeError × Runtime × List RuntimeEffect
unfolding start_services
start r =
    let (answer, tree, effects) = start_services r.services r.supervision in
    (
      answer,
      record r { services = []; supervision = tree },
      runtime_starting ∷ (effects ++ (if is_ok answer then runtime_started ∷ [] else [])),
    )

-- `in_time` tells which watchers exit before the deadline.
unfoldable pub shutdown_gracefully : (in_time : ℕ → Bool) → Runtime → Runtime × List RuntimeEffect
shutdown_gracefully in_time r =
    let tree = (drain in_time r.supervision).1 in
    (
      record r { shut_down = true; supervision = tree },
      (if r.shut_down then [] else runtime_stopping ∷ []) ++ runtime_stopped ∷ [],
    )

-- `Runtime::run`. The wait ends when somebody has shut the bus down.
unfoldable pub run :
    (in_time : ℕ → Bool) → Runtime → Result (Unit {0}) RuntimeError × Runtime × List RuntimeEffect
unfolding start shutdown_gracefully
run in_time r =
    let (answer, r₁, started) = start r in
    let waited = record r₁ { shut_down = is_ok answer || r₁.shut_down } in
    let (r₂, stopped) = shutdown_gracefully in_time waited in
    (answer, r₂, started ++ ((if is_ok answer then waits_for_shutdown ∷ [] else []) ++ stopped))

unfoldable pub run_built :
    (in_time : ℕ → Bool)
    → Result Runtime RuntimeError
    → Result (Unit {0}) RuntimeError × List RuntimeEffect
unfolding run
run_built in_time (err e) = (err e, [])
run_built in_time (ok r) = let (answer, _, effects) = run in_time r in (answer, effects)

-- `RuntimeBuilder::run`: nothing is started if the build fails.
unfoldable pub run_builder :
    (in_time : ℕ → Bool) → RuntimeBuilder → Result (Unit {0}) RuntimeError × List RuntimeEffect
unfolding run_built build
run_builder in_time b = run_built in_time (build b)
