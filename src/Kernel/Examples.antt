-- ===== src/Kernel/Examples.antt =====
-- Runs of the model of the builder and the runtime of crates/walastack-runtime/src on small inputs.
use walastack_rs.Base.{
  String, ◌≡◌, refl, ◌⊎◌, true, false, none, List, [], ◌∷◌, ◌++◌, nat_keys, string_keys, All,
  Result, ok, err,
}
use walastack_rs.Capabilities.View
use walastack_rs.Supervision.Watcher.{RestartPolicy, one_shot, service_started, start_service}
use walastack_rs.Supervision.Tree.{new_tree}
use walastack_rs.Kernel.Resources.{
  ResourceRegistry, new_resources, insert_arc, Filled, nothing, inserted, insert_arc-build,
}
use walastack_rs.Kernel.Resources
use walastack_rs.Kernel.Plugins.{Service, Plugin, CapabilityRequirement, missing_requirement}
use walastack_rs.Kernel.Requirements.{Meets, FirstUnmet}
use walastack_rs.Kernel.Runtime.{
  RuntimeBuilder, plugin_error, new_builder, with_plugin, configure, build, run_builder, Runtime,
  runtime_starting, runtime_stopping, runtime_stopped, supervises, service_start, run,
  shutdown_gracefully,
}
use walastack_rs.Kernel.Lifecycle.{started}
use walastack_rs.Kernel.Phases.{build-cases, run_in_order}

abbrev needs_store : CapabilityRequirement
needs_store = record { type_id = 7; name = none; description = "JobStore" }

-- A plugin that needs a job store and registers none.
abbrev needy_plugin : Plugin
needy_plugin = record {
  name = "jobs";
  register_resources = λ r. r;
  register_capabilities = λ c. c;
  register_services = λ p. p;
  required_capabilities = needs_store ∷ [];
}

abbrev with_jobs : RuntimeBuilder
with_jobs = with_plugin needy_plugin new_builder

build-cases_example :
    let caps = View.build (configure with_jobs).capabilities in
    ((r : Runtime) × (build with_jobs ≡ ok r)
      × All (Meets caps) with_jobs.plugins
      × (r.services ≡ with_jobs.services ++ (configure with_jobs).planner)
      × (r.supervision ≡ new_tree)
      × (r.shut_down ≡ false))
    ⊎ ((before : List Plugin) × (p : Plugin) × (after : List Plugin) × (req : CapabilityRequirement)
        × (with_jobs.plugins ≡ before ++ p ∷ after)
        × All (Meets caps) before
        × FirstUnmet caps p.required_capabilities req
        × (build with_jobs ≡ err (plugin_error (missing_requirement p.name req.description)))
        × (run_builder (λ w. true) with_jobs
            ≡ (err (plugin_error (missing_requirement p.name req.description)), [])))
build-cases_example = build-cases (λ w. true) with_jobs

abbrev service : String → Result (Unit {0}) String → Service × RestartPolicy
service name answer = (record { name = name; start = answer }, one_shot)

abbrev two_services : Runtime
two_services = record {
  resources = Resources.build new_resources;
  capabilities = View.empty;
  supervision = new_tree;
  services = service "cache" (ok tt) ∷ service "mail" (err "refused") ∷ service "web" (ok tt) ∷ [];
  shutdown_deadline = 10;
  shut_down = false;
}

run_in_order_example :
    ((run (λ w. true) two_services).0 ≡ err (service_start "mail" "refused"))
    × ((run (λ w. true) two_services).2
        ≡ runtime_starting
          ∷ supervises start_service
          ∷ supervises (service_started "cache" 1)
          ∷ supervises start_service
          ∷ runtime_stopping
          ∷ runtime_stopped
          ∷ [])
    × ((run (λ w. true) two_services).1.supervision.children ≡ [])
    × (shutdown_gracefully (λ w. true) (run (λ w. true) two_services).1
        ≡ ((run (λ w. true) two_services).1, runtime_stopped ∷ []))
unfolding started
run_in_order_example =
    run_in_order (λ w. true) two_services (service "cache" (ok tt) ∷ [])
      (service "mail" (err "refused") ∷ service "web" (ok tt) ∷ []) refl refl (refl, tt)
      ("refused", refl)
