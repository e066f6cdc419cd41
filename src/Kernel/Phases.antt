-- ===== src/Kernel/Phases.antt =====
-- What `RuntimeBuilder::build`, `RuntimeBuilder::run`, `Runtime::run` and `Runtime::shutdown_gracefully`
-- of crates/walastack-runtime/src/runtime.rs come to.
use walastack_rs.Base.{
  ℕ, ◌≡◌, refl, ap, ◌∙◌, ◌⊎◌, inl, inr, Bool, true, false, ◌||◌, List, [], ◌∷◌, ◌++◌, if◌then◌else◌,
  nat_keys, string_keys, All, ok, err,
}
use mathlib.Core.List.{append_assoc}
use walastack_rs.Capabilities.View
use walastack_rs.Supervision.Watcher.{RestartPolicy, start_service}
use walastack_rs.Supervision.Tree.{new_tree, drain}
use walastack_rs.Kernel.Resources
use walastack_rs.Kernel.Plugins.{Service, Plugin, CapabilityRequirement, missing_requirement}
use walastack_rs.Kernel.Requirements.{Meets, FirstUnmet, validate_requirements-cases}
use walastack_rs.Kernel.Runtime.{
  RuntimeError, plugin_error, RuntimeBuilder, configure, build, Runtime, RuntimeEffect,
  runtime_starting, runtime_started, runtime_stopping, runtime_stopped, supervises,
  waits_for_shutdown, start, shutdown_gracefully, run, run_built, run_builder, is_ok,
}
use walastack_rs.Kernel.Lifecycle.{started, Answers, FailsFirst, first_error, start_in_order}

-- The runtime that a build without an error gives.
abbrev pub built : RuntimeBuilder → Runtime
built b = record {
  resources = Resources.build (configure b).resources;
  capabilities = View.build (configure b).capabilities;
  supervision = new_tree;
  services = b.services ++ (configure b).planner;
  shutdown_deadline = b.shutdown_deadline;
  shut_down = false;
}

run_builder-err :
    (in_time : ℕ → Bool) (b : RuntimeBuilder) (e : RuntimeError)
    → build b ≡ err e
    → run_builder in_time b ≡ (err e, [])
unfolding run_builder
run_builder-err in_time b e h = ap (run_built in_time) h

-- A build succeeds if all plugins have their requirements met by the capabilities as they are after
-- every plugin has registered, and then the runtime has the services of the builder followed by
-- those of the plugins, none of them started. Otherwise the error names the first plugin with an
-- unmet requirement and the first such requirement of it, and `RuntimeBuilder::run` gives that
-- error and has no effect.
pub build-cases :
    (in_time : ℕ → Bool) (b : RuntimeBuilder)
    → let caps = View.build (configure b).capabilities in
      ((r : Runtime) × (build b ≡ ok r)
        × All (Meets caps) b.plugins
        × (r.services ≡ b.services ++ (configure b).planner)
        × (r.supervision ≡ new_tree)
        × (r.shut_down ≡ false))
      ⊎ ((before : List Plugin) × (p : Plugin) × (after : List Plugin)
          × (req : CapabilityRequirement) × (b.plugins ≡ before ++ p ∷ after)
          × All (Meets caps) before
          × FirstUnmet caps p.required_capabilities req
          × (build b ≡ err (plugin_error (missing_requirement p.name req.description)))
          × (run_builder in_time b
              ≡ (err (plugin_error (missing_requirement p.name req.description)), [])))
unfolding build
build-cases in_time b =
    elim (validate_requirements-cases (View.build (configure b).capabilities) b.plugins) [
      | inl (good, met) ↦ inl (built b, rw good refl, met, refl, refl, refl)
      | inr (before, p, after, req, split, met, unmet, bad) ↦ inr (
        before,
        p,
        after,
        req,
        split,
        met,
        unmet,
        rw bad refl,
        run_builder-err in_time b _ (rw bad refl),
      )
    ]

-- What follows the start in a run.
after : (is_up is_shut_down : Bool) → List RuntimeEffect
after is_up is_shut_down =
    (if is_up then waits_for_shutdown ∷ [] else [])
    ++ ((if is_up || is_shut_down then [] else runtime_stopping ∷ []) ++ runtime_stopped ∷ [])

run-effects :
    (in_time : ℕ → Bool) (r : Runtime)
    → (run in_time r).2 ≡ (start r).2 ++ after (is_ok (start r).0) r.shut_down
unfolding run shutdown_gracefully start after
run-effects in_time r = refl

run-shut_down :
    (in_time : ℕ → Bool) (r : Runtime)
    → ((run in_time r).0 ≡ (start r).0)
      × ((run in_time r).1.supervision.children ≡ [])
      × (shutdown_gracefully in_time (run in_time r).1 ≡ ((run in_time r).1, runtime_stopped ∷ []))
unfolding run shutdown_gracefully drain
run-shut_down in_time r = (refl, refl, refl)

after-branches :
    (is_up : Bool)
    → (if is_up then runtime_started ∷ [] else supervises start_service ∷ []) ++ after is_up false
      ≡ (if is_up
          then runtime_started ∷ waits_for_shutdown ∷ runtime_stopped ∷ []
          else supervises start_service ∷ runtime_stopping ∷ runtime_stopped ∷ [])
unfolding after
after-branches true = refl
after-branches false = refl

-- A whole run of a runtime that is not shut down. `RuntimeStarting` comes first. If every service
-- answers, each one is started and announced in order, then come `RuntimeStarted`, the wait for the
-- shutdown, and `RuntimeStopped`. If one fails, no later service is touched, and `RuntimeStopping` and
-- `RuntimeStopped` follow its try. The answer is that of the start, and no service is supervised in
-- the end. A second shutdown changes nothing, but it publishes `RuntimeStopped` once more.
pub run_in_order :
    (in_time : ℕ → Bool) (r : Runtime) (before failing : List (Service × RestartPolicy))
    → r.shut_down ≡ false
    → r.services ≡ before ++ failing
    → All Answers before
    → FailsFirst failing
    → let (answer, r', effects) = run in_time r in
      (answer ≡ first_error failing)
      × (effects
          ≡ runtime_starting
            ∷ (started before
                ++ (if is_ok (first_error failing)
                    then runtime_started ∷ waits_for_shutdown ∷ runtime_stopped ∷ []
                    else supervises start_service ∷ runtime_stopping ∷ runtime_stopped ∷ [])))
      × (r'.supervision.children ≡ [])
      × (shutdown_gracefully in_time r' ≡ (r', runtime_stopped ∷ []))
run_in_order in_time r before failing up split answers fails =
    let begun = start_in_order r before failing split answers fails in
    let is_up = is_ok (first_error failing) in
    let last = if is_up then runtime_started ∷ [] else supervises start_service ∷ [] in
    let begun_with = runtime_starting ∷ (started before ++ last) in
    let stopped = run-shut_down in_time r in
    (
      stopped.0 ∙ begun.0,
      run-effects in_time r
          ∙ ap (λ l. l ++ after (is_ok (start r).0) r.shut_down) begun.2
          ∙ ap (λ a. begun_with ++ after (is_ok a) r.shut_down) begun.0
          ∙ ap (λ x. begun_with ++ after is_up x) up
          ∙ ap (◌∷◌ runtime_starting) (
              append_assoc (started before) last (after is_up false)
              ∙ ap (◌++◌ (started before)) (after-branches is_up)),
      stopped.1,
      stopped.2,
    )
