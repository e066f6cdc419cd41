-- ===== src/Jobs/Startup.antt =====
-- What the plugins of crates/walastack-jobs/src/lib.rs come to in a runtime, and what the public
-- `enqueue` does on every branch.
use walastack_rs.Base.{
  ℕ, zero, suc, ◌+◌, String, ◌≡◌, refl, sym, ap, ◌∙◌, ◌⊎◌, inl, inr, false, Option, none, some, [],
  ◌∷◌, ◌++◌, arith, nat_eq_iff, ◌==◌, ==_refl, nat_keys, string_keys, unwrap_or, lookup, insert,
  lookup-insert, lookup-insert_self, u32_max, Result, ok, err,
}
use mathlib.Core.List.{append_assoc, append-nil}
use walastack_rs.Scheduler.Backoff.{linear}
use walastack_rs.Supervision.Watcher.{on_failure}
use walastack_rs.Capabilities.Registry.{default_name}
use walastack_rs.Capabilities.View
use walastack_rs.Capabilities.Defaults.{register_default-resolves, register-unresolved}
use walastack_rs.Kernel.Resources
use walastack_rs.Kernel.Resources.{ErasedResource, ResourceRegistry, insert_arc}
use walastack_rs.Kernel.Plugins.{
  ServicePlanner, add_supervised, is_satisfied_by, any, validate_requirements, apply_all,
}
use walastack_rs.Kernel.Runtime.{
  RuntimeBuilder, with_capability, with_plugin, configure, build, Runtime,
}
use walastack_rs.Kernel.Phases.{built}
use walastack_rs.Jobs.Store.{JobStore, fetch}
use walastack_rs.Jobs.Store.Arrivals.{new_record, fetch-enqueue}
use walastack_rs.Jobs.Dispatch.{JobMetadata, JobsConfig, job_enqueued}
use walastack_rs.Jobs.Plugins.{
  JobsError, JobTypes, store_missing, worker_start, plan_workers, jobs_plugin, store_plugin,
  new_job, enqueue_job,
}

-- The outcome of `enqueue_job` that stages nothing: something is missing, or serde refuses.
abbrev Refused : Option JobStore → Option JobsConfig → Result String String → Type 0
Refused store config payload =
    (store ≡ none) ⊎ ((config ≡ none) ⊎ ((e : String) × (payload ≡ err e)))

-- `enqueue` either gives an error and publishes nothing, and then the store or the configuration is
-- missing or the payload is refused; or it publishes one `JobEnqueued`, and the store then holds the
-- job under the number it gives: not tried yet, due from the time of the call, in the queue of the
-- job's metadata or else the default one, and with the attempts of the metadata or else the default.
pub enqueue_job-cases :
    (store : Option JobStore) (config : Option JobsConfig) (name : String) (metadata : JobMetadata)
    (payload : Result String String) (now stored_at : ℕ)
    → let (answer, events) = enqueue_job store config name metadata payload now stored_at in
      ((e : JobsError) × (answer ≡ err e) × (events ≡ []) × Refused store config payload)
      ⊎ ((s : JobStore) × (c : JobsConfig) × (text : String) × (id : ℕ) × (s' : JobStore) × (store
            ≡ some s)
          × (config ≡ some c)
          × (payload ≡ ok text)
          × (answer ≡ ok (id, s'))
          × (fetch id s' ≡ some (new_record id stored_at (new_job metadata c name text now)))
          × (events ≡ job_enqueued id name (unwrap_or metadata.queue c.default_queue) now ∷ []))
unfolding enqueue_job
enqueue_job-cases none config name metadata payload now stored_at = inl (_, refl, refl, inl refl)
enqueue_job-cases (some s) none name metadata payload now stored_at =
    inl (_, refl, refl, inr (inl refl))
enqueue_job-cases (some s) (some c) name metadata (err e) now stored_at =
    inl (_, refl, refl, inr (inr (e, refl)))
enqueue_job-cases (some s) (some c) name metadata (ok text) now stored_at =
    inr (s, c, text, _, _, refl, refl, refl, refl, fetch-enqueue stored_at _ s, refl)

module _ (types : JobTypes) (worker_name : ℕ → String) (answer : Result (Unit {0}) String)
    (config : JobsConfig) (config_arc dispatcher_arc : ℕ) where
  -- The workers from number `i` on, each restarted after every failure, one second later.
  abbrev pub workers : (left i : ℕ) → ServicePlanner
  workers zero i = []
  workers (suc left) i =
      (record { name = worker_name i; start = answer }, on_failure u32_max (linear 1000000000 0))
      ∷ workers left (i + 1)

  plan_workers-append :
      (left i : ℕ) (planner : ServicePlanner)
      → plan_workers types worker_name answer left i planner ≡ planner ++ workers left i
  unfolding plan_workers
  plan_workers-append zero i planner = sym (append-nil planner)
  plan_workers-append (suc left) i planner =
      plan_workers-append left (i + 1) _ ∙ (unfold add_supervised in append_assoc planner _ _)

  abbrev pub with_jobs : RuntimeBuilder → RuntimeBuilder
  with_jobs b =
      with_plugin (jobs_plugin types worker_name answer config config_arc dispatcher_arc) b

  config_resolves :
      (r : ResourceRegistry)
      → let registered =
          insert_arc types.dispatcher_type dispatcher_arc
            (insert_arc types.config_type config_arc r).1 in
        (Resources.get types.config_type (Resources.build registered.1) ≡ some config_arc)
        × (Resources.get types.dispatcher_type (Resources.build registered.1) ≡ some dispatcher_arc)
  unfolding Resources.get Resources.build insert_arc
  config_resolves r =
      let config_entry : ErasedResource = record {
        type_id = types.config_type;
        value = config_arc;
      } in
      let dispatcher_entry : ErasedResource = record {
        type_id = types.dispatcher_type;
        value = dispatcher_arc;
      } in
      let after_config = insert types.config_type config_entry r.entries in
      ground (
        arith,
        lookup-insert types.dispatcher_type types.config_type dispatcher_entry after_config,
        lookup-insert_self types.config_type config_entry r.entries,
        lookup-insert_self types.dispatcher_type dispatcher_entry after_config,
        nat_eq_iff types.dispatcher_type types.config_type,
        ==_refl types.config_type,
        ==_refl types.dispatcher_type,
        types.are_distinct,
      )

  -- The two plugins of the crate on a builder with no other plugin and no strategy for the stores: the
  -- build succeeds, and the runtime has the services of the builder and then as many workers as the
  -- configuration says, numbered from zero; a worker finds all that its start asks for.
  pub build-with_jobs :
      (b : RuntimeBuilder) (store_arc : ℕ)
      → lookup types.store_type b.capabilities.strategies ≡ none
      → let b' =
          with_jobs (with_plugin (store_plugin types store_arc) (record b { plugins = [] })) in
        (r : Runtime) × (build b' ≡ ok r)
        × (r.services ≡ b.services ++ workers config.worker_count 0)
        × (worker_start types r ≡ ok tt)
  unfolding build jobs_plugin store_plugin with_plugin is_satisfied_by any worker_start
      validate_requirements Resources.build View.build walastack_rs.Supervision.Tree.new_tree
      configure View.contains_type apply_all
  build-with_jobs b store_arc single_store =
      let store =
        register_default-resolves types.store_type store_arc b.capabilities single_store in
      let resources = config_resolves b.resources in
      (
        built (with_jobs (with_plugin (store_plugin types store_arc) (record b { plugins = [] }))),
        rw store.0 refl,
        ap (◌++◌ b.services) (plan_workers-append config.worker_count 0 []),
        rw (store.1, resources.0, resources.1) refl,
      )

  -- The requirement that the plugin states is weaker than what its workers ask for: with one store,
  -- registered under another name than `default` and with no strategy, the build succeeds, but the
  -- start of every worker fails.
  pub named_store_fails :
      (b : RuntimeBuilder) (name : String) (store_arc : ℕ)
      → lookup types.store_type b.capabilities.providers ≡ none
      → lookup types.store_type b.capabilities.strategies ≡ none
      → (name == default_name) ≡ false
      → let b' =
          with_jobs (with_capability types.store_type name store_arc (record b { plugins = [] })) in
        (r : Runtime) × (build b' ≡ ok r) × (worker_start types r ≡ err store_missing)
  unfolding build jobs_plugin with_capability with_plugin is_satisfied_by any worker_start
      validate_requirements Resources.build View.build walastack_rs.Supervision.Tree.new_tree
      configure View.contains_type apply_all
  named_store_fails b name store_arc no_store no_strategy named =
      let store =
        register-unresolved types.store_type store_arc name b.capabilities no_store no_strategy
          named in
      (
        built (
            with_jobs
              (with_capability types.store_type name store_arc (record b { plugins = [] }))),
        rw store.0 refl,
        rw store.1 refl,
      )
