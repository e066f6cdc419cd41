-- ===== src/Jobs/StartupExamples.antt =====
-- Runs of the plugins and the public `enqueue` of crates/walastack-jobs/src/lib.rs on small inputs.
use walastack_rs.Base.{
  ℕ, String, ◌≡◌, refl, none, [], ◌∷◌, arith, nat_eq, if◌then◌else◌, nat_keys, string_keys, lookup,
  Result, ok, err,
}
use walastack_rs.Capabilities.Registry.{default_name}
use walastack_rs.Scheduler.Backoff.{linear}
use walastack_rs.Kernel.Runtime.{RuntimeBuilder, new_builder, with_capability, build, Runtime}
use walastack_rs.Jobs.Store.{NewJob, JobStore, new_store, enqueue}
use walastack_rs.Jobs.Store.Invariant
use walastack_rs.Jobs.Store.Operations.{enqueues, apply_all, apply_all-new_store-Inv}
use walastack_rs.Jobs.Store.Arrivals.{ServesInOrder, enqueue-pull_next}
use walastack_rs.Jobs.Dispatch.{JobsConfig}
use walastack_rs.Jobs.Plugins.{JobTypes, store_missing, worker_start}
use walastack_rs.Jobs.Startup.{with_jobs, named_store_fails}

abbrev mail : NewJob
mail = record { name = "mail"; payload = "1"; queue = "slow"; max_attempts = 3; scheduled_at = 50 }

new_store-Inv : Invariant.Inv new_store
new_store-Inv = apply_all-new_store-Inv [] (omega arith)

-- A store in which a job waits, and then another one of the same queue comes.
abbrev one_job : JobStore
one_job = apply_all (enqueues 10 mail ∷ []) new_store

one_job-Inv : Invariant.Inv one_job
one_job-Inv = apply_all-new_store-Inv (enqueues 10 mail ∷ []) (omega arith)

enqueue-pull_next_example :
    (lookup (enqueue 20 mail one_job).0 one_job.records ≡ none)
    × ServesInOrder 20 60 mail [] one_job
enqueue-pull_next_example =
    enqueue-pull_next 20 60 mail [] one_job one_job-Inv (unfold new_store enqueue in omega arith)
      (omega arith)

abbrev config : JobsConfig
config = record {
  worker_count = 2;
  queues = "fast" ∷ "slow" ∷ [];
  default_queue = "fast";
  default_max_attempts = 3;
  default_backoff = linear 1000 0;
  poll_interval = 100;
}

abbrev types : JobTypes
types = record {
  config_type = 1;
  dispatcher_type = 2;
  store_type = 3;
  store_type_name = "dyn JobStore";
  are_distinct = λ e. omega arith;
}

abbrev payload : Result String String
payload = ok "1"

abbrev worker_name : ℕ → String
worker_name i = if nat_eq i 0 then "jobs-worker-0" else "jobs-worker-1"

abbrev with_named_store : RuntimeBuilder
with_named_store =
    with_jobs types worker_name (ok tt) config 10 20
      (with_capability 3 "sqlite" 30 (record new_builder { plugins = [] }))

named_store_fails_example :
    (r : Runtime) × (build with_named_store ≡ ok r) × (worker_start types r ≡ err store_missing)
unfolding new_builder lookup walastack_rs.Capabilities.Registry.new_registry
named_store_fails_example =
    named_store_fails types worker_name (ok tt) config 10 20 new_builder "sqlite" 30 refl refl refl
