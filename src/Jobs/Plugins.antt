-- ===== src/Jobs/Plugins.antt =====
-- crates/walastack-jobs/src/lib.rs: `JobsPlugin`, `InMemoryJobStorePlugin`, the start of a `Worker`, and
-- the public `enqueue`. The types that they register go by numbers, as do the `Arc`s.
use walastack_rs.Base.{
  ℕ, zero, suc, ◌+◌, String, ◌≢◌, Option, List, [], ◌∷◌, nat_keys, string_keys, unwrap_or, u32_max,
  Result, ok, err, ◌>>=◌, ok_or, map_err,
}
use walastack_rs.Scheduler.Backoff.{linear}
use walastack_rs.Supervision.Watcher.{on_failure}
use walastack_rs.Capabilities.Registry.{register_default}
use walastack_rs.Capabilities.View
use walastack_rs.Kernel.Resources
use walastack_rs.Kernel.Resources.{ResourceRegistry, insert_arc}
use walastack_rs.Kernel.Plugins.{ServicePlanner, add_supervised, any, Plugin}
use walastack_rs.Kernel.Runtime.{Runtime}
use walastack_rs.Jobs.Store.{NewJob, JobStore, enqueue}
use walastack_rs.Jobs.Dispatch.{JobMetadata, JobsConfig, JobEvent, job_enqueued}

pub data JobsError : Type 0 where
  serialization : String → JobsError
  store_error : String → JobsError
  other : String → JobsError

-- The types `JobsConfig`, `JobsDispatcher` and `dyn JobStore`, and the name of the last.
pub record JobTypes : Type 0 where
  pub config_type : ℕ
  pub dispatcher_type : ℕ
  pub store_type : ℕ
  pub store_type_name : String
  pub are_distinct : config_type ≢ dispatcher_type

abbrev pub store_missing : String
store_missing =
    "JobStore capability not registered; attach InMemoryJobStorePlugin or a persistent JobStore provider before JobsPlugin"

module _ (types : JobTypes) where
  -- The checks of `Worker::start`, at a runtime's registries; the view comes back with its rotation.
  unfoldable pub worker_start : Runtime → Result (Unit {0}) String
  worker_start r = ok_or (View.get types.store_type r.capabilities).0 store_missing >>= λ _.
      ok_or (Resources.get types.config_type r.resources) "JobsConfig resource missing" >>= λ _.
      ok_or (Resources.get types.dispatcher_type r.resources) "JobsDispatcher resource missing"
      >>= λ _. ok tt

  -- `for i in 0..self.config.worker_count`: `left` workers remain, the next is number `i`. A worker's
  -- name is formatted from its number, and its start is taken as `answer`.
  unfoldable pub plan_workers :
      (worker_name : ℕ → String) (answer : Result (Unit {0}) String)
      → (left i : ℕ) → ServicePlanner
      → ServicePlanner
  plan_workers worker_name answer zero i planner = planner
  plan_workers worker_name answer (suc left) i planner =
      plan_workers worker_name answer left (i + 1) (
        add_supervised (record { name = worker_name i; start = answer })
          (on_failure u32_max (linear 1000000000 0)) planner)

  unfoldable pub jobs_plugin :
      (worker_name : ℕ → String) (answer : Result (Unit {0}) String)
      → JobsConfig
      → (config_arc dispatcher_arc : ℕ) → Plugin
  unfolding plan_workers
  jobs_plugin worker_name answer config config_arc dispatcher_arc = record {
    name = "jobs";
    register_resources = λ r.
        (insert_arc types.dispatcher_type dispatcher_arc
          (insert_arc types.config_type config_arc r).1).1;
    register_capabilities = λ c. c;
    register_services = plan_workers worker_name answer config.worker_count 0;
    required_capabilities = any types.store_type types.store_type_name ∷ [];
  }

  unfoldable pub store_plugin : (store_arc : ℕ) → Plugin
  store_plugin store_arc = record {
    name = "in-memory-job-store";
    register_resources = λ r. r;
    register_capabilities = λ c. (register_default types.store_type store_arc c).1;
    register_services = λ p. p;
    required_capabilities = [];
  }

-- The record that the public `enqueue` stages: the job's metadata over the defaults.
unfoldable pub new_job : JobMetadata → JobsConfig → (name payload : String) → (now : ℕ) → NewJob
new_job metadata config name payload now = record {
  name = name;
  payload = payload;
  queue = unwrap_or metadata.queue config.default_queue;
  max_attempts = unwrap_or metadata.max_attempts config.default_max_attempts;
  scheduled_at = now;
}

-- The public `enqueue` over the in-memory store, for what the context holds, `name` and `metadata` of
-- the job's type, and what serde gives for its payload. `now` is read once for the record and once
-- more by the store.
unfoldable pub enqueue_job :
    Option JobStore
    → Option JobsConfig
    → (name : String) → JobMetadata
    → Result String String
    → (now stored_at : ℕ) → Result (ℕ × JobStore) JobsError × List JobEvent
unfolding new_job
enqueue_job store config name metadata payload now stored_at =
    let staged : Result (ℕ × JobStore × JobEvent) JobsError =
      ok_or store (other "JobStore capability missing") >>= λ s.
      ok_or config (other "JobsConfig resource missing") >>= λ c.
      map_err serialization payload >>= λ text.
      let job = new_job metadata c name text now in
      let (id, s') = enqueue stored_at job s in ok (id, s', job_enqueued id name job.queue now) in
    elim staged [ err e ↦ (err e, []) | ok (id, s', event) ↦ (ok (id, s'), event ∷ []) ]
