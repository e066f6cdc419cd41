-- ===== src/Jobs/Dispatch/Steps.antt =====
-- Workers over one in-memory store of crates/walastack-jobs/src/lib.rs: the steps that the store's lock
-- keeps apart, in any order.
-- enqueued, pulled, and settled by `dispatch_one`, in any order.
use walastack_rs.Base.{
  ℕ, ◌<◌, String, ◌≡◌, some, List, [], ◌∷◌, ◌++◌, nat_keys, string_keys, u64_max,
}
use walastack_rs.Scheduler.Backoff.{Floats}
use walastack_rs.Jobs.Store.{NewJob, JobRecord, JobStore, new_store, enqueue, pull_next}
use walastack_rs.Jobs.Dispatch.{JobsConfig, JobsDispatcher, Reading, Chrono, dispatch_one, perform}

-- The store, and the jobs that workers have pulled and not yet settled.
pub record World : Type 0 where
  pub store : JobStore
  pub in_flight : List JobRecord

abbrev pub new_world : World
new_world = record { store = new_store; in_flight = [] }

module _ (fl : Floats) (chrono : Chrono) (config : JobsConfig) (dispatcher : JobsDispatcher) where
  pub data Step (w : World) : World → Type 0 where
    enqueues :
        (now : ℕ) (job : NewJob)
        → w.store.next_id < u64_max
        → Step w (record w { store = (enqueue now job w.store).1 })
    pulls :
        (now : ℕ) (names : List String) (r : JobRecord)
        → (pull_next now names w.store).0 ≡ some r
        → Step w (record { store = (pull_next now names w.store).1; in_flight = r ∷ w.in_flight })
    settles :
        (t : Reading) (before after : List JobRecord) (r : JobRecord)
        → w.in_flight ≡ before ++ r ∷ after
        → Step w (record {
          store = perform (dispatch_one fl chrono config dispatcher t r) w.store;
          in_flight = before ++ after;
        })

  pub data Reach : World → Type 0 where
    start : Reach new_world
    next : {w u : World} → Reach w → Step w u → Reach u
