-- ===== src/Jobs/Examples.antt =====
-- Runs of the model of crates/walastack-jobs/src/lib.rs on small inputs.
use walastack_rs.Base.{
  ◌+◌, ◌*◌, ◌<◌, min, max, ◌≡◌, refl, ◌≢◌, ◌⊎◌, true, false, none, some, List, [], ◌∷◌, arith, ltb,
  nat_eq, if◌then◌else◌, nat_keys, string_keys, lookup, insert, err, map_or, has, ◌&&◌,
}
use walastack_rs.Scheduler.Backoff.{Floats, linear}
use walastack_rs.Jobs.Store.{
  NewJob, JobRecord, JobStore, pending, running, new_store, enqueue, push_back, is_eligible,
  is_waiting, find_eligible, begin_attempt, pull_next,
}
use walastack_rs.Jobs.Store.Invariant
use walastack_rs.Jobs.Store.Operations.{
  Operation, enqueues, pulls, fails, apply_all, apply_all-new_store-Inv,
}
use walastack_rs.Jobs.Store.Claims.{pull_next_nothing}
use walastack_rs.Jobs.Dispatch.{
  JobsConfig, HandlerEntry, JobsDispatcher, job_error, Reading, Chrono, dispatch_one, perform,
}
use walastack_rs.Jobs.Dispatch.Settling.{settled, dispatch_one-settles}
use walastack_rs.Jobs.Dispatch.Attempts
use walastack_rs.Jobs.Dispatch.Steps
use walastack_rs.Jobs.Dispatch.Steps.{World, new_world, Reach}
use walastack_rs.Jobs.Dispatch.Attempts.{Reach-Inv}

abbrev pub mail : NewJob
mail = record { name = "mail"; payload = "1"; queue = "slow"; max_attempts = 3; scheduled_at = 50 }

abbrev operations : List Operation
operations = enqueues 10 mail ∷ pulls 60 ("fast" ∷ "slow" ∷ []) ∷ fails 1 (some 70) ∷ []

abbrev one_job : JobStore
one_job = apply_all (enqueues 10 mail ∷ []) new_store

apply_all-new_store-Inv_example : Invariant.Inv (apply_all operations new_store)
apply_all-new_store-Inv_example = apply_all-new_store-Inv operations (omega arith)

one_job-Inv : Invariant.Inv one_job
one_job-Inv = apply_all-new_store-Inv (enqueues 10 mail ∷ []) (omega arith)

abbrev queued_mail : JobRecord
queued_mail = record {
  id = 1;
  name = "mail";
  payload = "1";
  queue = "slow";
  attempt = 0;
  max_attempts = 3;
  status = pending;
  enqueued_at = 10;
  scheduled_at = 50;
}

pull_next_nothing_example :
    ((pull_next 40 ("slow" ∷ []) one_job).1 ≡ one_job)
    × (map_or false (λ r. has r.queue ("slow" ∷ []) && is_eligible 40 r) (lookup 1 one_job.records)
        ≡ false)
unfolding new_store enqueue push_back pull_next find_eligible is_eligible is_waiting lookup insert
pull_next_nothing_example = pull_next_nothing 40 ("slow" ∷ []) one_job 1 one_job-Inv refl

-- A linear backoff uses none of these.
abbrev no_floats : Floats
no_floats = record {
  of_int = λ n. n;
  float_zero = 0;
  float_one = 0;
  float_max = max;
  float_min = min;
  clamp = λ x lo hi. x;
  add = ◌+◌;
  mul = ◌*◌;
  div = λ a b. 0;
  powi = λ x n. x;
  is_finite = λ x. true;
  float_lt = ltb;
  float_eq = nat_eq;
  to_u64 = λ x. x;
}

abbrev chrono : Chrono
chrono = record {
  from_std = λ d. if ltb d 9223372036854775807 then some d else none;
  one_second = 1000000000;
}

abbrev config : JobsConfig
config = record {
  worker_count = 4;
  queues = "fast" ∷ "slow" ∷ [];
  default_queue = "fast";
  default_max_attempts = 3;
  default_backoff = linear 1000 0;
  poll_interval = 100;
}

-- A handler that fails every time.
abbrev refusing : HandlerEntry
refusing = record {
  run = λ payload attempt. err (job_error "refused");
  metadata = record {
    queue = none;
    max_attempts = some 3;
    timeout = none;
    backoff = some (linear 10 5);
  };
}

abbrev dispatcher : JobsDispatcher
dispatcher = ("mail", refusing) ∷ []

abbrev reading : Reading
reading = record { late = false; elapsed = 7; now = 200; subsec = 0 }

abbrev tried_mail : JobRecord
tried_mail = record queued_mail { attempt = 1; status = running }

abbrev tried_store : JobStore
tried_store = record { next_id = 1; queues = []; records = (1, tried_mail) ∷ [] }

dispatch_one-settles_example :
    (lookup 1
        (perform
          (dispatch_one no_floats chrono config dispatcher reading tried_mail)
          tried_store).records
      ≡ some (settled no_floats chrono config dispatcher reading tried_mail))
    × ((settled no_floats chrono config dispatcher reading tried_mail).id ≡ 1)
    × ((settled no_floats chrono config dispatcher reading tried_mail).attempt ≡ 1)
    × ((settled no_floats chrono config dispatcher reading tried_mail).max_attempts ≡ 3)
    × ((settled no_floats chrono config dispatcher reading tried_mail).status ≢ running)
    × ((is_waiting (settled no_floats chrono config dispatcher reading tried_mail).status ≡ false)
        ⊎ (1 < 3))
unfolding lookup
dispatch_one-settles_example =
    dispatch_one-settles no_floats chrono config dispatcher reading tried_mail tried_store 1 refl

abbrev mail_world : World
mail_world = record new_world { store = (enqueue 10 mail new_store).1 }

abbrev pulled_world : World
pulled_world = record {
  store = (pull_next 60 ("slow" ∷ []) mail_world.store).1;
  in_flight = begin_attempt queued_mail ∷ [];
}

abbrev settled_world : World
settled_world = record {
  store =
      perform (dispatch_one no_floats chrono config dispatcher reading (begin_attempt queued_mail))
        pulled_world.store;
  in_flight = [];
}

mail-Reach : Reach no_floats chrono config dispatcher settled_world
unfolding new_store enqueue push_back pull_next find_eligible is_eligible is_waiting begin_attempt
    lookup insert
mail-Reach =
    Steps.next
      (Steps.next (Steps.next Steps.start (Steps.enqueues 10 mail (omega arith)))
        (Steps.pulls 60 ("slow" ∷ []) (begin_attempt queued_mail) refl))
      (Steps.settles reading [] [] (begin_attempt queued_mail) refl)

Reach-Inv_example : Attempts.Inv settled_world
Reach-Inv_example = Reach-Inv no_floats chrono config dispatcher mail-Reach
