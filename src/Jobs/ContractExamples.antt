-- ===== src/Jobs/ContractExamples.antt =====
-- A run of the in-memory store of crates/walastack-jobs/src/lib.rs under the contract.
use walastack_rs.Base.{
  ℕ, ◌≡◌, refl, false, [], ◌∷◌, arith, ◌==◌, nat_keys, string_keys, codes_keys, lookup, insert,
  adjust,
}
use walastack_rs.Jobs.Store.{
  JobRecord, JobStore, running, new_store, enqueue, push_back, is_eligible, is_waiting,
  find_eligible, remove_at, begin_attempt, pull_next, mark_completed,
}
use walastack_rs.Jobs.Store.Invariant.{Inv}
use walastack_rs.Jobs.Store.Operations.{enqueues, apply_all, apply_all-new_store-Inv}
use walastack_rs.Jobs.Contract.{then_completes, stays, pull_next_once}
use walastack_rs.Jobs.Store.Implements.{in_memory_store}
use walastack_rs.Jobs.Examples.{mail}

abbrev two_jobs : JobStore
two_jobs = apply_all (enqueues 10 mail ∷ enqueues 10 mail ∷ []) new_store

abbrev job_of : (id : ℕ) → JobRecord
job_of id = record {
  id = id;
  name = "mail";
  payload = "1";
  queue = "slow";
  attempt = 1;
  max_attempts = 3;
  status = running;
  enqueued_at = 10;
  scheduled_at = 50;
}

two_jobs-Inv : Inv two_jobs
two_jobs-Inv = apply_all-new_store-Inv (enqueues 10 mail ∷ enqueues 10 mail ∷ []) (omega arith)

pull_next_once_example : ((job_of 2).id == (job_of 1).id) ≡ false
unfolding new_store enqueue push_back pull_next find_eligible is_eligible is_waiting begin_attempt
    lookup insert adjust remove_at mark_completed
pull_next_once_example =
    pull_next_once in_memory_store 60 70 ("slow" ∷ []) ("slow" ∷ []) two_jobs
      (mark_completed 1 (pull_next 60 ("slow" ∷ []) two_jobs).1) (job_of 1) (job_of 2) two_jobs-Inv
      refl (then_completes 1 stays) refl
