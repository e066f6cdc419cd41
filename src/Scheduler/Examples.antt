-- ===== src/Scheduler/Examples.antt =====
-- Runs of the model of crates/walastack-runtime/src/scheduler.rs on small inputs.
use walastack_rs.Base.{
  ℕ, ◌+◌, ◌*◌, ◌≤◌, ◌<◌, min, max, ◌≡◌, refl, ◌≢◌, inl, inr, true, false, some, [], ◌∷◌, arith, ltb,
  nat_eq, if◌then◌else◌, Bool-cases, nat_keys, string_keys, lookup, insert, ok, err,
}
use walastack_rs.Scheduler.Backoff.{Floats, linear, delay_for}
use walastack_rs.Scheduler.Attempts.{
  Policies, message, timed_out_after, task_failed, task_retrying, call, publish, sleep, Reading,
  attempts_allowed, attempt_result, retry_delay, run_attempts,
}
use walastack_rs.Scheduler.Outcomes.{FailsAt, run_attempts_exhausted}
use walastack_rs.Scheduler.Loop.{fixed_rate, Round, run_schedule}
use walastack_rs.Scheduler.Fires.{Numbered, run_schedule-Numbered}
use walastack_rs.Scheduler.Registry.{
  Registry, new_scheduler, spawn_task, list_task, shutdown, pending_count, spawns, lists, Works,
  here, Reach, start, work,
}
use walastack_rs.Scheduler.Registry.Laws.{Inv, new-Reach-Inv, shutdown_stops}
use walastack_rs.Scheduler.Registry.Leaks.{Leaked, raced, schedule_leaks}

-- Integers in the place of `f64`, with the fraction of the jitter left out.
abbrev whole_floats : Floats
whole_floats = record {
  of_int = λ n. n;
  float_zero = 0;
  float_one = 1;
  float_max = max;
  float_min = min;
  clamp = λ x lo hi. min (max x lo) hi;
  add = ◌+◌;
  mul = ◌*◌;
  div = λ a b. 0;
  powi = λ x n. x;
  is_finite = λ x. ltb x 1000;
  float_lt = ltb;
  float_eq = nat_eq;
  to_u64 = λ x. x;
}

abbrev three_attempts : Policies
three_attempts = record {
  timeout = some 5000000;
  retry = some (record { max_attempts = 3; backoff = linear 10 5 });
}

-- The first two attempts fail, the second by its timeout.
abbrev two_failures : ℕ → Reading
two_failures i = record {
  cancelled = false;
  result = if ltb i 3 then err (message "refused") else ok tt;
  late = nat_eq i 2;
  elapsed = 100 * i;
  subsec = 0;
  interrupted = false;
}

abbrev all_failures : ℕ → Reading
all_failures i = record {
  cancelled = false;
  result = err (message "refused");
  late = nat_eq i 2;
  elapsed = 100 * i;
  subsec = 0;
  interrupted = false;
}

every_failure : (i : ℕ) → 1 ≤ i → i < 3 → FailsAt whole_floats 9 three_attempts true all_failures i
unfolding attempt_result
every_failure i a b = elim (Bool-cases (nat_eq i 2)) [
  | inl late ↦ (refl, (timed_out_after 5, rw late refl), refl)
  | inr early ↦ (refl, (message "refused", rw early refl), refl)
]

run_attempts_exhausted_example :
    run_attempts whole_floats 9 three_attempts true all_failures
    ≡ call
      ∷ publish (task_retrying 9 2 10)
      ∷ sleep 10
      ∷ call
      ∷ publish (task_retrying 9 3 15)
      ∷ sleep 15
      ∷ call
      ∷ publish (task_failed 9 (message "refused") 3)
      ∷ []
unfolding attempts_allowed attempt_result retry_delay delay_for
run_attempts_exhausted_example =
    run_attempts_exhausted whole_floats 9 three_attempts true all_failures 2 (message "refused")
      refl every_failure refl refl

abbrev quiet_round : ℕ → Round
quiet_round i = record {
  now = 50 * i;
  instant = 50 * i;
  woken = false;
  cancelled = false;
  fired_at = 50 * i;
  readings = two_failures;
}

abbrev woken_round : Round
woken_round = record (quiet_round 3) { woken = true }

run_schedule-Numbered_example :
    Numbered (fixed_rate 60) (quiet_round 1 ∷ quiet_round 2 ∷ woken_round ∷ []) 0 (
      run_schedule whole_floats 9
        (fixed_rate 60)
        three_attempts
        true
        (quiet_round 1 ∷ quiet_round 2 ∷ woken_round ∷ []))
run_schedule-Numbered_example =
    run_schedule-Numbered whole_floats 9 (fixed_rate 60) three_attempts
      (quiet_round 1 ∷ quiet_round 2 ∷ woken_round ∷ []) (omega arith)

-- A schedule that is listed.
abbrev one_listed : Registry
one_listed = list_task 1 (spawn_task new_scheduler)

one_listed-Reach : Reach new_scheduler one_listed
unfolding new_scheduler spawn_task list_task lookup insert
one_listed-Reach = work (work start (spawns (omega arith))) (lists 1 refl)

new-Reach-Inv_example : Inv one_listed
new-Reach-Inv_example = new-Reach-Inv one_listed one_listed-Reach

shutdown_stops_example :
    (pending_count (shutdown one_listed) ≡ 0) × (lookup 1 (shutdown one_listed).running ≢ some true)
unfolding new_scheduler spawn_task list_task lookup insert
shutdown_stops_example = shutdown_stops one_listed 1 one_listed-Reach refl

schedule_leaks_example : Works one_listed (raced one_listed) × Leaked 2 (raced one_listed)
unfolding new_scheduler spawn_task list_task
schedule_leaks_example = schedule_leaks one_listed (raced one_listed) (omega arith) here
