-- ===== src/Scheduler/Attempts.antt =====
-- crates/walastack-runtime/src/scheduler.rs: the policies, the lifecycle events and `run_attempts`,
-- the attempts of one fire. What the task, the clock, the timer and the cancel flag do is a
-- reading of each attempt; the result is the sequence of effects.
use walastack_rs.Base.{
  ℕ, zero, suc, ◌+◌, ◌-◌, ◌/◌, max, String, Bool, true, false, Option, none, some, List, [], ◌∷◌,
  ltb, if◌then◌else◌, nat_keys, string_keys, map_or, unwrap_or, Result, ok, err,
}
use walastack_rs.Scheduler.Backoff.{Floats, Backoff, delay_for}

pub record RetryPolicy : Type 0 where
  pub max_attempts : ℕ  -- u32
  pub backoff : Backoff

pub record Policies : Type 0 where
  pub timeout : Option ℕ
  pub retry : Option RetryPolicy

unfoldable pub with_timeout : Policies → ℕ → Policies
with_timeout p timeout = record p { timeout = some timeout }

unfoldable pub with_retry : Policies → RetryPolicy → Policies
with_retry p retry = record p { retry = some retry }

-- The message of a `TaskError`; a formatted one keeps the number that it shows.
pub data TaskError : Type 0 where
  message : String → TaskError
  timed_out_after : ℕ → TaskError

pub data TaskEvent : Type 0 where
  task_fired : (schedule_id trigger_count : ℕ) → TaskEvent
  task_completed : (schedule_id duration : ℕ) → TaskEvent
  task_failed : (schedule_id : ℕ) (error : TaskError) (total_attempts : ℕ) → TaskEvent
  task_retrying : (schedule_id next_attempt delay : ℕ) → TaskEvent

-- What the loop does, in order: it calls the task, publishes, or sleeps.
pub data Effect : Type 0 where
  call : Effect
  publish : TaskEvent → Effect
  sleep : ℕ → Effect

-- What one attempt meets.
pub record Reading : Type 0 where
  pub cancelled : Bool  -- `*cancel.borrow()` before the attempt
  pub result : Result (Unit {0}) TaskError  -- what the task returns
  pub late : Bool  -- the task outlasts the timeout, where there is one
  pub elapsed : ℕ  -- `fired_at.elapsed()` after the attempt
  pub subsec : ℕ  -- the clock's nanoseconds when the delay is computed
  pub interrupted : Bool  -- `cancel.changed()` comes before the end of the delay

-- `if let Some(bus) = events { bus.publish(e) }`.
abbrev pub emit : Bool → TaskEvent → List Effect → List Effect
emit wired e rest = if wired then publish e ∷ rest else rest

unfoldable pub attempts_allowed : Policies → ℕ
attempts_allowed p = map_or 1 (λ r. max r.max_attempts 1) p.retry

-- The result of an attempt under the timeout.
unfoldable pub attempt_result : Policies → Reading → Result (Unit {0}) TaskError
attempt_result p r = elim p.timeout [
  | none ↦ r.result
  | some d ↦ if r.late then err (timed_out_after (d / 1000000)) else r.result
]

module _ (fl : Floats) (id : ℕ) (policies : Policies) (wired : Bool) (readings : ℕ → Reading) where
  unfoldable pub retry_delay : ℕ → ℕ
  retry_delay attempt =
      map_or 0 (λ r. delay_for fl (readings attempt).subsec r.backoff (attempt - 1)) policies.retry

  -- `for attempt in 1..=max_attempts`: `left` attempts remain, the next is `attempt`.
  unfoldable pub attempts_from : (left attempt : ℕ) → Option TaskError → List Effect
  attempts_from zero attempt last_error =
      emit wired
        (task_failed id (unwrap_or last_error (message "scheduled task failed"))
          (attempts_allowed policies))
        []
  attempts_from (suc left) attempt last_error = elim (readings attempt).cancelled [
    | true ↦ []
    | false ↦ call ∷ (elim (attempt_result policies (readings attempt)) [
      | ok _ ↦ emit wired (task_completed id (readings attempt).elapsed) []
      | err e ↦
          let rest = attempts_from left (attempt + 1) (some e) in
          if ltb attempt (attempts_allowed policies)
          then emit wired (task_retrying id (attempt + 1) (retry_delay attempt))
              (sleep (retry_delay attempt) ∷ (if (readings attempt).interrupted then [] else rest))
          else rest
    ])
  ]

  unfoldable pub run_attempts : List Effect
  unfolding attempts_from
  run_attempts = attempts_from (attempts_allowed policies) 1 none
