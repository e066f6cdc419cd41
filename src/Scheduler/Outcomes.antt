-- ===== src/Scheduler/Outcomes.antt =====
-- What `run_attempts` of crates/walastack-runtime/src/scheduler.rs does over all readings.
use walastack_rs.Base.{
  ℕ, zero, suc, ◌+◌, ◌-◌, ◌≤◌, ◌<◌, ◌≡◌, ap, ◌∙◌, inl, inr, Bool, true, false, Option, none, some,
  List, [], ◌∷◌, arith, nat_keys, string_keys, count, ok, err, Result-cases,
}
use walastack_rs.Scheduler.Backoff.{Floats}
use walastack_rs.Scheduler.Attempts.{
  Policies, TaskError, task_completed, task_failed, task_retrying, Effect, call, publish, sleep,
  Reading, emit, attempts_allowed, attempt_result, retry_delay, attempts_from, run_attempts,
}

abbrev pub is_call : Effect → Bool
is_call call = true
is_call _ = false

abbrev pub is_outcome : Effect → Bool
is_outcome (publish (task_completed _ _)) = true
is_outcome (publish (task_failed _ _ _)) = true
is_outcome _ = false

abbrev pub is_retry : Effect → Bool
is_retry (publish (task_retrying _ _ _)) = true
is_retry _ = false

module _ (fl : Floats) (id : ℕ) (policies : Policies) (wired : Bool) (readings : ℕ → Reading) where
  abbrev loop : ℕ → ℕ → Option TaskError → List Effect
  loop = attempts_from fl id policies wired readings

  -- The attempt failed, was not cancelled before it, and its backoff was not interrupted.
  abbrev pub FailsAt : ℕ → Type 0
  FailsAt i =
      ((readings i).cancelled ≡ false)
      × ((e : TaskError) × (attempt_result policies (readings i) ≡ err e))
      × ((readings i).interrupted ≡ false)

  abbrev pub SucceedsAt : ℕ → Type 0
  SucceedsAt i = ((readings i).cancelled ≡ false) × (attempt_result policies (readings i) ≡ ok tt)

  -- The effects of `n` failed attempts from the `i`-th on, each followed by its backoff.
  abbrev pub retries : (n i : ℕ) → List Effect → List Effect
  retries zero i rest = rest
  retries (suc n) i rest =
      call
      ∷ emit wired (task_retrying id (i + 1) (retry_delay fl id policies wired readings i))
          (sleep (retry_delay fl id policies wired readings i) ∷ retries n (i + 1) rest)

  calls-le : (left attempt : ℕ) (e : Option TaskError) → count is_call (loop left attempt e) ≤ left
  unfolding attempts_from
  calls-le zero attempt e = ground arith
  calls-le (suc left) attempt e = elim (Result-cases (attempt_result policies (readings attempt))) [
    | inl (_, good) ↦ ground arith
    | inr (x, bad) ↦ ground (arith, calls-le left (attempt + 1) (some x))
  ]

  outcomes-le :
      (left attempt : ℕ) (e : Option TaskError) → count is_outcome (loop left attempt e) ≤ 1
  unfolding attempts_from
  outcomes-le zero attempt e = ground arith
  outcomes-le (suc left) attempt e =
      elim (Result-cases (attempt_result policies (readings attempt))) [
        | inl (_, good) ↦ ground arith
        | inr (x, bad) ↦ ground (arith, outcomes-le left (attempt + 1) (some x))
      ]

  -- A retry is announced before each call but the first.
  retries-calls :
      (left attempt : ℕ) (e : Option TaskError)
      → count is_retry (loop left attempt e) ≤ count is_call (loop left attempt e)
  unfolding attempts_from
  retries-calls zero attempt e = ground arith
  retries-calls (suc left) attempt e =
      elim (Result-cases (attempt_result policies (readings attempt))) [
        | inl (_, good) ↦ ground arith
        | inr (x, bad) ↦ ground (arith, retries-calls left (attempt + 1) (some x))
      ]

  failed_attempt :
      (left attempt : ℕ) (e : Option TaskError) (x : TaskError)
      → (readings attempt).cancelled ≡ false
      → attempt_result policies (readings attempt) ≡ err x
      → (readings attempt).interrupted ≡ false
      → attempt < attempts_allowed policies
      → loop (suc left) attempt e ≡ retries 1 attempt (loop left (attempt + 1) (some x))
  unfolding attempts_from
  failed_attempt left attempt e x c b i h = ground arith

  retries-then :
      (n left attempt : ℕ) (e : Option TaskError)
      → attempt + n ≤ attempts_allowed policies
      → ((i : ℕ) → attempt ≤ i → i < attempt + n → FailsAt i)
      → (e' : Option TaskError) × (loop (n + left) attempt e
          ≡ retries n attempt (loop left (attempt + n) e'))
  retries-then zero left attempt e h fails =
      let p : zero + left ≡ left = omega arith in
      let q : attempt + zero ≡ attempt = omega arith in (e, rw (p, q))
  retries-then (suc n) left attempt e h fails =
      let f = fails attempt (omega arith) (omega arith) in
      let rec =
        retries-then n left (attempt + 1) (some f.1.0) (omega arith)
          (λ i lo hi. fails i (omega arith) (omega arith)) in
      let p : suc n + left ≡ suc (n + left) = omega arith in
      let q : attempt + suc n ≡ attempt + 1 + n = omega arith in
      (
        rec.0,
        rw (p, q)
            (failed_attempt (n + left) attempt e f.1.0 f.0 f.1.1 f.2 (omega arith)
              ∙ ap (retries 1 attempt) rec.1),
      )

  abbrev run : List Effect
  run = run_attempts fl id policies wired readings

  -- The task is called at most as often as the policy allows, and no more than one outcome is
  -- published, whatever the task, the clock and the cancel flag do.
  pub run_attempts_bounds :
      (count is_call run ≤ attempts_allowed policies) × (count is_outcome run ≤ 1)
  unfolding run_attempts
  run_attempts_bounds = (calls-le _ 1 none, outcomes-le _ 1 none)

  -- If the attempts before the `(n + 1)`-th fail with no cancellation and that one succeeds, the
  -- fire is exactly `n` retries, one more call and `TaskCompleted`, for every `n` below the
  -- attempts allowed.
  pub run_attempts_success :
      (n : ℕ)
      → n < attempts_allowed policies
      → ((i : ℕ) → 1 ≤ i → i < 1 + n → FailsAt i)
      → SucceedsAt (1 + n)
      → run ≡ retries n 1 (call ∷ emit wired (task_completed id (readings (1 + n)).elapsed) [])
  unfolding run_attempts attempts_from
  run_attempts_success n h fails good =
      let left = attempts_allowed policies - n - 1 in
      let total : attempts_allowed policies ≡ n + suc left = omega arith in
      let rec = retries-then n (suc left) 1 none (omega arith) fails in
      ap (λ k. loop k 1 none) total ∙ rec.1 ∙ ap (retries n 1) (ground arith)

  -- If every attempt allowed fails with no cancellation, the fire is one backoff and retry less
  -- than calls, and ends with `TaskFailed`: the error of the last attempt, and all attempts
  -- counted.
  pub run_attempts_exhausted :
      (n : ℕ) (x : TaskError)
      → attempts_allowed policies ≡ suc n
      → ((i : ℕ) → 1 ≤ i → i < 1 + n → FailsAt i)
      → (readings (1 + n)).cancelled ≡ false
      → attempt_result policies (readings (1 + n)) ≡ err x
      → run ≡ retries n 1 (call ∷ emit wired (task_failed id x (suc n)) [])
  unfolding run_attempts attempts_from
  run_attempts_exhausted n x all fails live bad =
      let total : attempts_allowed policies ≡ n + 1 = omega arith in
      let rec = retries-then n 1 1 none (omega arith) fails in
      ap (λ k. loop k 1 none) total ∙ rec.1 ∙ ap (retries n 1) (ground arith)
