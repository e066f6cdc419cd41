-- ===== src/Scheduler/Fires.antt =====
-- When and how often `run_schedule` of crates/walastack-runtime/src/scheduler.rs fires.
use walastack_rs.Base.{
  ℕ, zero, suc, ◌+◌, ◌≤◌, min, max, ◌≡◌, refl, ap, ◌∙◌, inl, inr, Bool, true, false, ◌||◌, Option,
  none, some, List, [], ◌∷◌, ◌++◌, arith, if◌then◌else◌, Bool-cases, nat_keys, string_keys, length,
  All, u32_max, u32_saturating_suc, Result-cases,
}
use walastack_rs.Scheduler.Backoff.{Floats}
use walastack_rs.Scheduler.Attempts.{
  Policies, TaskError, task_fired, task_completed, task_failed, task_retrying, Effect, call,
  publish, sleep, Reading, attempt_result, attempts_from, run_attempts,
}
use walastack_rs.Scheduler.Loop.{
  CronSchedule, Trigger, at, fixed_rate, cron, is_one_shot, next_delay, Round, run_rounds,
  run_schedule,
}

-- The trigger counts that a run publishes, in order.
abbrev pub fired_counts : List Effect → List ℕ
fired_counts [] = []
fired_counts (publish (task_fired _ n) ∷ es) = n ∷ fired_counts es
fired_counts (_ ∷ es) = fired_counts es

-- `n`, `n + 1`, … for `k` fires.
abbrev pub numbered : (k n : ℕ) → List ℕ
numbered zero n = []
numbered (suc k) n = n ∷ numbered k (n + 1)

fired_counts-append :
    (xs ys : List Effect) → fired_counts (xs ++ ys) ≡ fired_counts xs ++ fired_counts ys
fired_counts-append [] ys = refl
fired_counts-append (call ∷ xs) ys = fired_counts-append xs ys
fired_counts-append (sleep d ∷ xs) ys = fired_counts-append xs ys
fired_counts-append (publish (task_fired i n) ∷ xs) ys = ap (◌∷◌ n) (fired_counts-append xs ys)
fired_counts-append (publish (task_completed i n) ∷ xs) ys = fired_counts-append xs ys
fired_counts-append (publish (task_failed i x n) ∷ xs) ys = fired_counts-append xs ys
fired_counts-append (publish (task_retrying i n d) ∷ xs) ys = fired_counts-append xs ys

fired_counts-append_silent :
    (xs ys : List Effect) → fired_counts xs ≡ [] → fired_counts (xs ++ ys) ≡ fired_counts ys
fired_counts-append_silent xs ys h = fired_counts-append xs ys ∙ rw h

-- No round of these is cancelled.
abbrev pub AllQuiet : List Round → Type 0
AllQuiet = All (λ r. (r.woken ≡ false) × (r.cancelled ≡ false))

module _ (fl : Floats) (id : ℕ) (policies : Policies) (wired : Bool) where
  attempts_from_silent :
      (readings : ℕ → Reading) (left attempt : ℕ) (e : Option TaskError)
      → fired_counts (attempts_from fl id policies wired readings left attempt e) ≡ []
  unfolding attempts_from
  attempts_from_silent readings zero attempt e = ground arith
  attempts_from_silent readings (suc left) attempt e =
      elim (Result-cases (attempt_result policies (readings attempt))) [
        | inl (_, good) ↦ ground arith
        | inr (x, bad) ↦ ground (arith, attempts_from_silent readings left (attempt + 1) (some x))
      ]

  -- Attempts publish no `TaskFired`.
  run_attempts_silent :
      (readings : ℕ → Reading) → fired_counts (run_attempts fl id policies wired readings) ≡ []
  unfolding run_attempts
  run_attempts_silent readings = attempts_from_silent readings _ 1 none

-- How many of the rounds fire, and the counts that they publish.
abbrev pub Numbered : Trigger → List Round → ℕ → List Effect → Type 0
Numbered trigger rounds trigger_count effects =
    (k : ℕ) × (k ≤ (if is_one_shot trigger then min 1 (length rounds) else length rounds))
    × (fired_counts effects ≡ numbered k (trigger_count + 1))

module _ (fl : Floats) (id : ℕ) (trigger : Trigger) (policies : Policies) where
  abbrev rounds_of : List Round → ℕ → Option ℕ → List Effect
  rounds_of = run_rounds fl id trigger policies true

  -- A round that is not cancelled fires, and goes on only with a repeating trigger.
  fired_counts-round :
      (r : Round) (rounds : List Round) (trigger_count : ℕ) (last : Option ℕ)
      → r.woken ≡ false
      → r.cancelled ≡ false
      → trigger_count + 1 ≤ u32_max
      → fired_counts (rounds_of (r ∷ rounds) trigger_count last)
        ≡ (trigger_count + 1)
          ∷ fired_counts (
              if is_one_shot trigger
              then []
              else rounds_of rounds (trigger_count + 1) (some r.fired_at))
  unfolding run_rounds
  fired_counts-round r rounds trigger_count last w c h =
      let p : u32_saturating_suc trigger_count ≡ trigger_count + 1 = omega arith in
      rw (w, c, p)
        (ap (◌∷◌ (trigger_count + 1)) (
          fired_counts-append_silent (run_attempts fl id policies true r.readings) _
            (run_attempts_silent fl id policies true r.readings)))

  run_rounds-Numbered :
      (rounds : List Round) (trigger_count : ℕ) (last : Option ℕ)
      → trigger_count + length rounds ≤ u32_max
      → Numbered trigger rounds trigger_count (rounds_of rounds trigger_count last)
  unfolding run_rounds
  run_rounds-Numbered [] n last h = (0, ground arith, refl)
  run_rounds-Numbered (r ∷ rounds) n last h =
      let rest = run_rounds-Numbered rounds (n + 1) (some r.fired_at) (omega arith) in
      elim (Bool-cases r.woken) [
        | inl w ↦ (0, ground arith, rw w)
        | inr w ↦ elim (Bool-cases r.cancelled) [
          | inl c ↦ (0, ground arith, rw (w, c))
          | inr c ↦ elim (Bool-cases (is_one_shot trigger)) [
            | inl one ↦ (
              1,
              ground arith,
              fired_counts-round r rounds n last w c (omega arith) ∙ rw one refl,
            )
            | inr many ↦ (
              suc rest.0,
              ground (arith, rest.1),
              fired_counts-round r rounds n last w c (omega arith)
                  ∙ rw many (ap (◌∷◌ (n + 1)) rest.2),
            )
          ]
        ]
      ]

  -- The fires of a schedule publish the trigger counts 1, 2, 3, … without a gap, at most one fire
  -- to a round of the loop, and at most one in all for `After` and `At`. The rounds are fewer than
  -- u32::MAX, where the counter saturates.
  pub run_schedule-Numbered :
      (rounds : List Round)
      → length rounds ≤ u32_max
      → Numbered trigger rounds 0 (run_schedule fl id trigger policies true rounds)
  unfolding run_schedule
  run_schedule-Numbered rounds h = run_rounds-Numbered rounds 0 none (omega arith)

  run_rounds_quiet :
      (rounds : List Round) (n : ℕ) (last : Option ℕ)
      → n + length rounds ≤ u32_max
      → is_one_shot trigger ≡ false
      → AllQuiet rounds
      → fired_counts (rounds_of rounds n last) ≡ numbered (length rounds) (n + 1)
  unfolding run_rounds
  run_rounds_quiet [] n last h many q = refl
  run_rounds_quiet (r ∷ rounds) n last h many q =
      fired_counts-round r rounds n last q.0.0 q.0.1 (omega arith)
      ∙ rw many (
          ap (◌∷◌ (n + 1))
            (run_rounds_quiet rounds (n + 1) (some r.fired_at) (omega arith) many q.1))

module _ (fl : Floats) (id : ℕ) (trigger : Trigger) (policies : Policies) (wired : Bool) where
  run_rounds_cancelled :
      (before : List Round) (r : Round) (later : List Round) (n : ℕ) (last : Option ℕ)
      → r.woken || r.cancelled ≡ true
      → run_rounds fl id trigger policies wired (before ++ r ∷ later) n last
        ≡ run_rounds fl id trigger policies wired (before ++ r ∷ []) n last
  unfolding run_rounds
  run_rounds_cancelled [] r later n last h = ground arith
  run_rounds_cancelled (b ∷ before) r later n last h =
      rw (run_rounds_cancelled before r later (u32_saturating_suc n) (some b.fired_at) h)

  -- Once a round sees the cancellation, in its delay or after it, the schedule does nothing more:
  -- the rounds that would follow leave no effect.
  pub run_schedule_cancelled :
      (before : List Round) (r : Round) (later : List Round)
      → r.woken || r.cancelled ≡ true
      → run_schedule fl id trigger policies wired (before ++ r ∷ later)
        ≡ run_schedule fl id trigger policies wired (before ++ r ∷ [])
  unfolding run_schedule
  run_schedule_cancelled before r later h = run_rounds_cancelled before r later 0 none h

-- `At` fires at its time, or at once where that has passed. `FixedRate` waits one period before
-- the first fire, and then fires one period after the start of the last fire, or at once where
-- that has passed; the clock is not behind the last fire.
pub next_delay_due :
    (time period now instant last : ℕ)
    → last ≤ instant
    → (now + next_delay (at time) none now instant ≡ max time now)
      × (next_delay (fixed_rate period) none now instant ≡ period)
      × (instant + next_delay (fixed_rate period) (some last) now instant
          ≡ max (last + period) instant)
unfolding next_delay
next_delay_due time period now instant last h = (omega arith, refl, omega arith)

-- A cron schedule with no further fire does not stop: its delay is zero, and every round that is
-- not cancelled fires the task again.
pub run_schedule_exhausted_cron :
    (fl : Floats) (id : ℕ) (policies : Policies) (schedule : CronSchedule) (rounds : List Round)
    → ((now : ℕ) → schedule.upcoming now ≡ none)
    → length rounds ≤ u32_max
    → AllQuiet rounds
    → ((last : Option ℕ) (now instant : ℕ) → next_delay (cron schedule) last now instant ≡ 0)
      × (fired_counts (run_schedule fl id (cron schedule) policies true rounds)
          ≡ numbered (length rounds) 1)
unfolding next_delay run_schedule is_one_shot
run_schedule_exhausted_cron fl id policies schedule rounds never h q = (
  λ last now instant. rw (never now),
  run_rounds_quiet fl id (cron schedule) policies rounds 0 none (omega arith) refl q,
)
