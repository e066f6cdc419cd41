-- ===== src/Scheduler/Loop.antt =====
-- crates/walastack-runtime/src/scheduler.rs: the triggers, `next_delay` and `run_schedule`, the
-- loop of one schedule. A run is given the rounds that it goes through; what it does after the
-- last of them is not looked at.
use walastack_rs.Base.{
  ℕ, ◌-◌, Bool, true, false, Option, none, some, List, [], ◌∷◌, ◌++◌, if◌then◌else◌, nat_keys,
  string_keys, map_or, option_map, unwrap_or, u32_saturating_suc,
}
use walastack_rs.Scheduler.Backoff.{Floats}
use walastack_rs.Scheduler.Attempts.{
  Policies, task_fired, Effect, sleep, Reading, emit, run_attempts,
}

-- `cron::Schedule`: the first fire after a time, if there is one. All times are in nanoseconds.
pub record CronSchedule : Type 0 where
  pub upcoming : ℕ → Option ℕ

pub data Trigger : Type 0 where
  after : (delay : ℕ) → Trigger
  at : (time : ℕ) → Trigger
  fixed_rate : (period : ℕ) → Trigger
  fixed_delay : (delay : ℕ) → Trigger
  cron : CronSchedule → Trigger

unfoldable pub is_one_shot : Trigger → Bool
is_one_shot (after _) = true
is_one_shot (at _) = true
is_one_shot _ = false

-- `CronSchedule::next_delay` at the wall clock's `now`; a time that has passed gives zero.
unfoldable pub cron_delay : CronSchedule → ℕ → ℕ
cron_delay schedule now = unwrap_or (option_map (λ next. next - now) (schedule.upcoming now)) 0

-- `next_delay`, at the wall clock's `now` and the monotonic clock's `instant`. Rust's `elapsed`,
-- `checked_sub` and `duration_since` with their defaults all stop at zero, as `-` does.
unfoldable pub next_delay : Trigger → Option ℕ → (now instant : ℕ) → ℕ
unfolding cron_delay
next_delay (after d) last_fire now instant = d
next_delay (fixed_delay d) last_fire now instant = d
next_delay (at t) last_fire now instant = t - now
next_delay (fixed_rate period) last_fire now instant =
    map_or period (λ last. period - (instant - last)) last_fire
next_delay (cron schedule) last_fire now instant = cron_delay schedule now

-- What one turn of the loop meets.
pub record Round : Type 0 where
  pub now : ℕ  -- the wall clock when the delay is computed
  pub instant : ℕ  -- the monotonic clock then
  pub woken : Bool  -- `cancel.changed()` comes before the end of the delay
  pub cancelled : Bool  -- `*cancel.borrow()` after the delay
  pub fired_at : ℕ  -- the monotonic clock at the fire
  pub readings : ℕ → Reading  -- what the attempts meet

module _ (fl : Floats) (id : ℕ) (trigger : Trigger) (policies : Policies) (wired : Bool) where
  unfoldable pub run_rounds : List Round → (trigger_count : ℕ) → Option ℕ → List Effect
  run_rounds [] trigger_count last_fire = []
  run_rounds (r ∷ rounds) trigger_count last_fire =
      let count' = u32_saturating_suc trigger_count in
      let rest = run_rounds rounds count' (some r.fired_at) in
      sleep (next_delay trigger last_fire r.now r.instant)
      ∷ (if r.woken
          then []
          else if r.cancelled
          then []
          else emit wired (task_fired id count') (
              run_attempts fl id policies wired r.readings
              ++ (if is_one_shot trigger then [] else rest)))

  unfoldable pub run_schedule : List Round → List Effect
  unfolding run_rounds
  run_schedule rounds = run_rounds rounds 0 none
