-- ===== src/Supervision/Restarts.antt =====
-- How often, and until when, the watcher of crates/walastack-runtime/src/supervision.rs restarts.
use walastack_rs.Base.{
  ℕ, ◌+◌, ◌-◌, ◌≤◌, ◌<◌, max, String, ◌≡◌, refl, ◌≢◌, Bool, true, false, ltb, Bool-cases, inl, inr,
  List, [], ◌∷◌, ◌++◌, arith, nat_keys, string_keys, length, count, All, u32_max,
  u32_saturating_suc, err,
}
use walastack_rs.Scheduler.Backoff.{Floats, Backoff}
use walastack_rs.Supervision.Watcher.{
  RestartPolicy, one_shot, on_failure, always, permits_restart_after, backoff_for_attempt,
  task_panicked, start_failed, WatchEffect, service_stopped, service_failed, start_service, sleeps,
  aborts, panicked, cancelled, Handle, service_task, empty_task, Turn, supervise_from, supervise,
}

abbrev pub is_start : WatchEffect → Bool
is_start start_service = true
is_start _ = false

module _ (fl : Floats) (name : String) where
  starts-on_failure :
      (m : ℕ) (b : Backoff) (turns : List Turn) (h : Handle) (attempt : ℕ)
      → m ≤ u32_max
      → count is_start (supervise_from fl name (on_failure m b) turns h attempt) ≤ m - attempt
  unfolding supervise_from permits_restart_after
  starts-on_failure m b [] h attempt le = omega arith
  starts-on_failure m b (t ∷ turns) h attempt le = ground (
    arith,
    starts-on_failure m b turns service_task (u32_saturating_suc attempt) le,
    starts-on_failure m b turns empty_task (u32_saturating_suc attempt) le,
  )

  starts-one_shot :
      (turns : List Turn) (h : Handle) (attempt : ℕ)
      → count is_start (supervise_from fl name one_shot turns h attempt) ≡ 0
  unfolding supervise_from permits_restart_after
  starts-one_shot [] h attempt = refl
  starts-one_shot (t ∷ turns) h attempt = ground arith

  -- The task is not aborted and the kernel not shut down in any of these turns.
  abbrev AllLive : List Turn → Type 0
  AllLive = All (λ t. (t.shut_first ≡ false) × (t.shut_in_backoff ≡ false) × (t.exit ≢ cancelled))

  starts-always :
      (b : Backoff) (turns : List Turn) (h : Handle) (attempt : ℕ)
      → AllLive turns
      → count is_start (supervise_from fl name (always b) turns h attempt) ≡ length turns
  unfolding supervise_from permits_restart_after
  starts-always b [] h attempt live = refl
  starts-always b (t ∷ turns) h attempt live = ground (
    arith,
    starts-always b turns service_task (u32_saturating_suc attempt) live.1,
    starts-always b turns empty_task (u32_saturating_suc attempt) live.1,
  )

  -- A `OneShot` service is never started again, and an `OnFailure` service is started at most
  -- `max_attempts` times in all, or once if that is zero, its first start included, over every run of
  -- the watcher. `max_attempts` is a number of 32 bits.
  pub supervise_restarts_bounded :
      (m : ℕ) (b : Backoff) (turns : List Turn)
      → m ≤ u32_max
      → (count is_start (supervise fl name one_shot turns) ≡ 0)
        × (1 + count is_start (supervise fl name (on_failure m b) turns) ≤ max m 1)
  unfolding supervise
  supervise_restarts_bounded m b turns le = (
    starts-one_shot turns service_task 1,
    omega (arith, starts-on_failure m b turns service_task 1 le),
  )

  -- An `Always` service is started again after every exit, clean or not, and also after a restart
  -- that failed: one start for each turn, as long as nothing is shut down or aborted.
  pub supervise_always_restarts :
      (b : Backoff) (turns : List Turn)
      → AllLive turns
      → count is_start (supervise fl name (always b) turns) ≡ length turns
  unfolding supervise
  supervise_always_restarts b turns live = starts-always b turns service_task 1 live

  -- An `OnFailure` service whose restart fails is given up, though the policy has attempts left
  -- and `will_restart` was published as true: the stand-in task counts as a clean exit, so the
  -- watcher publishes `ServiceStopped` and ends, whatever the later turns are. The service
  -- panicked at an attempt below `max_attempts - 1`, and no shutdown came.
  pub supervise_gives_up_failed_restart :
      (m : ℕ) (b : Backoff) (t u : Turn) (turns : List Turn) (attempt : ℕ) (e s : String)
      → m ≤ u32_max
      → attempt + 1 < m
      → (t.shut_first ≡ false) × (t.exit ≡ panicked e) × (t.shut_in_backoff ≡ false)
      → t.restart ≡ err s
      → u.shut_first ≡ false
      → supervise_from fl name (on_failure m b) (t ∷ u ∷ turns) service_task attempt
        ≡ service_failed name (task_panicked e) attempt true
          ∷ sleeps (backoff_for_attempt fl t.subsec (on_failure m b) attempt)
          ∷ start_service
          ∷ service_failed name (start_failed s) (attempt + 1) true
          ∷ service_stopped name
          ∷ []
  unfolding supervise_from permits_restart_after
  supervise_gives_up_failed_restart m b t u turns attempt e s le more died failed live =
      ground arith

  -- The rest of a watch does not depend on turns that come after the last restart.
  on_failure_ends :
      (m : ℕ) (b : Backoff) (before later : List Turn) (h : Handle) (attempt : ℕ)
      → m ≤ u32_max
      → m - attempt < length before
      → supervise_from fl name (on_failure m b) (before ++ later) h attempt
        ≡ supervise_from fl name (on_failure m b) before h attempt
  unfolding supervise_from permits_restart_after
  on_failure_ends m b [] later h attempt le enough = absurd (omega (arith, enough))
  on_failure_ends m b (t ∷ before) later h attempt le enough = elim (Bool-cases (ltb attempt m)) [
    | inr last ↦ ground (arith, last)
    | inl more ↦ ground (
      arith,
      more,
      on_failure_ends m b before later service_task (u32_saturating_suc attempt) le
          (ground (arith, more, le, enough)),
      on_failure_ends m b before later empty_task (u32_saturating_suc attempt) le
          (ground (arith, more, le, enough)),
    )
  ]

  one_shot_ends :
      (t : Turn) (later : List Turn) (h : Handle) (attempt : ℕ)
      → supervise_from fl name one_shot (t ∷ later) h attempt
        ≡ supervise_from fl name one_shot (t ∷ []) h attempt
  unfolding supervise_from permits_restart_after
  one_shot_ends t later h attempt = ground arith

  -- The watcher of a `OneShot` service ends with the first turn of its loop, and that of an
  -- `OnFailure` service within `max_attempts` turns, or one if that is zero: whatever the task, the
  -- restarts and the shutdown signal do, turns that would follow have no effect.
  pub supervise_ends :
      (m : ℕ) (b : Backoff) (t : Turn) (before later : List Turn)
      → m ≤ u32_max
      → max m 1 ≤ length before
      → (supervise fl name one_shot (t ∷ later) ≡ supervise fl name one_shot (t ∷ []))
        × (supervise fl name (on_failure m b) (before ++ later)
            ≡ supervise fl name (on_failure m b) before)
  unfolding supervise
  supervise_ends m b t before later le enough = (
    one_shot_ends t later service_task 1,
    on_failure_ends m b before later service_task 1 le (omega (arith, enough)),
  )

module _ (fl : Floats) (name : String) (policy : RestartPolicy) where
  shutdown_from :
      (before : List Turn) (t : Turn) (later : List Turn) (h : Handle) (attempt : ℕ)
      → t.shut_first ≡ true
      → supervise_from fl name policy (before ++ t ∷ later) h attempt
        ≡ supervise_from fl name policy (before ++ t ∷ []) h attempt
  unfolding supervise_from permits_restart_after
  shutdown_from [] t later h attempt shut = ground arith
  shutdown_from (b ∷ before) t later h attempt shut = ground (
    arith,
    shutdown_from before t later service_task (u32_saturating_suc attempt) shut,
    shutdown_from before t later empty_task (u32_saturating_suc attempt) shut,
  )

  -- Under every policy, a turn in which the shutdown signal wins ends the watcher: the turns that
  -- would follow leave no effect, and the turn itself, where it is reached first, only aborts the
  -- task.
  pub supervise_shutdown_ends :
      (before : List Turn) (t : Turn) (later : List Turn)
      → t.shut_first ≡ true
      → (supervise fl name policy (before ++ t ∷ later)
          ≡ supervise fl name policy (before ++ t ∷ []))
        × (supervise fl name policy (t ∷ later) ≡ aborts ∷ [])
  unfolding supervise
  supervise_shutdown_ends before t later shut =
      (shutdown_from before t later service_task 1 shut, rw shut)
