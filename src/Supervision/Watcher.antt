-- ===== src/Supervision/Watcher.antt =====
-- crates/walastack-runtime/src/supervision.rs: `RestartPolicy` and the watcher loop `supervise`.
-- A run is given its turns: how the root task ends, when the shutdown signal comes, and what the
-- service answers to a restart. What the watcher does after the last turn is not looked at.
use walastack_rs.Base.{
  ℕ, ◌-◌, String, Bool, true, false, ◌&&◌, List, [], ◌∷◌, ltb, if◌then◌else◌, nat_keys, string_keys,
  u32_saturating_suc, Result, ok, err,
}
use walastack_rs.Scheduler.Backoff.{Floats, Backoff, delay_for}

pub data RestartPolicy : Type 0 where
  one_shot : RestartPolicy
  on_failure : (max_attempts : ℕ) (backoff : Backoff) → RestartPolicy
  always : (backoff : Backoff) → RestartPolicy

unfoldable pub permits_restart_after : RestartPolicy → (attempt : ℕ) → (was_failure : Bool) → Bool
permits_restart_after one_shot attempt was_failure = false
permits_restart_after (on_failure max_attempts _) attempt was_failure =
    was_failure && ltb attempt max_attempts
permits_restart_after (always _) attempt was_failure = true

-- `subsec` is the clock's reading, for a jittered backoff.
unfoldable pub backoff_for_attempt : Floats → (subsec : ℕ) → RestartPolicy → (attempt : ℕ) → ℕ
backoff_for_attempt fl subsec one_shot attempt = 0
backoff_for_attempt fl subsec (on_failure _ backoff) attempt =
    delay_for fl subsec backoff (attempt - 1)
backoff_for_attempt fl subsec (always backoff) attempt = delay_for fl subsec backoff (attempt - 1)

-- The texts of the errors: `service task panicked: …`, and what `start` reported.
pub data Failure : Type 0 where
  task_panicked : String → Failure
  start_failed : String → Failure

-- What the watcher does, in order.
pub data WatchEffect : Type 0 where
  service_started : (name : String) (attempt : ℕ) → WatchEffect
  service_stopped : (name : String) → WatchEffect
  service_failed :
      (name : String) (error : Failure) (attempt : ℕ) (will_restart : Bool) → WatchEffect
  start_service : WatchEffect  -- a call of `Service::start`
  sleeps : ℕ → WatchEffect
  aborts : WatchEffect  -- the root task is aborted

-- How a task ended: the three cases of `join_result`.
pub data Exit : Type 0 where
  exited : Exit
  panicked : String → Exit
  cancelled : Exit

-- The handle under watch: of the service's task, or of the empty task that stands in for it after
-- a failed restart.
pub data Handle : Type 0 where
  service_task : Handle
  empty_task : Handle

-- How the task under watch ends, where the service's own would end by `exit`.
unfoldable pub join : Handle → Exit → Exit
join service_task exit = exit
join empty_task exit = exited

pub record Turn : Type 0 where
  pub shut_first : Bool  -- the shutdown signal wins over the exit of the task
  pub exit : Exit
  pub subsec : ℕ
  pub shut_in_backoff : Bool  -- the shutdown signal comes during the backoff
  pub restart : Result (Unit {0}) String  -- the answer of `Service::start`

unfoldable pub is_always : RestartPolicy → Bool
is_always (always _) = true
is_always _ = false

module _ (fl : Floats) (name : String) (policy : RestartPolicy) where
  -- The part of the loop from the decision to restart on; `rest` is the next turn.
  unfoldable pub after_exit :
      (t : Turn) (attempt : ℕ) (was_failure : Bool) (error : Failure)
      → (Handle → ℕ → List WatchEffect)
      → List WatchEffect
  after_exit t attempt was_failure error rest =
      let will_restart = permits_restart_after policy attempt was_failure in
      let attempt' = u32_saturating_suc attempt in
      let restarted : List WatchEffect = elim t.restart [
        | ok _ ↦ service_started name attempt' ∷ rest service_task attempt'
        | err e ↦
            let will_retry = permits_restart_after policy attempt' true in
            service_failed name (start_failed e) attempt' will_retry
            ∷ (if will_retry then rest empty_task attempt' else [])
      ] in
      let onward =
        if will_restart
        then sleeps (backoff_for_attempt fl t.subsec policy attempt)
          ∷ (if t.shut_in_backoff then [] else start_service ∷ restarted)
        else [] in
      if was_failure then service_failed name error attempt will_restart ∷ onward else onward

  unfoldable pub supervise_from : List Turn → Handle → (attempt : ℕ) → List WatchEffect
  unfolding after_exit join is_always
  supervise_from [] handle attempt = []
  supervise_from (t ∷ turns) handle attempt =
      let ended : List WatchEffect = elim (join handle t.exit) [
        | exited ↦
            service_stopped name
            ∷ (if is_always policy
                then after_exit t attempt false (task_panicked "") (supervise_from turns)
                else [])
        | panicked e ↦ after_exit t attempt true (task_panicked e) (supervise_from turns)
        | cancelled ↦ []
      ] in
      if t.shut_first then aborts ∷ [] else ended

  -- `supervise`: the watcher of a service that `start_service` has just started.
  unfoldable pub supervise : List Turn → List WatchEffect
  unfolding supervise_from
  supervise turns = supervise_from turns service_task 1
