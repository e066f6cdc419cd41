-- ===== src/Observability/Examples.antt =====
-- Runs of the model of crates/walastack-observability/src/lib.rs on small inputs.
use walastack_rs.Base.{
  ◌≡◌, refl, true, some, [], ◌∷◌, arith, nat_keys, string_keys, codes_keys, lookup, insert, ok, err,
}
use walastack_rs.Scheduler.Backoff.{linear}
use walastack_rs.Supervision.Watcher.{on_failure, panicked, service_task, supervise_from}
use walastack_rs.Supervision.Examples.{no_floats, turn}
use walastack_rs.Observability.{
  healthy, degraded, failed, ObservabilityState, new_state, service_started, service_stopped,
  service_failed, overall, on_event,
}
use walastack_rs.Observability.Health.{
  on_events, starts_of, failures_of, overall-worst, on_events-numbers,
}
use walastack_rs.Observability.Watched.{reported, status_of, given_up_healthy}

-- One service failed for a moment, and one is well.
abbrev two_services : ObservabilityState
two_services =
    on_events (service_started "a" ∷ service_failed "a" "e" true ∷ service_started "b" ∷ [])
      new_state

overall-worst_example : overall two_services ≡ degraded
unfolding on_event new_state lookup insert walastack_rs.Observability.on_service_started
    walastack_rs.Observability.on_service_failed
overall-worst_example = overall-worst two_services

on_events-numbers_example :
    (starts_of "a" (
        on_events
          (service_started "a" ∷ service_failed "a" "e" true ∷ service_started "b" ∷ [])
          new_state)
      ≡ 1)
    × (failures_of "a" (
          on_events
            (service_started "a" ∷ service_failed "a" "e" true ∷ service_started "b" ∷ [])
            new_state)
        ≡ 1)
on_events-numbers_example =
    on_events-numbers "a"
      (service_started "a" ∷ service_failed "a" "e" true ∷ service_started "b" ∷ [])

given_up_healthy_example :
    status_of "cache" (
      on_events
        (reported
          (λ _. "text")
          (supervise_from no_floats "cache"
            (on_failure 9 (linear 10 5))
            (turn (panicked "a") (err "refused") ∷ turn (panicked "b") (ok tt) ∷ [])
            service_task
            1))
        new_state)
    ≡ some healthy
given_up_healthy_example =
    given_up_healthy (λ _. "text") no_floats "cache" 9 (linear 10 5)
      (turn (panicked "a") (err "refused")) (turn (panicked "b") (ok tt)) [] 1 "a" "refused"
      new_state (omega arith) (omega arith) (refl, refl, refl) refl refl
