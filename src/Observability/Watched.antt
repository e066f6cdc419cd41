-- ===== src/Observability/Watched.antt =====
-- What the observer of crates/walastack-observability/src/lib.rs makes of the events that a watcher of
-- crates/walastack-runtime/src/supervision.rs publishes.
use walastack_rs.Base.{
  ℕ, ◌+◌, ◌≤◌, ◌<◌, String, ◌≡◌, ap, ◌∙◌, inl, inr, Bool, true, false, Option, some, List, [], ◌∷◌,
  arith, if◌then◌else◌, Option-cases, ==_refl, nat_keys, string_keys, codes_keys, option_map,
  lookup, lookup-insert_self, lookup-adjust, u32_max, err,
}
use walastack_rs.Scheduler.Backoff.{Floats, Backoff}
use walastack_rs.Supervision.Watcher.{
  RestartPolicy, on_failure, WatchEffect, Failure, Turn, panicked, service_task, supervise_from,
}
use walastack_rs.Supervision.Watcher
use walastack_rs.Supervision.Restarts.{supervise_gives_up_failed_restart}
use walastack_rs.Observability.{
  HealthStatus, healthy, degraded, failed, ServiceHealth, ObservabilityState, Event,
  service_started, service_stopped, service_failed, on_event, on_service_started,
  on_service_stopped, on_service_failed, service_health,
}
use walastack_rs.Observability.Health.{on_events, started_entry, failed_entry}

module _ (text_of : Failure → String) where
  -- The events among the effects of a watcher.
  abbrev pub reported : List WatchEffect → List Event
  reported [] = []
  reported (Watcher.service_started name attempt ∷ effects) =
      service_started name ∷ reported effects
  reported (Watcher.service_stopped name ∷ effects) = service_stopped name ∷ reported effects
  reported (Watcher.service_failed name error attempt will_restart ∷ effects) =
      service_failed name (text_of error) will_restart ∷ reported effects
  reported (Watcher.start_service ∷ effects) = reported effects
  reported (Watcher.sleeps _ ∷ effects) = reported effects
  reported (Watcher.aborts ∷ effects) = reported effects

abbrev pub status_of : (name : String) → ObservabilityState → Option HealthStatus
status_of name s = option_map (λ (h : ServiceHealth). h.status) (service_health name s)

failed_status :
    (name error : String) (will_restart : Bool) (s : ObservabilityState)
    → status_of name (on_event (service_failed name error will_restart) s)
      ≡ some (if will_restart then degraded else failed)
unfolding on_event service_health on_service_failed
failed_status name error will_restart s =
    ground (arith, lookup-insert_self name (failed_entry name error will_restart s) s.services)

started_status :
    (name : String) (s : ObservabilityState)
    → status_of name (on_event (service_started name) s) ≡ some healthy
unfolding on_event service_health on_service_started
started_status name s = ground (arith, lookup-insert_self name (started_entry name s) s.services)

stopped_status :
    (name : String) (s : ObservabilityState) (h : HealthStatus)
    → status_of name s ≡ some h
    → status_of name (on_event (service_stopped name) s) ≡ some healthy
unfolding on_event service_health on_service_stopped
stopped_status name s h before =
    let there =
      lookup-adjust name name (λ (h : ServiceHealth). record h { status = healthy }) s.services in
    elim (Option-cases (lookup name s.services)) [
      | inl e ↦ absurd (ground (arith, e, before))
      | inr (x, e) ↦ ground (arith, e, there, ==_refl name)
    ]

-- A service that its watcher gives up after a failed restart is reported as healthy, if the observer
-- handles the watcher's events in the order in which they were published: the last one is
-- `ServiceStopped`. The service is under `OnFailure`, panicked at an attempt below `max_attempts - 1`,
-- and no shutdown came.
pub given_up_healthy :
    (text_of : Failure → String) (fl : Floats) (name : String) (m : ℕ) (b : Backoff) (t u : Turn)
    (turns : List Turn) (attempt : ℕ) (e reason : String) (s : ObservabilityState)
    → m ≤ u32_max
    → attempt + 1 < m
    → (t.shut_first ≡ false) × (t.exit ≡ panicked e) × (t.shut_in_backoff ≡ false)
    → t.restart ≡ err reason
    → u.shut_first ≡ false
    → status_of name (
        on_events
          (reported text_of
            (supervise_from fl name (on_failure m b) (t ∷ u ∷ turns) service_task attempt))
          s)
      ≡ some healthy
given_up_healthy text_of fl name m b t u turns attempt e reason s small below died refused live =
    let effects =
      supervise_gives_up_failed_restart fl name m b t u turns attempt e reason small below died
        refused live in
    ap (λ l. status_of name (on_events (reported text_of l) s)) effects
    ∙ stopped_status name _ degraded (failed_status name _ true _)

-- The status of a service depends on the order in which the observer gets a start and a failure, which
-- come from two subscriptions: the same two events leave the service failed or healthy, though it is
-- started and failed as often.
pub on_events_order :
    (name error : String) (s : ObservabilityState)
    → (status_of name (on_events (service_started name ∷ service_failed name error false ∷ []) s)
        ≡ some failed)
      × (status_of name (on_events (service_failed name error false ∷ service_started name ∷ []) s)
          ≡ some healthy)
on_events_order name error s = (
  failed_status name error false (on_event (service_started name) s),
  started_status name (on_event (service_failed name error false) s),
)
