-- ===== src/Observability.antt =====
-- crates/walastack-observability/src/lib.rs: what the observer keeps of the events of the runtime, and
-- what the health registry answers from it.
pub mod Health
pub mod Watched
pub mod Examples
use walastack_rs.Base.{
  ℕ, ◌+◌, ◌-◌, ◌/◌, min, String, Bool, true, false, Option, none, some, List, [], ◌∷◌, map,
  if◌then◌else◌, nat_keys, string_keys, unwrap_or, lookup, insert, adjust, u64_max,
  u32_saturating_suc, saturating_add, Result,
}
use walastack_rs.Capabilities.Registry.{register_default}
use walastack_rs.Supervision.Watcher.{one_shot}
use walastack_rs.Kernel.Plugins.{Plugin, Service, add_supervised}

-- `Ok`, `Degraded`, `Failed` and `Unknown`.
pub data HealthStatus : Type 0 where
  healthy degraded failed unknown : HealthStatus

pub data RuntimePhase : Type 0 where
  initializing running stopping stopped : RuntimePhase

pub record ServiceHealth : Type 0 where
  pub name : String
  pub status : HealthStatus
  pub starts : ℕ  -- u32
  pub failures : ℕ  -- u32
  pub last_error : Option String

-- u64 each.
pub record EventCounts : Type 0 where
  pub services_started : ℕ
  pub services_stopped : ℕ
  pub services_failed : ℕ
  pub tasks_fired : ℕ
  pub tasks_completed : ℕ
  pub tasks_failed : ℕ
  pub tasks_retrying : ℕ

pub record ObservabilityState : Type 0 where
  pub services : List (String × ServiceHealth)
  pub counts : EventCounts
  pub phase : RuntimePhase

unfoldable pub new_state : ObservabilityState
new_state = record {
  services = [];
  counts = record {
    services_started = 0;
    services_stopped = 0;
    services_failed = 0;
    tasks_fired = 0;
    tasks_completed = 0;
    tasks_failed = 0;
    tasks_retrying = 0;
  };
  phase = initializing;
}

-- The events that the observer subscribes to.
pub data Event : Type 0 where
  service_started : (name : String) → Event
  service_stopped : (name : String) → Event
  service_failed : (name error : String) (will_restart : Bool) → Event
  runtime_started runtime_stopping runtime_stopped : Event
  task_fired task_completed task_failed task_retrying : Event

-- `u64::saturating_add(1)`.
abbrev pub u64_saturating_suc : ℕ → ℕ
u64_saturating_suc n = min (n + 1) u64_max

abbrev pub first_health : (name : String) → HealthStatus → ServiceHealth
first_health name status = record {
  name = name;
  status = status;
  starts = 0;
  failures = 0;
  last_error = none;
}

unfoldable pub on_service_started : (name : String) → ObservabilityState → ObservabilityState
on_service_started name s =
    let entry = unwrap_or (lookup name s.services) (first_health name healthy) in
    record s {
      counts = record s.counts { services_started = u64_saturating_suc s.counts.services_started };
      services =
          insert name (record entry { status = healthy; starts = u32_saturating_suc entry.starts })
            s.services;
    }

unfoldable pub on_service_stopped : (name : String) → ObservabilityState → ObservabilityState
on_service_stopped name s = record s {
  counts = record s.counts { services_stopped = u64_saturating_suc s.counts.services_stopped };
  services = adjust name (λ (h : ServiceHealth). record h { status = healthy }) s.services;
}

unfoldable pub on_service_failed :
    (name error : String) (will_restart : Bool) → ObservabilityState → ObservabilityState
on_service_failed name error will_restart s =
    let entry = unwrap_or (lookup name s.services) (first_health name failed) in
    record s {
      counts = record s.counts { services_failed = u64_saturating_suc s.counts.services_failed };
      services =
          insert name
            (record entry {
              status = if will_restart then degraded else failed;
              failures = u32_saturating_suc entry.failures;
              last_error = some error;
            })
            s.services;
    }

-- The arms of `select!` for the events.
unfoldable pub on_event : Event → ObservabilityState → ObservabilityState
unfolding on_service_started on_service_stopped on_service_failed
on_event (service_started name) s = on_service_started name s
on_event (service_stopped name) s = on_service_stopped name s
on_event (service_failed name error will_restart) s = on_service_failed name error will_restart s
on_event runtime_started s = record s { phase = running }
on_event runtime_stopping s = record s { phase = stopping }
on_event runtime_stopped s = record s { phase = stopped }
on_event task_fired s = record s {
  counts = record s.counts { tasks_fired = u64_saturating_suc s.counts.tasks_fired };
}
on_event task_completed s = record s {
  counts = record s.counts { tasks_completed = u64_saturating_suc s.counts.tasks_completed };
}
on_event task_failed s = record s {
  counts = record s.counts { tasks_failed = u64_saturating_suc s.counts.tasks_failed };
}
on_event task_retrying s = record s {
  counts = record s.counts { tasks_retrying = u64_saturating_suc s.counts.tasks_retrying };
}

-- What a turn of the loop gets: the shutdown signal, an event, or an error of a subscriber.
pub data Turn : Type 0 where
  signalled : Turn
  received : Event → Turn
  lagged : Turn

unfoldable pub observe : List Turn → ObservabilityState → ObservabilityState
unfolding on_event
observe [] s = s
observe (signalled ∷ _) s = s
observe (received e ∷ turns) s = observe turns (on_event e s)
observe (lagged ∷ turns) s = observe turns s

-- The loop of `overall`, with `any_degraded`.
unfoldable pub overall_from : List (String × ServiceHealth) → (any_degraded : Bool) → HealthStatus
overall_from [] any_degraded = if any_degraded then degraded else healthy
overall_from ((_, service) ∷ services) any_degraded =
    let noted = overall_from services true in
    let onward = overall_from services any_degraded in
    elim service.status [ failed ↦ failed | degraded ↦ noted | healthy ↦ onward | unknown ↦ onward ]

unfoldable pub overall_of : List (String × ServiceHealth) → HealthStatus
unfolding overall_from
overall_of [] = unknown
overall_of (service ∷ services) = overall_from (service ∷ services) false

unfoldable pub overall : ObservabilityState → HealthStatus
unfolding overall_of
overall s = overall_of s.services

-- `services` and `service` of the registry.
unfoldable pub service_healths : ObservabilityState → List ServiceHealth
service_healths s = map (λ e. e.1) s.services

unfoldable pub service_health : (name : String) → ObservabilityState → Option ServiceHealth
service_health name s = lookup name s.services

-- `ObservabilityPlugin`, with the type of the registry, the handle of the state, and the answer of its
-- service to `start`.
unfoldable pub observability_plugin :
    (registry_type state_arc : ℕ) → Result (Unit {0}) String → Plugin
unfolding register_default add_supervised
observability_plugin registry_type state_arc answer = record {
  name = "observability";
  register_resources = λ r. r;
  register_capabilities = λ c. (register_default registry_type state_arc c).1;
  register_services =
      λ p. add_supervised (record { name = "observability"; start = answer }) one_shot p;
  required_capabilities = [];
}
