-- ===== src/Observability/Health.antt =====
-- What the observer of crates/walastack-observability/src/lib.rs knows after any events: numbers that
-- do not depend on their order, and a status that does.
use walastack_rs.Base.{
  ℕ, ◌+◌, ◌≤◌, min, String, ◌≡◌, refl, ◌∙◌, inl, inr, Bool, true, false, ◌||◌, some, List, [], ◌∷◌,
  arith, if◌then◌else◌, Option-cases, ◌==◌, ==_iff, nat_keys, string_keys, codes_keys, count,
  map_or, unwrap_or, lookup, lookup-insert, lookup-adjust, lookup-nil, u32_max, u32_saturating_suc,
}
use walastack_rs.Observability.{
  HealthStatus, healthy, degraded, failed, unknown, ServiceHealth, ObservabilityState, new_state,
  Event, service_started, service_stopped, service_failed, runtime_started, runtime_stopping,
  runtime_stopped, task_fired, task_completed, task_failed, task_retrying, on_service_started,
  on_service_stopped, on_service_failed, on_event, overall_from, overall_of, overall,
  service_health, first_health,
}

abbrev pub on_events : List Event → ObservabilityState → ObservabilityState
on_events [] s = s
on_events (e ∷ events) s = on_events events (on_event e s)

abbrev pub is_failed : HealthStatus → Bool
is_failed failed = true
is_failed _ = false

abbrev pub is_degraded : HealthStatus → Bool
is_degraded degraded = true
is_degraded _ = false

abbrev pub any_status : (HealthStatus → Bool) → List (String × ServiceHealth) → Bool
any_status p [] = false
any_status p ((_, service) ∷ services) = p service.status || any_status p services

overall_from-any_status :
    (services : List (String × ServiceHealth)) (any_degraded : Bool)
    → overall_from services any_degraded ≡ (
        if any_status is_failed services
        then failed
        else if any_degraded || any_status is_degraded services
        then degraded
        else healthy)
unfolding overall_from
overall_from-any_status [] any_degraded = ground arith
overall_from-any_status ((n, service) ∷ services) any_degraded =
    ground
      (arith, overall_from-any_status services any_degraded, overall_from-any_status services true)

-- The worst status of the services.
abbrev pub worst : List (String × ServiceHealth) → HealthStatus
worst [] = unknown
worst (service ∷ services) =
    if any_status is_failed (service ∷ services)
    then failed
    else if any_status is_degraded (service ∷ services)
    then degraded
    else healthy

overall_of-worst : (services : List (String × ServiceHealth)) → overall_of services ≡ worst services
unfolding overall_of
overall_of-worst [] = refl
overall_of-worst (service ∷ services) = overall_from-any_status (service ∷ services) false

-- The overall status is unknown without services, and otherwise the worst among them.
pub overall-worst : (s : ObservabilityState) → overall s ≡ worst s.services
unfolding overall
overall-worst s = overall_of-worst s.services

abbrev pub starts_service : (name : String) → Event → Bool
starts_service name (service_started n) = n == name
starts_service name _ = false

abbrev pub fails_service : (name : String) → Event → Bool
fails_service name (service_failed n _ _) = n == name
fails_service name _ = false

abbrev pub starts_of : (name : String) → ObservabilityState → ℕ
starts_of name s = map_or 0 (λ (h : ServiceHealth). h.starts) (service_health name s)

abbrev pub failures_of : (name : String) → ObservabilityState → ℕ
failures_of name s = map_or 0 (λ (h : ServiceHealth). h.failures) (service_health name s)

-- The entries that the events set.
abbrev pub started_entry : (name : String) → ObservabilityState → ServiceHealth
started_entry n s =
    let entry = unwrap_or (lookup n s.services) (first_health n healthy) in
    record entry { status = healthy; starts = u32_saturating_suc entry.starts }

abbrev pub failed_entry :
    (name error : String) (will_restart : Bool) → ObservabilityState → ServiceHealth
failed_entry n error will_restart s =
    let entry = unwrap_or (lookup n s.services) (first_health n failed) in
    record entry {
      status = if will_restart then degraded else failed;
      failures = u32_saturating_suc entry.failures;
      last_error = some error;
    }

starts_of-on_service_stopped :
    (name n : String) (s : ObservabilityState)
    → (starts_of name (on_service_stopped n s) ≡ starts_of name s)
      × (failures_of name (on_service_stopped n s) ≡ failures_of name s)
unfolding service_health on_service_stopped
starts_of-on_service_stopped name n s =
    let there =
      lookup-adjust n name (λ (h : ServiceHealth). record h { status = healthy }) s.services in
    elim (Option-cases (lookup name s.services)) [
      | inl e ↦ (ground (arith, there, e), ground (arith, there, e))
      | inr (h, e) ↦ (ground (arith, there, e), ground (arith, there, e))
    ]

starts_of-on_event :
    (name : String) (e : Event) (s : ObservabilityState)
    → starts_of name (on_event e s)
      ≡ (if starts_service name e then min (starts_of name s + 1) u32_max else starts_of name s)
unfolding on_event service_health on_service_started on_service_stopped on_service_failed
starts_of-on_event name (service_started n) s =
    ground (arith, lookup-insert n name (started_entry n s) s.services, ==_iff n name)
starts_of-on_event name (service_stopped n) s = (starts_of-on_service_stopped name n s).0
starts_of-on_event name (service_failed n error will_restart) s =
    ground
      (arith, ==_iff n name, lookup-insert n name (failed_entry n error will_restart s) s.services)
starts_of-on_event name runtime_started s = refl
starts_of-on_event name runtime_stopping s = refl
starts_of-on_event name runtime_stopped s = refl
starts_of-on_event name task_fired s = refl
starts_of-on_event name task_completed s = refl
starts_of-on_event name task_failed s = refl
starts_of-on_event name task_retrying s = refl

failures_of-on_event :
    (name : String) (e : Event) (s : ObservabilityState)
    → failures_of name (on_event e s)
      ≡ (if fails_service name e then min (failures_of name s + 1) u32_max else failures_of name s)
unfolding on_event service_health on_service_started on_service_stopped on_service_failed
failures_of-on_event name (service_started n) s =
    ground (arith, lookup-insert n name (started_entry n s) s.services, ==_iff n name)
failures_of-on_event name (service_stopped n) s = (starts_of-on_service_stopped name n s).1
failures_of-on_event name (service_failed n error will_restart) s =
    ground
      (arith, ==_iff n name, lookup-insert n name (failed_entry n error will_restart s) s.services)
failures_of-on_event name runtime_started s = refl
failures_of-on_event name runtime_stopping s = refl
failures_of-on_event name runtime_stopped s = refl
failures_of-on_event name task_fired s = refl
failures_of-on_event name task_completed s = refl
failures_of-on_event name task_failed s = refl
failures_of-on_event name task_retrying s = refl

saturating_step :
    (a b k : ℕ) (d : Bool)
    → a ≤ u32_max
    → b ≡ (if d then min (a + 1) u32_max else a)
    → (b ≤ u32_max) × (min (b + k) u32_max ≡ min (a + ((if d then 1 else 0) + k)) u32_max)
saturating_step a b k true small step = (omega (arith, step), omega (arith, step, small))
saturating_step a b k false small step = (omega (arith, step, small), omega (arith, step))

numbers_from :
    (name : String) (events : List Event) (s : ObservabilityState)
    → starts_of name s ≤ u32_max
    → failures_of name s ≤ u32_max
    → (starts_of name (on_events events s)
        ≡ min (starts_of name s + count (starts_service name) events) u32_max)
      × (failures_of name (on_events events s)
          ≡ min (failures_of name s + count (fails_service name) events) u32_max)
numbers_from name [] s small small' = (omega (arith, small), omega (arith, small'))
numbers_from name (e ∷ events) s small small' =
    let one =
      saturating_step (starts_of name s) (starts_of name (on_event e s))
        (count (starts_service name) events) (starts_service name e) small
        (starts_of-on_event name e s) in
    let two =
      saturating_step (failures_of name s) (failures_of name (on_event e s))
        (count (fails_service name) events) (fails_service name e) small'
        (failures_of-on_event name e s) in
    let rest = numbers_from name events (on_event e s) one.0 two.0 in
    (rest.0 ∙ one.1, rest.1 ∙ two.1)

-- The numbers of a service are the numbers of its starts and failures among the events, up to
-- u32::MAX: they do not depend on the order in which the observer gets the events.
pub on_events-numbers :
    (name : String) (events : List Event)
    → (starts_of name (on_events events new_state)
        ≡ min (count (starts_service name) events) u32_max)
      × (failures_of name (on_events events new_state)
          ≡ min (count (fails_service name) events) u32_max)
unfolding new_state service_health
on_events-numbers name events =
    let starts : starts_of name new_state ≡ 0 =
      ground (arith, lookup-nil {V = ServiceHealth} name) in
    let fails : failures_of name new_state ≡ 0 =
      ground (arith, lookup-nil {V = ServiceHealth} name) in
    let both = numbers_from name events new_state (omega (arith, starts)) (omega (arith, fails)) in
    (omega (arith, both.0, starts), omega (arith, both.1, fails))
