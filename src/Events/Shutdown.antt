-- ===== src/Events/Shutdown.antt =====
-- How often `RuntimeStopping` is sent, in crates/walastack-runtime/src/events.rs.
use walastack_rs.Base.{
  ℕ, ◌+◌, ◌≡◌, refl, ap, ◌∙◌, true, false, Option, List, [], ◌∷◌, arith, nat_eq, nat_keys,
  string_keys, count,
}
use walastack_rs.Events.{EventBus, runtime_stopping, flip_and_publish, shutdown}

-- The sends of `RuntimeStopping`.
abbrev pub stoppings : EventBus → ℕ
stoppings bus = count (λ e. nat_eq e.1 runtime_stopping) bus.sent

abbrev pub shutdowns : List (Option ℕ) → EventBus → EventBus
shutdowns [] bus = bus
shutdowns (a ∷ rest) bus = shutdowns rest (shutdown a bus)

flip_lem :
    (answer : Option ℕ) (bus : EventBus)
    → ((flip_and_publish answer bus).shut_down ≡ true)
      × (stoppings (flip_and_publish answer bus) ≡ stoppings bus + 1)
unfolding flip_and_publish
flip_lem answer bus = ground arith

shutdown_down : (a : Option ℕ) (bus : EventBus) → bus.shut_down ≡ true → shutdown a bus ≡ bus
unfolding shutdown
shutdown_down a bus h = ground arith

shutdowns_down :
    (more : List (Option ℕ)) (bus : EventBus) → bus.shut_down ≡ true → shutdowns more bus ≡ bus
shutdowns_down [] bus h = refl
shutdowns_down (a ∷ more) bus h =
    ap (shutdowns more) (shutdown_down a bus h) ∙ shutdowns_down more bus h

-- Calls of `shutdown` one after the other are idempotent: any number of them, at least one, on a bus
-- that is up leaves it down with exactly one `RuntimeStopping` sent, whatever tokio answers.
pub shutdown_idempotent :
    (a : Option ℕ) (more : List (Option ℕ)) (bus : EventBus)
    → bus.shut_down ≡ false
    → ((shutdowns (a ∷ more) bus).shut_down ≡ true)
      × (stoppings (shutdowns (a ∷ more) bus) ≡ stoppings bus + 1)
shutdown_idempotent a more bus up =
    let one : shutdown a bus ≡ flip_and_publish a bus = unfold shutdown in rw up in
    let flip = flip_lem a bus in
    let down = rw (← one) at flip in rw (shutdowns_down more (shutdown a bus) down.0) down

-- Two threads that both read the flag before either flips it both send: `RuntimeStopping` comes
-- twice, though each call alone sends it once.
pub shutdown_races :
    (a b : Option ℕ) (bus : EventBus)
    → bus.shut_down ≡ false
    → (stoppings (flip_and_publish b (flip_and_publish a bus)) ≡ stoppings bus + 2)
      × (shutdown a bus ≡ flip_and_publish a bus)
      × (shutdown b bus ≡ flip_and_publish b bus)
unfolding shutdown
shutdown_races a b bus up =
    (omega (arith, (flip_lem a bus).1, (flip_lem b (flip_and_publish a bus)).1), rw up, rw up)
