-- ===== src/Capabilities/Examples.antt =====
-- Runs of the model of crates/walastack-runtime/src/capabilities.rs on small inputs.
use walastack_rs.Base.{
  ℕ, String, ◌≡◌, refl, some, List, [], ◌∷◌, arith, ◌==◌, nat_keys, string_keys, count, lookup,
  insert,
}
use walastack_rs.Capabilities.Registry.{
  CapabilityRegistry, weighted_round_robin, new_registry, register, set_strategy, store_provider,
  resolve_provider,
}
use walastack_rs.Capabilities.View.{Capabilities, build, total_weight}
use walastack_rs.Capabilities.Rotation.{gets, turns, gets_lap}

abbrev one_store : CapabilityRegistry
one_store = (register 7 "redis" 20 new_registry).1

abbrev two_stores : CapabilityRegistry
two_stores = (register 7 "sqlite" 10 one_store).1

-- The weights of `sqlite` and `redis` are 2 and 1.
abbrev weights : List (String × ℕ)
weights = ("sqlite", 2) ∷ ("redis", 1) ∷ []

abbrev weighted_stores : Capabilities
weighted_stores = build (set_strategy 7 (weighted_round_robin weights) two_stores)

gets_lap_example :
    (gets 3 7 weighted_stores ≡ some 10 ∷ some 10 ∷ some 20 ∷ [])
    × (count (λ n. n == "sqlite") (turns weights) ≡ 2)
unfolding new_registry register set_strategy build total_weight resolve_provider turns lookup insert
gets_lap_example =
    gets_lap weighted_stores 7
      (("redis", store_provider 7 20) ∷ ("sqlite", store_provider 7 10) ∷ []) weights 0 "sqlite"
      (omega arith)
      (record { bucket = refl; strategy = refl; counter = refl; weighed = omega arith })
