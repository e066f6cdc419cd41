-- ===== src/Capabilities/View.antt =====
-- crates/walastack-runtime/src/capabilities.rs: `build`, and the frozen `Capabilities`. The only
-- state of the view is the rotation counter of each weighted capability, which `get` advances.
use walastack_rs.Base.{
  ℕ, ◌+◌, ◌%◌, String, Bool, false, not, Option, none, some, List, [], ◌∷◌, ltb, nat_eq,
  if◌then◌else◌, ◌==◌, nat_keys, string_keys, length, map_or, unwrap_or, lookup, insert,
}
use walastack_rs.Capabilities.Registry.{
  Bucket, SelectionStrategy, single, fallback, weighted_round_robin, CapabilityRegistry,
  default_name, resolve_provider, named, has_named, names, total_len, all_empty,
}

pub record Capabilities : Type 0 where
  pub providers : List (ℕ × Bucket)
  pub strategies : List (ℕ × SelectionStrategy)
  pub rotation : List (ℕ × ℕ)  -- AtomicUsize, 64 bits

unfoldable pub empty : Capabilities
empty = record { providers = []; strategies = []; rotation = [] }

-- A counter for each weighted strategy.
unfoldable pub counters : List (ℕ × SelectionStrategy) → List (ℕ × ℕ)
counters [] = []
counters ((c, weighted_round_robin _) ∷ rest) = insert c 0 (counters rest)
counters ((c, _) ∷ rest) = counters rest

unfoldable pub build : CapabilityRegistry → Capabilities
unfolding counters
build r = record {
  providers = r.providers;
  strategies = r.strategies;
  rotation = counters r.strategies;
}

unfoldable pub total_weight : List (String × ℕ) → ℕ
total_weight [] = 0
total_weight ((_, w) ∷ rest) = w + total_weight rest

-- The loop over the weights.
unfoldable pub walk_weights :
    (type_id : ℕ) → Bucket → (pick : ℕ) → List (String × ℕ) → (accumulated : ℕ) → Option ℕ
unfolding resolve_provider
walk_weights c bucket pick [] accumulated = none
walk_weights c bucket pick ((name, weight) ∷ rest) accumulated =
    let skip = walk_weights c bucket pick rest accumulated in
    let onward = walk_weights c bucket pick rest (accumulated + weight) in
    if weight == 0
    then skip
    else if ltb pick (accumulated + weight)
    then resolve_provider c bucket name
    else onward

unfoldable pub weighted_pick :
    Capabilities → (type_id : ℕ) → Bucket → List (String × ℕ) → Option ℕ × Capabilities
weighted_pick caps c bucket weights =
    let total = total_weight weights in
    if total == 0 then (none, caps) else elim (lookup c caps.rotation) [
      | none ↦ (none, caps)
      | some counter ↦ (
        walk_weights c bucket (counter % total) weights 0,
        record caps { rotation = insert c ((counter + 1) % 18446744073709551616) caps.rotation },
      )
    ]

-- `find_map` over a fallback chain.
unfoldable pub first_resolved : (type_id : ℕ) → Bucket → List String → Option ℕ
first_resolved c bucket [] = none
first_resolved c bucket (name ∷ chain) = elim (resolve_provider c bucket name) [
  | some p ↦ some p
  | none ↦ first_resolved c bucket chain
]

unfoldable pub select :
    Capabilities → (type_id : ℕ) → Bucket → SelectionStrategy → Option ℕ × Capabilities
unfolding first_resolved weighted_pick
select caps c bucket single = (resolve_provider c bucket default_name, caps)
select caps c bucket (fallback chain) = (first_resolved c bucket chain, caps)
select caps c bucket (weighted_round_robin weights) = weighted_pick caps c bucket weights

unfoldable pub get : (type_id : ℕ) → Capabilities → Option ℕ × Capabilities
get c caps = elim (lookup c caps.providers) [
  | none ↦ (none, caps)
  | some bucket ↦ select caps c bucket (unwrap_or (lookup c caps.strategies) single)
]

unfoldable pub get_named : Capabilities → (type_id : ℕ) → String → Option ℕ
unfolding named
get_named caps c name = named caps.providers c name

-- `contains` and `contains_typed_name`.
unfoldable pub contains : Capabilities → (type_id : ℕ) → String → Bool
unfolding has_named
contains caps c name = has_named caps.providers c name

unfoldable pub contains_type : Capabilities → (type_id : ℕ) → Bool
contains_type caps c =
    map_or false (λ bucket. not (nat_eq (length bucket) 0)) (lookup c caps.providers)

unfoldable pub provider_names : Capabilities → (type_id : ℕ) → List String
unfolding names
provider_names caps c = names caps.providers c

unfoldable pub view_len : Capabilities → ℕ
unfolding total_len
view_len caps = total_len caps.providers

unfoldable pub view_is_empty : Capabilities → Bool
unfolding all_empty
view_is_empty caps = all_empty caps.providers
