-- ===== src/Capabilities/Registry.antt =====
-- crates/walastack-runtime/src/capabilities.rs: `CapabilityRegistry`. A `TypeId` and an `Arc` go by
-- a number; an erased provider keeps the `TypeId` that it was stored under, which `downcast` tests.
use walastack_rs.Base.{
  ℕ, ◌+◌, String, Bool, true, false, ◌&&◌, Option, none, some, List, [], ◌∷◌, map, nat_eq,
  if◌then◌else◌, ◌==◌, nat_keys, string_keys, length, is_some, map_or, and_then, unwrap_or, lookup,
  insert,
}

pub record ErasedProvider : Type 0 where
  pub type_id : ℕ
  pub provider : ℕ

abbrev pub Bucket : Type 0
Bucket = List (String × ErasedProvider)

pub data SelectionStrategy : Type 0 where
  single : SelectionStrategy
  fallback : List String → SelectionStrategy
  weighted_round_robin : List (String × ℕ) → SelectionStrategy  -- u32 weights

pub record CapabilityRegistry : Type 0 where
  pub providers : List (ℕ × Bucket)
  pub strategies : List (ℕ × SelectionStrategy)

abbrev pub default_name : String
default_name = "default"

unfoldable pub new_registry : CapabilityRegistry
new_registry = record { providers = []; strategies = [] }

unfoldable pub store_provider : (type_id provider : ℕ) → ErasedProvider
store_provider c provider = record { type_id = c; provider = provider }

-- `downcast::<Arc<C>>().ok()`.
unfoldable pub retrieve_provider : (type_id : ℕ) → ErasedProvider → Option ℕ
retrieve_provider c erased = if erased.type_id == c then some erased.provider else none

unfoldable pub resolve_provider : (type_id : ℕ) → Bucket → String → Option ℕ
unfolding retrieve_provider
resolve_provider c bucket name = and_then (lookup name bucket) (retrieve_provider c)

-- `register` returns the provider that it replaces.
unfoldable pub register :
    (type_id : ℕ) → String → (provider : ℕ) → CapabilityRegistry → Option ℕ × CapabilityRegistry
unfolding store_provider retrieve_provider
register c name provider r =
    let bucket = unwrap_or (lookup c r.providers) [] in
    let previous = lookup name bucket in
    (
      and_then previous (retrieve_provider c),
      record r {
        providers = insert c (insert name (store_provider c provider) bucket) r.providers;
      },
    )

unfoldable pub register_default :
    (type_id provider : ℕ) → CapabilityRegistry → Option ℕ × CapabilityRegistry
unfolding register
register_default c provider r = register c default_name provider r

unfoldable pub set_strategy :
    (type_id : ℕ) → SelectionStrategy → CapabilityRegistry → CapabilityRegistry
set_strategy c strategy r = record r { strategies = insert c strategy r.strategies }

-- The map operations that the registry and the frozen view share.
unfoldable pub named : List (ℕ × Bucket) → (type_id : ℕ) → String → Option ℕ
unfolding resolve_provider
named providers c name = and_then (lookup c providers) (λ bucket. resolve_provider c bucket name)

unfoldable pub has_named : List (ℕ × Bucket) → (type_id : ℕ) → String → Bool
has_named providers c name =
    map_or false (λ bucket. is_some (lookup name bucket)) (lookup c providers)

unfoldable pub names : List (ℕ × Bucket) → (type_id : ℕ) → List String
names providers c = map_or [] (λ bucket. map (λ e. e.0) bucket) (lookup c providers)

unfoldable pub total_len : List (ℕ × Bucket) → ℕ
total_len [] = 0
total_len ((_, bucket) ∷ rest) = length bucket + total_len rest

unfoldable pub all_empty : List (ℕ × Bucket) → Bool
all_empty [] = true
all_empty ((_, bucket) ∷ rest) = nat_eq (length bucket) 0 && all_empty rest

-- `get_named`, `get`, `contains`, `providers`, `len` and `is_empty` of the registry.
unfoldable pub registered : CapabilityRegistry → (type_id : ℕ) → String → Option ℕ
unfolding named
registered r c name = named r.providers c name

unfoldable pub registered_default : CapabilityRegistry → (type_id : ℕ) → Option ℕ
unfolding registered
registered_default r c = registered r c default_name

unfoldable pub is_registered : CapabilityRegistry → (type_id : ℕ) → String → Bool
unfolding has_named
is_registered r c name = has_named r.providers c name

unfoldable pub registered_names : CapabilityRegistry → (type_id : ℕ) → List String
unfolding names
registered_names r c = names r.providers c

unfoldable pub len : CapabilityRegistry → ℕ
unfolding total_len
len r = total_len r.providers

unfoldable pub is_empty : CapabilityRegistry → Bool
unfolding all_empty
is_empty r = all_empty r.providers
