-- ===== src/Kernel/Resources.antt =====
-- crates/walastack-runtime/src/resources.rs: `ResourceRegistry` and the frozen `Resources`. A
-- `TypeId` and an `Arc` go by a number; an erased resource keeps the type that it was stored under.
use walastack_rs.Base.{
  ℕ, ◌+◌, ◌≡◌, refl, inl, inr, Bool, Option, none, some, List, [], arith, if◌then◌else◌, nat_eq_iff,
  Option-cases, ◌==◌, nat_keys, string_keys, length, All, is_some, and_then, lookup, insert,
  lookup-insert, length-insert, All-insert, All-lookup,
}

pub record ErasedResource : Type 0 where
  pub type_id : ℕ
  pub value : ℕ

pub record ResourceRegistry : Type 0 where
  pub entries : List (ℕ × ErasedResource)

pub record Resources : Type 0 where
  pub entries : List (ℕ × ErasedResource)

unfoldable pub new_resources : ResourceRegistry
new_resources = record { entries = [] }

unfoldable pub downcast_arc : (type_id : ℕ) → ErasedResource → Option ℕ
downcast_arc ty erased = if erased.type_id == ty then some erased.value else none

-- `insert_arc`, and `insert`, which wraps the value and calls it. It returns what it replaces.
unfoldable pub insert_arc : (type_id value : ℕ) → ResourceRegistry → Option ℕ × ResourceRegistry
unfolding downcast_arc
insert_arc ty value r = (
  and_then (lookup ty r.entries) (downcast_arc ty),
  record { entries = insert ty (record { type_id = ty; value = value }) r.entries },
)

unfoldable pub get_in : (type_id : ℕ) → ResourceRegistry → Option ℕ
unfolding downcast_arc
get_in ty r = and_then (lookup ty r.entries) (downcast_arc ty)

unfoldable pub contains_in : (type_id : ℕ) → ResourceRegistry → Bool
contains_in ty r = is_some (lookup ty r.entries)

unfoldable pub registry_len : ResourceRegistry → ℕ
registry_len r = length r.entries

unfoldable pub build : ResourceRegistry → Resources
build r = record { entries = r.entries }

unfoldable pub get : (type_id : ℕ) → Resources → Option ℕ
unfolding downcast_arc
get ty r = and_then (lookup ty r.entries) (downcast_arc ty)

unfoldable pub contains : (type_id : ℕ) → Resources → Bool
contains ty r = is_some (lookup ty r.entries)

unfoldable pub len : Resources → ℕ
len r = length r.entries

-- The registries that insertions lead to.
pub data Filled : ResourceRegistry → Type 0 where
  nothing : Filled new_resources
  inserted : {r : ResourceRegistry} (ty value : ℕ) → Filled r → Filled (insert_arc ty value r).1

abbrev IsTyped : ℕ × ErasedResource → Type 0
IsTyped (ty, e) = e.type_id ≡ ty

Filled-IsTyped : {r : ResourceRegistry} → Filled r → All IsTyped r.entries
unfolding new_resources insert_arc
Filled-IsTyped nothing = tt
Filled-IsTyped (inserted {r} ty value f) = All-insert IsTyped ty _ r.entries refl (Filled-IsTyped f)

get_in-contains_in :
    (ty : ℕ) (r : ResourceRegistry) → Filled r → is_some (get_in ty r) ≡ contains_in ty r
unfolding get_in contains_in
get_in-contains_in ty r f = elim (Option-cases (lookup ty r.entries)) [
  | inl e ↦ rw e
  | inr (x, e) ↦
      ground
        (arith, nat_eq_iff x.type_id ty, All-lookup IsTyped ty x r.entries (Filled-IsTyped f) e)
]

-- In a registry filled by any insertions, an insertion returns the resource of that type that was
-- there, the frozen view then gives the new one for the type and the old one for every other type,
-- a type is contained exactly if it gives a resource, and the count grows by one for a new type only.
pub insert_arc-build :
    (r : ResourceRegistry) (ty other value : ℕ)
    → Filled r
    → let (previous, r') = insert_arc ty value r in
      (previous ≡ get ty (build r))
      × (get other (build r') ≡ (if ty == other then some value else get other (build r)))
      × (is_some (get other (build r')) ≡ contains other (build r'))
      × (len (build r') ≡ len (build r) + (if contains ty (build r) then 0 else 1))
unfolding insert_arc build get contains len get_in contains_in
insert_arc-build r ty other value f = (
  refl,
  ground (
    arith,
    lookup-insert ty other (record { type_id = ty; value = value }) r.entries,
    nat_eq_iff ty other,
    nat_eq_iff ty ty,
  ),
  get_in-contains_in other (insert_arc ty value r).1 (inserted ty value f),
  length-insert ty _ r.entries,
)
