-- ===== src/Capabilities/Lookup.antt =====
-- What is registered is what the view of crates/walastack-runtime/src/capabilities.rs resolves.
use walastack_rs.Base.{
  ℕ, String, ◌≡◌, refl, ◌⊎◌, inl, inr, ◌&&◌, Option, none, some, List, [], ◌∷◌, map, arith,
  if◌then◌else◌, nat_eq_iff, Option-cases, ◌==◌, nat_keys, string_keys, All, is_some, and_then,
  unwrap_or, lookup, insert, lookup-insert, All-insert, All-lookup, lookup-nil,
}
use walastack_rs.Capabilities.Registry.{
  ErasedProvider, Bucket, SelectionStrategy, single, fallback, CapabilityRegistry, default_name,
  new_registry, store_provider, resolve_provider, register, set_strategy, named, has_named,
  registered, is_registered,
}
use walastack_rs.Capabilities.View.{
  Capabilities, build, first_resolved, select, get, get_named, contains,
}

-- A provider stands in the bucket of its own type.
abbrev IsTypedBucket : ℕ × Bucket → Type 0
IsTypedBucket (c, bucket) = All (λ e. e.1.type_id ≡ c) bucket

abbrev pub IsTyped : List (ℕ × Bucket) → Type 0
IsTyped = All IsTypedBucket

-- Registering overwrites the provider of that name and type, returns the one that stood there, and
-- leaves every other name and type alone; the strategies stay as they were.
pub registered-register :
    (r : CapabilityRegistry) (c d provider : ℕ) (name other : String)
    → let (previous, r') = register c name provider r in
      (previous ≡ registered r c name)
      × (registered r' d other
          ≡ (if (c == d) && (name == other) then some provider else registered r d other))
      × (r'.strategies ≡ r.strategies)
unfolding register registered
registered-register r c d provider name other = (
  ground (arith, lookup-nil {V = ErasedProvider} name),
  ground (
    arith,
    lookup-insert c d
        (insert name (store_provider c provider) (unwrap_or (lookup c r.providers) [])) r.providers,
    lookup-insert name other (store_provider c provider) (unwrap_or (lookup c r.providers) []),
    lookup-nil {V = ErasedProvider} other,
    nat_eq_iff c d,
  ),
  refl,
)

register-IsTyped :
    (r : CapabilityRegistry) (c provider : ℕ) (name : String)
    → IsTyped r.providers
    → IsTyped (register c name provider r).1.providers
unfolding register
register-IsTyped r c provider name h =
    All-insert IsTypedBucket c _ r.providers
      (All-insert (λ e. e.1.type_id ≡ c) name _ (unwrap_or (lookup c r.providers) []) refl bucket) h
  where
    bucket : All (λ e. e.1.type_id ≡ c) (unwrap_or (lookup c r.providers) [])
    bucket = elim (Option-cases (lookup c r.providers)) [
      | inl e ↦ rw e tt
      | inr (b, e) ↦ rw e (All-lookup IsTypedBucket c b r.providers h e)
    ]

-- The registries that calls of `register` and `set_strategy` lead to from the empty one.
pub data Built : CapabilityRegistry → Type 0 where
  none_yet : Built new_registry
  registers :
      {r : CapabilityRegistry} (c provider : ℕ) (name : String)
      → Built r
      → Built (register c name provider r).1
  sets :
      {r : CapabilityRegistry} (c : ℕ) (s : SelectionStrategy)
      → Built r
      → Built (set_strategy c s r)

pub Built-IsTyped : {r : CapabilityRegistry} → Built r → IsTyped r.providers
unfolding new_registry set_strategy
Built-IsTyped none_yet = tt
Built-IsTyped (registers {r} c provider name b) =
    register-IsTyped r c provider name (Built-IsTyped b)
Built-IsTyped (sets c s b) = Built-IsTyped b

resolve-is_some :
    (c : ℕ) (b : Bucket) (name : String)
    → All (λ e. e.1.type_id ≡ c) b
    → is_some (resolve_provider c b name) ≡ is_some (lookup name b)
unfolding resolve_provider
resolve-is_some c b name h = elim (Option-cases (lookup name b)) [
  | inl e ↦ rw (e, and_then) refl
  | inr (p, e) ↦
      let typed = All-lookup (λ (x : String × ErasedProvider). x.1.type_id ≡ c) name p b h e in
      ground (arith, nat_eq_iff p.type_id c)
]

-- In a registry built by any calls, and in the view frozen from it, a name is contained exactly if
-- it resolves: no downcast fails. The view resolves what the registry holds.
pub contains-get_named :
    (r : CapabilityRegistry) (c : ℕ) (name : String)
    → Built r
    → (get_named (build r) c name ≡ registered r c name)
      × (is_some (get_named (build r) c name) ≡ contains (build r) c name)
      × (is_some (registered r c name) ≡ is_registered r c name)
unfolding get_named build contains registered is_registered
contains-get_named r c name b = (refl, both, both)
  where
    both : is_some (named r.providers c name) ≡ has_named r.providers c name
    both = elim (Option-cases (lookup c r.providers)) [
      | inl e ↦ rw e
      | inr (k, e) ↦
          rw e (
            resolve-is_some c k name (All-lookup IsTypedBucket c k r.providers (Built-IsTyped b) e))
    ]

-- The first provider of a list of lookups.
abbrev first_some : List (Option ℕ) → Option ℕ
first_some [] = none
first_some (some p ∷ _) = some p
first_some (none ∷ rest) = first_some rest

first_resolved-first_some :
    (f : String → Option ℕ) (c : ℕ) (b : Bucket) (chain : List String)
    → ((n : String) → f n ≡ resolve_provider c b n)
    → first_resolved c b chain ≡ first_some (map f chain)
unfolding first_resolved
first_resolved-first_some f c b [] h = refl
first_resolved-first_some f c b (n ∷ chain) h =
    ground (arith, h n, first_resolved-first_some f c b chain h)

first_some-none :
    (f : String → Option ℕ) (chain : List String)
    → ((n : String) → f n ≡ none)
    → first_some (map f chain) ≡ none
first_some-none f [] h = refl
first_some-none f (n ∷ chain) h = rw (h n) (first_some-none f chain h)

-- Under a fallback chain `get` resolves the first name of the chain that `get_named` resolves, and
-- nothing if there is none; no strategy, or `Single`, is the chain of the name `default` alone. The
-- view stays as it was.
pub get-fallback :
    (caps : Capabilities) (c : ℕ) (chain : List String)
    → (lookup c caps.strategies ≡ some (fallback chain))
      ⊎ ((unwrap_or (lookup c caps.strategies) single ≡ single) × (chain ≡ default_name ∷ []))
    → get c caps ≡ (first_some (map (get_named caps c) chain), caps)
unfolding get select named get_named lookup
get-fallback caps c chain h = elim (Option-cases (lookup c caps.providers)) [
  | inl e ↦
      let unnamed =
        first_some-none (get_named caps c) chain
          (λ n. let p : named caps.providers c n ≡ none = rw (e, named) in p) in
      ground (arith, unnamed)
  | inr (b, e) ↦
      let resolves =
        first_resolved-first_some (get_named caps c) c b chain
          (λ n. let p : named caps.providers c n ≡ resolve_provider c b n = rw (e, named) in p) in
      ground (arith, resolves)
]
