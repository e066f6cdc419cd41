-- ===== src/Base/Maps.antt =====
-- `HashMap` and `BTreeMap` as association lists with one entry a key, the entry of a key found by
-- its first occurrence. `insert` overwrites in place, `remove` deletes, `adjust` is `get_mut`.
use Prim.Native.Nat.{◌+◌}
use mathlib.Core.Path.{◌≡◌, refl, sym, ◌∙◌}
use mathlib.Core.Logic.{inl, inr}
use mathlib.Core.Bool.{Bool, true, false, ◌&&◌}
use mathlib.Core.Option.{Option, none, some}
use mathlib.Core.List.{List, [], ◌∷◌}
use native.Mathlib.Omega.{arith}
use walastack_rs.Base.Tests.{if◌then◌else◌, Key, ◌==◌, ==_iff, Option-cases}
use walastack_rs.Base.Lists.{length, All}

abbrev pub is_some {ℓ} : {A : Type ℓ} → Option A → Bool
is_some none = false
is_some (some _) = true

abbrev pub map_or {ℓ κ} : {A : Type ℓ} {B : Type κ} → B → (A → B) → Option A → B
map_or b f none = b
map_or b f (some a) = f a

-- `Option::and_then`.
abbrev pub and_then {ℓ κ} : {A : Type ℓ} {B : Type κ} → Option A → (A → Option B) → Option B
and_then none f = none
and_then (some a) f = f a

abbrev pub option_map {ℓ κ} : {A : Type ℓ} {B : Type κ} → (A → B) → Option A → Option B
option_map f none = none
option_map f (some a) = some (f a)

abbrev pub unwrap_or {ℓ} : {A : Type ℓ} → Option A → A → A
unwrap_or none d = d
unwrap_or (some a) d = a

pub option_map-some {ℓ κ} :
    {A : Type ℓ} {B : Type κ} (f : A → B) (o : Option A) (b : B)
    → option_map f o ≡ some b
    → (a : A) × (o ≡ some a) × (b ≡ f a)
option_map-some f none b done = absurd (cc done)
option_map-some f (some a) b done = (a, refl, cc done)

-- `Option::or`, and `or_else` with a value that is at hand.
abbrev pub or_else {ℓ} : {A : Type ℓ} → Option A → Option A → Option A
or_else (some a) other = some a
or_else none other = other

module _ {ℓ κ} {K : Type ℓ} {V : Type κ} ⦃e : Key K⦄ where
  unfoldable pub lookup : K → List (K × V) → Option V
  lookup key [] = none
  lookup key ((at, value) ∷ rest) = if at == key then some value else lookup key rest

  unfoldable pub insert : K → V → List (K × V) → List (K × V)
  insert key value [] = (key, value) ∷ []
  insert key value ((at, old) ∷ rest) =
      if at == key then (key, value) ∷ rest else (at, old) ∷ insert key value rest

  unfoldable pub remove : K → List (K × V) → List (K × V)
  remove k [] = []
  remove k ((j, w) ∷ m) = if j == k then remove k m else (j, w) ∷ remove k m

  unfoldable pub adjust : K → (V → V) → List (K × V) → List (K × V)
  adjust k f [] = []
  adjust k f ((j, w) ∷ m) = if j == k then (j, f w) ∷ m else (j, w) ∷ adjust k f m

  pub lookup-nil : (k : K) → ◌≡◌ {A = Option V} (lookup k []) none
  unfolding lookup
  lookup-nil k = refl

  pub lookup-insert :
      (key other : K) (value : V) (map : List (K × V))
      → lookup other (insert key value map)
        ≡ (if key == other then some value else lookup other map)
  unfolding lookup insert
  lookup-insert key other value [] = refl
  lookup-insert key other value ((at, old) ∷ rest) =
      ground (
        arith,
        lookup-insert key other value rest,
        ==_iff at other,
        ==_iff key other,
        ==_iff at key,
      )

  pub lookup-insert_self : (k : K) (v : V) (m : List (K × V)) → lookup k (insert k v m) ≡ some v
  lookup-insert_self k v m = ground (arith, lookup-insert k k v m, ==_iff k k)

  pub lookup-remove :
      (k j : K) (m : List (K × V)) → lookup j (remove k m) ≡ (if k == j then none else lookup j m)
  unfolding lookup remove
  lookup-remove k j [] = ground arith
  lookup-remove k j ((i, w) ∷ m) =
      ground (arith, ==_iff k j, ==_iff i k, ==_iff i j, lookup-remove k j m)

  pub lookup-adjust :
      (k j : K) (f : V → V) (m : List (K × V))
      → lookup j (adjust k f m) ≡ (if k == j then option_map f (lookup j m) else lookup j m)
  unfolding lookup adjust
  lookup-adjust k j f [] = ground arith
  lookup-adjust k j f ((i, w) ∷ m) =
      ground (arith, ==_iff k j, ==_iff i k, ==_iff i j, lookup-adjust k j f m)

  -- Where an entry comes from after an adjustment.
  pub lookup-adjust-some :
      (k j : K) (f : V → V) (m : List (K × V)) (x : V)
      → lookup j (adjust k f m) ≡ some x
      → (y : V) × (lookup j m ≡ some y) × (x ≡ (if k == j then f y else y))
  lookup-adjust-some k j f m x e =
      let p : (if k == j then option_map f (lookup j m) else lookup j m) ≡ some x =
        sym (lookup-adjust k j f m) ∙ e in
      elim (Option-cases (lookup j m)) [
        | inl l ↦ absurd (ground arith)
        | inr (y, l) ↦ (y, l, ground arith)
      ]

  -- A test that the change does not turn.
  pub lookup-adjust_test :
      (k j : K) (f : V → V) (p : V → Bool) (m : List (K × V))
      → ((v : V) → p (f v) ≡ p v)
      → map_or false p (lookup j (adjust k f m)) ≡ map_or false p (lookup j m)
  lookup-adjust_test k j f p m same = elim (Option-cases (lookup j m)) [
    | inl l ↦ ground (arith, lookup-adjust k j f m)
    | inr (y, l) ↦ ground (arith, lookup-adjust k j f m, same y)
  ]

  -- A new key adds one entry, a known key none.
  pub length-insert :
      (k : K) (v : V) (m : List (K × V))
      → length (insert k v m) ≡ length m + (if is_some (lookup k m) then 0 else 1)
  unfolding lookup insert
  length-insert k v [] = refl
  length-insert k v ((i, w) ∷ m) = ground (arith, length-insert k v m)

  pub All-insert {μ} :
      (P : K × V → Type μ) (k : K) (v : V) (m : List (K × V))
      → P (k, v)
      → All P m
      → All P (insert k v m)
  unfolding insert
  All-insert P k v [] p h = (p, tt)
  All-insert P k v ((i, w) ∷ m) p h = ground (arith, All-insert P k v m p h.1)

  pub All-remove {μ} :
      (P : K × V → Type μ) (k : K) (m : List (K × V)) → All P m → All P (remove k m)
  unfolding remove
  All-remove P k [] h = tt
  All-remove P k ((i, w) ∷ m) h = ground (arith, All-remove P k m h.1)

  pub All-lookup {μ} :
      (P : K × V → Type μ) (k : K) (v : V) (m : List (K × V))
      → All P m
      → lookup k m ≡ some v
      → P (k, v)
  unfolding lookup
  All-lookup P k v [] h e = absurd (cc)
  All-lookup P k v ((i, w) ∷ m) h e = ground (arith, ==_iff i k, All-lookup P k v m h.1)

-- A map of maps, with an entry set in the map of a key, which may be new.
module _ {ℓ κ μ} {K : Type ℓ} {J : Type κ} {V : Type μ} ⦃e : Key K⦄ ⦃f : Key J⦄ where
  pub lookup-insert_nested :
      (key at : K) (name other : J) (value : V) (maps : List (K × List (J × V)))
      → and_then
          (lookup at (insert key (insert name value (unwrap_or (lookup key maps) [])) maps))
          (lookup other)
        ≡ (if (key == at) && (name == other)
            then some value
            else and_then (lookup at maps) (lookup other))
  lookup-insert_nested key at name other value maps = ground (
    arith,
    lookup-insert key at (insert name value (unwrap_or (lookup key maps) [])) maps,
    lookup-insert name other value (unwrap_or (lookup key maps) []),
    lookup-nil {V = V} other,
    ==_iff key at,
  )
