-- ===== src/Capabilities/Rotation.antt =====
-- The weighted round-robin of crates/walastack-runtime/src/capabilities.rs against its turns: the
-- list in which each name stands as often as its weight.
use walastack_rs.Base.{
  ℕ, zero, suc, ◌+◌, ◌-◌, ◌*◌, ◌%◌, ◌≤◌, ◌<◌, String, ◌≡◌, refl, sym, ap, ◌∙◌, Option, none, some,
  List, [], ◌∷◌, ◌++◌, map, arith, ltb, if◌then◌else◌, ◌==◌, nat_keys, string_keys, length, count,
  length-append, count-append, and_then, lookup, insert, lookup-insert_self, u64_max,
}
use mathlib.Core.Path.{ap₂}
use native.Mathlib.Nat.{mod-eq_of_lt, mul-add-mod_self_right}
use mathlib.Core.List.{append_assoc}
use walastack_rs.Capabilities.Registry.{Bucket, weighted_round_robin, resolve_provider}
use walastack_rs.Capabilities.View.{
  Capabilities, total_weight, walk_weights, weighted_pick, select, get,
}

abbrev pub replicate {ℓ} : {A : Type ℓ} → ℕ → A → List A
replicate zero a = []
replicate (suc n) a = a ∷ replicate n a

abbrev pub get_elem? {ℓ} : {A : Type ℓ} → List A → ℕ → Option A
get_elem? [] i = none
get_elem? (x ∷ xs) zero = some x
get_elem? (x ∷ xs) (suc i) = get_elem? xs i

unfoldable pub turns : List (String × ℕ) → List String
turns [] = []
turns ((name, weight) ∷ rest) = replicate weight name ++ turns rest

length-replicate {ℓ} : {A : Type ℓ} (n : ℕ) (a : A) → length (replicate n a) ≡ n
length-replicate zero a = refl
length-replicate (suc n) a = ap suc (length-replicate n a)

length-turns : (ws : List (String × ℕ)) → length (turns ws) ≡ total_weight ws
unfolding turns total_weight
length-turns [] = refl
length-turns ((name, w) ∷ rest) = omega (
  arith,
  length-append (replicate w name) (turns rest),
  length-replicate w name,
  length-turns rest,
)

get_elem?-replicate_append {ℓ} :
    {A : Type ℓ} (n : ℕ) (a : A) (xs : List A) (i : ℕ)
    → get_elem? (replicate n a ++ xs) i ≡ (if ltb i n then some a else get_elem? xs (i - n))
get_elem?-replicate_append zero a xs i = ground arith
get_elem?-replicate_append (suc n) a xs zero = ground arith
get_elem?-replicate_append (suc n) a xs (suc i) =
    ground (arith, get_elem?-replicate_append n a xs i)

-- The loop resolves the name whose turn it is.
walk-turns :
    (c : ℕ) (b : Bucket) (pick : ℕ) (ws : List (String × ℕ)) (acc : ℕ)
    → acc ≤ pick
    → walk_weights c b pick ws acc
      ≡ and_then (get_elem? (turns ws) (pick - acc)) (resolve_provider c b)
unfolding walk_weights turns
walk-turns c b pick [] acc h = refl
walk-turns c b pick ((name, w) ∷ rest) acc h = ground (
  arith,
  get_elem?-replicate_append w name (turns rest) (pick - acc),
  walk-turns c b pick rest acc h,
  walk-turns c b pick rest (acc + w),
)

-- A capability with a weighted strategy whose counter stands at `k`.
pub record IsWeighted (caps : Capabilities) (c : ℕ) (b : Bucket) (ws : List (String × ℕ)) (k : ℕ)
    : Type 0 where
  pub bucket : lookup c caps.providers ≡ some b
  pub strategy : lookup c caps.strategies ≡ some (weighted_round_robin ws)
  pub counter : lookup c caps.rotation ≡ some k
  pub weighed : 0 < total_weight ws

get-weighted :
    (caps : Capabilities) (c : ℕ) (b : Bucket) (ws : List (String × ℕ)) (k : ℕ)
    → IsWeighted caps c b ws k
    → get c caps ≡ (
      and_then (get_elem? (turns ws) (k % total_weight ws)) (resolve_provider c b),
      record caps { rotation = insert c ((k + 1) % 18446744073709551616) caps.rotation },
    )
unfolding get select weighted_pick
get-weighted caps c b ws k v =
    ground
      (arith, v.bucket, v.strategy, v.counter, v.weighed, walk-turns c b (k % total_weight ws) ws 0)

IsWeighted-get :
    (caps : Capabilities) (c : ℕ) (b : Bucket) (ws : List (String × ℕ)) (k : ℕ)
    → k < u64_max
    → IsWeighted caps c b ws k
    → IsWeighted (get c caps).1 c b ws (k + 1)
IsWeighted-get caps c b ws k h v = rw (get-weighted caps c b ws k v) (record {
  bucket = v.bucket;
  strategy = v.strategy;
  counter =
      let p : (k + 1) % 18446744073709551616 ≡ k + 1 = omega arith in
      rw p (lookup-insert_self c (k + 1) caps.rotation);
  weighed = v.weighed;
})

-- The results of `n` calls of `get`, one after the other.
abbrev pub gets : (n c : ℕ) → Capabilities → List (Option ℕ)
gets zero c caps = []
gets (suc n) c caps = (get c caps).0 ∷ gets n c (get c caps).1

get_elem?-append_length {ℓ} :
    {A : Type ℓ} (xs ys : List A) (y : A) → get_elem? (xs ++ y ∷ ys) (length xs) ≡ some y
get_elem?-append_length [] ys y = refl
get_elem?-append_length (x ∷ xs) ys y = get_elem?-append_length xs ys y

gets-turns :
    (caps : Capabilities) (c : ℕ) (b : Bucket) (ws : List (String × ℕ)) (lap : ℕ)
    (done left : List String)
    → turns ws ≡ done ++ left
    → lap * total_weight ws + total_weight ws ≤ u64_max
    → IsWeighted caps c b ws (lap * total_weight ws + length done)
    → gets (length left) c caps ≡ map (resolve_provider c b) left
gets-turns caps c b ws lap done [] split h v = refl
gets-turns caps c b ws lap done (x ∷ left) split h v =
    let total = total_weight ws in
    let sizes = length-append done (x ∷ left) in
    let room : length done < total = omega (arith, length-turns ws, ap length split, sizes) in
    let pick : (lap * total + length done) % total ≡ length done =
      mul-add-mod_self_right lap total (length done) ∙ mod-eq_of_lt room in
    let now : get_elem? (turns ws) ((lap * total + length done) % total) ≡ some x =
      rw (pick, split) (get_elem?-append_length done left x) in
    let first : (get c caps).0 ≡ resolve_provider c b x =
      ap (λ r. r.0) (get-weighted caps c b ws (lap * total + length done) v)
      ∙ ap (λ o. and_then o (resolve_provider c b)) now in
    let on : lap * total + length done + 1 ≡ lap * total + length (done ++ x ∷ []) =
      omega (arith, length-append done (x ∷ [])) in
    let later =
      gets-turns (get c caps).1 c b ws lap (done ++ x ∷ []) left
        (split ∙ sym (append_assoc done (x ∷ []) left)) h
        (rw on at (IsWeighted-get caps c b ws (lap * total + length done) (omega arith) v)) in
    ap₂ ◌∷◌ first later

-- The weight of a name, over all its entries.
abbrev weight_of : String → List (String × ℕ) → ℕ
weight_of name [] = 0
weight_of name ((n, w) ∷ rest) = (if n == name then w else 0) + weight_of name rest

count-replicate :
    (name n : String) (w : ℕ)
    → count (λ m. m == name) (replicate w n) ≡ (if n == name then w else 0)
count-replicate name n zero = ground arith
count-replicate name n (suc w) = ground (arith, count-replicate name n w)

count-turns :
    (name : String) (ws : List (String × ℕ)) → count (λ m. m == name) (turns ws) ≡ weight_of name ws
unfolding turns
count-turns name [] = refl
count-turns name ((n, w) ∷ rest) = omega (
  arith,
  count-append (λ m. m == name) (replicate w n) (turns rest),
  count-replicate name n w,
  count-turns name rest,
)

-- One lap of the rotation: from a counter at a multiple of the total weight, as many calls of `get`
-- as the total weight resolve the names in the order of their entries, each as often as its
-- weights say; a name with no provider gives nothing at its turns. The 64-bit counter does not
-- wrap within the lap.
pub gets_lap :
    (caps : Capabilities) (c : ℕ) (b : Bucket) (ws : List (String × ℕ)) (lap : ℕ) (name : String)
    → lap * total_weight ws + total_weight ws ≤ u64_max
    → IsWeighted caps c b ws (lap * total_weight ws)
    → (gets (total_weight ws) c caps ≡ map (resolve_provider c b) (turns ws))
      × (count (λ n. n == name) (turns ws) ≡ weight_of name ws)
gets_lap caps c b ws lap name h v =
    let start : lap * total_weight ws ≡ lap * total_weight ws + 0 = omega arith in
    (
      ap (λ n. gets n c caps) (sym (length-turns ws))
          ∙ gets-turns caps c b ws lap [] (turns ws) refl h (rw start at v),
      count-turns name ws,
    )
