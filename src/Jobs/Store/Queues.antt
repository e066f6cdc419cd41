-- ===== src/Jobs/Store/Queues.antt =====
-- The queues of the in-memory store of crates/walastack-jobs/src/lib.rs.
use walastack_rs.Base.{
  ℕ, zero, suc, String, ◌≡◌, refl, ap, ◌∙◌, ◌≢◌, ◌⊎◌, inl, inr, true, false, none, some, List, [],
  ◌∷◌, ◌++◌, arith, if◌then◌else◌, nat_eq_iff, Bool-cases, Option-cases, ◌==◌, nat_keys,
  string_keys, has, map_or, unwrap_or, lookup, adjust, lookup-insert, lookup-adjust,
}
use walastack_rs.Jobs.Store.{JobRecord, push_back, is_eligible, find_eligible, remove_at}

-- The ids that wait in a queue.
abbrev pub queue_of : String → List (String × List ℕ) → List ℕ
queue_of queue queues = unwrap_or (lookup queue queues) []

pub queue_of-push_back :
    (queue other : String) (id : ℕ) (qs : List (String × List ℕ))
    → queue_of other (push_back queue id qs)
      ≡ (if queue == other then queue_of queue qs ++ id ∷ [] else queue_of other qs)
unfolding push_back
queue_of-push_back queue other id qs =
    ground (arith, lookup-insert queue other (queue_of queue qs ++ id ∷ []) qs)

pub queue_of-adjust :
    (queue other : String) (f : List ℕ → List ℕ) (qs : List (String × List ℕ))
    → f [] ≡ []
    → queue_of other (adjust queue f qs)
      ≡ (if queue == other then f (queue_of other qs) else queue_of other qs)
queue_of-adjust queue other f qs h = ground (arith, lookup-adjust queue other f qs)

-- Nothing is found: no id of the queue has an eligible record.
pub find_eligible-none :
    (now : ℕ) (records : List (ℕ × JobRecord)) (q : List ℕ) (id : ℕ) (r : JobRecord)
    → find_eligible now records q ≡ none
    → has id q ≡ true
    → lookup id records ≡ some r
    → is_eligible now r ≡ false
unfolding find_eligible
find_eligible-none now records [] id r f h e = absurd (cc)
find_eligible-none now records (x ∷ q) id r f h e =
    ground (arith, nat_eq_iff x id, find_eligible-none now records q id r)

-- Where an id is found: at the head, or in the rest of the queue.
abbrev pub Found : ℕ → List (ℕ × JobRecord) → ℕ → List ℕ → ℕ → ℕ → Type 0
Found now records x q idx id =
    ((map_or false (is_eligible now) (lookup id records) ≡ true) × (idx ≡ 0) × (x ≡ id))
    ⊎ ((i : ℕ) × (idx ≡ suc i) × (find_eligible now records q ≡ some (i, id)))

pub find_eligible-cons :
    (now : ℕ) (records : List (ℕ × JobRecord)) (x : ℕ) (q : List ℕ) (idx id : ℕ)
    → find_eligible now records (x ∷ q) ≡ some (idx, id)
    → Found now records x q idx id
unfolding find_eligible
find_eligible-cons now records x q idx id f =
    elim (Bool-cases (map_or false (is_eligible now) (lookup x records))) [
      | inl hit ↦ inl (ground arith, ground arith, ground arith)
      | inr miss ↦ elim (Option-cases (find_eligible now records q)) [
        | inl e ↦ absurd (ground arith)
        | inr (p, e) ↦ inr (p.0, ground arith, e ∙ ap some (ground arith))
      ]
    ]

-- What is found stands in the queue and has an eligible record.
pub find_eligible-some :
    (now : ℕ) (records : List (ℕ × JobRecord)) (q : List ℕ) (idx id : ℕ)
    → find_eligible now records q ≡ some (idx, id)
    → (has id q ≡ true) × (map_or false (is_eligible now) (lookup id records) ≡ true)
find_eligible-some now records [] idx id f = absurd (unfold find_eligible in cc)
find_eligible-some now records (x ∷ q) idx id f =
    elim (find_eligible-cons now records x q idx id f) [
      | inl (hit, z, e) ↦ (ground (arith, nat_eq_iff x id), hit)
      | inr (i, s, e) ↦ let rest = find_eligible-some now records q i id e in (ground arith, rest.1)
    ]

-- Taking it out leaves every other id where it is.
pub has-remove_at :
    (now : ℕ) (records : List (ℕ × JobRecord)) (q : List ℕ) (idx id j : ℕ)
    → find_eligible now records q ≡ some (idx, id)
    → j ≢ id
    → has j (remove_at idx q) ≡ has j q
unfolding remove_at
has-remove_at now records [] idx id j f ne = refl
has-remove_at now records (x ∷ q) idx id j f ne =
    elim (find_eligible-cons now records x q idx id f) [
      | inl (hit, z, e) ↦ ground (arith, nat_eq_iff x j)
      | inr (i, s, e) ↦ let rest = has-remove_at now records q i id j e ne in ground arith
    ]

pub has-remove_at_back : (q : List ℕ) (idx j : ℕ) → has j (remove_at idx q) ≡ true → has j q ≡ true
unfolding remove_at
has-remove_at_back [] idx j h = h
has-remove_at_back (x ∷ q) zero j h = ground arith
has-remove_at_back (x ∷ q) (suc idx) j h = ground (arith, has-remove_at_back q idx j)
