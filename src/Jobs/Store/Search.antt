-- ===== src/Jobs/Store/Search.antt =====
-- How the search through a queue of the in-memory store of crates/walastack-jobs/src/lib.rs answers
-- when a job comes in.
use walastack_rs.Base.{
  ℕ, inl, inr, ◌≡◌, refl, true, false, none, some, List, [], ◌∷◌, ◌++◌, arith, nat_eq_iff, nat_keys,
  string_keys, length, has, map_or, lookup, insert, lookup-insert,
}
use walastack_rs.Jobs.Store.{JobRecord, is_eligible, find_eligible}
use walastack_rs.Jobs.Store.Queues.{find_eligible-cons}

-- A record under a number that the queue does not hold does not change what is found.
pub find_eligible-insert :
    (now : ℕ) (records : List (ℕ × JobRecord)) (q : List ℕ) (id : ℕ) (r : JobRecord)
    → has id q ≡ false
    → find_eligible now (insert id r records) q ≡ find_eligible now records q
unfolding find_eligible
find_eligible-insert now records [] id r h = refl
find_eligible-insert now records (x ∷ q) id r h = ground (
  arith,
  nat_eq_iff x id,
  nat_eq_iff id x,
  lookup-insert id x r records,
  find_eligible-insert now records q id r,
)

-- Behind ids with no eligible job, an eligible one is found at the end.
pub find_eligible-append :
    (now : ℕ) (records : List (ℕ × JobRecord)) (q : List ℕ) (id : ℕ)
    → find_eligible now records q ≡ none
    → map_or false (is_eligible now) (lookup id records) ≡ true
    → find_eligible now records (q ++ id ∷ []) ≡ some (length q, id)
unfolding find_eligible
find_eligible-append now records [] id none_before due = ground arith
find_eligible-append now records (x ∷ q) id none_before due =
    ground (arith, find_eligible-append now records q id)

-- What is found in a queue is found as well with an id behind it, eligible or not.
pub find_eligible-append_found :
    (now : ℕ) (records : List (ℕ × JobRecord)) (q : List ℕ) (id idx earlier : ℕ)
    → find_eligible now records q ≡ some (idx, earlier)
    → find_eligible now records (q ++ id ∷ []) ≡ some (idx, earlier)
unfolding find_eligible
find_eligible-append_found now records [] id idx earlier found = absurd (cc)
find_eligible-append_found now records (x ∷ q) id idx earlier found =
    elim (find_eligible-cons now records x q idx earlier found) [
      | inl (hit, z, e) ↦ ground (arith, hit, z, e, nat_eq_iff x earlier)
      | inr (i, s, e) ↦
          ground (arith, s, e, find_eligible-append_found now records q id i earlier e, found)
    ]
