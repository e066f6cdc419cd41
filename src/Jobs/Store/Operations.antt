-- ===== src/Jobs/Store/Operations.antt =====
-- Sequences of operations on the in-memory store of crates/walastack-jobs/src/lib.rs.
use walastack_rs.Base.{
  ℕ, ◌+◌, ◌≤◌, ◌<◌, String, ap, inl, inr, Option, List, [], ◌∷◌, arith, nat_keys, string_keys,
  length, u64_max,
}
use walastack_rs.Jobs.Store.{
  NewJob, JobStore, new_store, enqueue, pull_next, mark_completed, mark_failed,
}
use walastack_rs.Jobs.Store.Pull.{pull_next-cases}
use walastack_rs.Jobs.Store.Invariant.{
  Inv, new_store-Inv, enqueue-Inv, pull_next-Inv, mark_completed-Inv, mark_failed-Inv,
}

-- The operations of the store, with what the caller gives each.
pub data Operation : Type 0 where
  enqueues : (now : ℕ) → NewJob → Operation
  pulls : (now : ℕ) → List String → Operation
  completes : (id : ℕ) → Operation
  fails : (id : ℕ) → Option ℕ → Operation

abbrev pub apply : Operation → JobStore → JobStore
apply (enqueues now job) s = (enqueue now job s).1
apply (pulls now names) s = (pull_next now names s).1
apply (completes id) s = mark_completed id s
apply (fails id next) s = mark_failed id next s

abbrev pub apply_all : List Operation → JobStore → JobStore
apply_all [] s = s
apply_all (o ∷ os) s = apply_all os (apply o s)

next_id-apply : (o : Operation) (s : JobStore) → (apply o s).next_id ≤ s.next_id + 1
unfolding enqueue mark_completed mark_failed
next_id-apply (enqueues now job) s = omega arith
next_id-apply (pulls now names) s = elim (pull_next-cases now names s) [
  | inl (same, idle) ↦ omega (arith, ap (λ q. q.1.next_id) same)
  | inr p ↦ omega (arith, ap (λ q. q.1.next_id) p.result)
]
next_id-apply (completes id) s = omega arith
next_id-apply (fails id next) s = ground arith

apply-Inv : (o : Operation) (s : JobStore) → s.next_id < u64_max → Inv s → Inv (apply o s)
apply-Inv (enqueues now job) s h v = enqueue-Inv now job s h v
apply-Inv (pulls now names) s h v = pull_next-Inv now names s v
apply-Inv (completes id) s h v = mark_completed-Inv id s v
apply-Inv (fails id next) s h v = mark_failed-Inv id next s v

apply_all-Inv :
    (os : List Operation) (s : JobStore)
    → s.next_id + length os ≤ u64_max
    → Inv s
    → Inv (apply_all os s)
apply_all-Inv [] s h v = v
apply_all-Inv (o ∷ os) s h v =
    apply_all-Inv os (apply o s) (omega (arith, next_id-apply o s)) (apply-Inv o s (omega arith) v)

-- Any sequence of operations on the empty store keeps the invariant: numbers are unique, every job
-- that waits stands in its queue, and a queue holds jobs of its own only. The operations are fewer
-- than the numbers of 64 bits.
pub apply_all-new_store-Inv :
    (os : List Operation) → length os ≤ u64_max → Inv (apply_all os new_store)
apply_all-new_store-Inv os h =
    apply_all-Inv os new_store (unfold new_store in omega arith) new_store-Inv
