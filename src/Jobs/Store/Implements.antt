-- ===== src/Jobs/Store/Implements.antt =====
-- The in-memory store of crates/walastack-jobs/src/lib.rs as an instance of the contract.
use walastack_rs.Base.{
  ℕ, ◌+◌, ◌%◌, ◌<◌, String, ◌≡◌, refl, ap, ◌∙◌, inl, inr, true, false, Option, none, some, List,
  ◌∷◌, ◌++◌, arith, if◌then◌else◌, Option-cases, ◌==◌, ==_iff, ==_refl, nat_keys, string_keys,
  codes_keys, has, has-append, option_map, lookup, lookup-insert, lookup-adjust, u64_max,
}
use walastack_rs.Jobs.Store.{
  NewJob, JobRecord, JobStore, completed, new_store, enqueue, pull_next, mark_completed,
  mark_failed, fetch, is_eligible, begin_attempt, fail_record,
}
use walastack_rs.Jobs.Store.Invariant.{
  Inv, new_store-Inv, fresh, enqueue-Inv, pull_next-Inv, mark_completed-Inv, mark_failed-Inv,
}
use walastack_rs.Jobs.Store.Claims.{pull_next_nothing, pull_next_claims}
use walastack_rs.Jobs.Store.Pull.{pull_next-cases}
use walastack_rs.Jobs.Contract.{JobStoreContract}

pub fetch-enqueue :
    (now : ℕ) (job : NewJob) (s : JobStore)
    → Inv s
    → s.next_id < u64_max
    → (fetch (enqueue now job s).0 s ≡ none)
      × ((other : ℕ)
          → ((enqueue now job s).0 == other) ≡ false
          → fetch other (enqueue now job s).1 ≡ fetch other s)
unfolding fetch enqueue
fetch-enqueue now job s v room =
    let number : (s.next_id + 1) % 18446744073709551616 ≡ s.next_id + 1 = omega arith in
    (
      rw number (fresh s (s.next_id + 1) v (omega arith)),
      λ other apart.
          lookup-insert ((s.next_id + 1) % 18446744073709551616) other _ s.records ∙ rw apart refl,
    )

pub fetch-pull_next-some :
    (now : ℕ) (names : List String) (s : JobStore) (job : JobRecord)
    → Inv s
    → (pull_next now names s).0 ≡ some job
    → ((r : JobRecord) × (fetch job.id s ≡ some r)
        × (is_eligible now r ≡ true)
        × (has r.queue names ≡ true)
        × (job ≡ begin_attempt r))
      × ((other : ℕ)
          → fetch other (pull_next now names s).1
            ≡ (if job.id == other then some job else fetch other s))
unfolding fetch
fetch-pull_next-some now names s job v got =
    let ((r, before, after, there, due, begun, split, skipped), kept, later) =
      pull_next_claims now now names s job job.id v got in
    (
      (r, there, due, asked r.queue before after split, begun),
      λ other. (pull_next_claims now now names s job other v got).1,
    )
  where
    asked :
        (queue : String) (before after : List String)
        → names ≡ before ++ queue ∷ after
        → has queue names ≡ true
    asked queue before after split =
        ap (has queue) split
        ∙ ground (arith, has-append queue before (queue ∷ after), ==_refl queue)

pub fetch-pull_next-none :
    (now : ℕ) (names : List String) (s : JobStore)
    → Inv s
    → (pull_next now names s).0 ≡ none
    → ((other : ℕ) → fetch other (pull_next now names s).1 ≡ fetch other s)
      × ((id : ℕ) (r : JobRecord)
          → fetch id s ≡ some r
          → has r.queue names ≡ true
          → is_eligible now r ≡ false)
unfolding fetch
fetch-pull_next-none now names s v nothing = (
  λ other. elim (pull_next-cases now names s) [
    | inl (same, idle) ↦ ap (λ p. lookup other p.1.records) same
    | inr p ↦ absurd (cc (ap (λ q. q.0) p.result, nothing))
  ],
  λ id r there asked. ground (arith, (pull_next_nothing now names s id v nothing).1, there, asked),
)

pub fetch-mark_failed :
    (id other : ℕ) (next : Option ℕ) (s : JobStore)
    → fetch other (mark_failed id next s)
      ≡ (if id == other then option_map (fail_record next) (fetch other s) else fetch other s)
unfolding fetch mark_failed
fetch-mark_failed id other next s = elim (Option-cases (lookup id s.records)) [
  | inl e ↦ ground (arith, e, ==_iff id other)
  | inr (r, e) ↦ rw (e, mark_failed) (lookup-adjust id other (fail_record next) s.records)
]

pub fetch-mark_completed :
    (id other : ℕ) (s : JobStore)
    → fetch other (mark_completed id s) ≡ (
        if id == other
        then option_map {A = JobRecord} (λ r. record r { status = completed }) (fetch other s)
        else fetch other s)
unfolding fetch mark_completed
fetch-mark_completed id other s = lookup-adjust id other _ s.records

-- The in-memory store keeps the contract.
abbrev pub in_memory_store : JobStoreContract
in_memory_store = record {
  State = JobStore;
  IsGood = Inv;
  HasRoom = λ s. s.next_id < u64_max;
  empty = new_store;
  enqueue = enqueue;
  pull_next = pull_next;
  mark_completed = mark_completed;
  mark_failed = mark_failed;
  fetch = fetch;
  empty-IsGood = new_store-Inv;
  enqueue-IsGood = λ now job s v room. enqueue-Inv now job s room v;
  pull_next-IsGood = pull_next-Inv;
  mark_completed-IsGood = mark_completed-Inv;
  mark_failed-IsGood = mark_failed-Inv;
  enqueue-fetch = fetch-enqueue;
  pull_next-some = fetch-pull_next-some;
  pull_next-none = fetch-pull_next-none;
  mark_completed-fetch = fetch-mark_completed;
  mark_failed-fetch = fetch-mark_failed;
}
