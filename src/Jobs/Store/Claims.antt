-- ===== src/Jobs/Store/Claims.antt =====
-- What a pull from the in-memory store of crates/walastack-jobs/src/lib.rs returns and leaves.
use walastack_rs.Base.{
  ℕ, String, ◌≡◌, refl, ap, ◌∙◌, inl, inr, true, false, none, some, List, [], ◌∷◌, ◌++◌, arith,
  if◌then◌else◌, nat_eq_iff, Bool-cases, Option-cases, ◌&&◌, map_or, ◌==◌, ==_iff, nat_keys,
  string_keys, All, has, lookup, lookup-adjust,
}
use walastack_rs.Jobs.Store.{JobRecord, JobStore, is_waiting, is_eligible, begin_attempt, pull_next}
use walastack_rs.Jobs.Store.Queues.{queue_of, find_eligible-none, find_eligible-some}
use walastack_rs.Jobs.Store.Pull.{Idle, pull_next-cases}
use walastack_rs.Jobs.Store.Invariant.{Inv}

Idle-job :
    (now : ℕ) (names : List String) (s : JobStore) (id : ℕ) (r : JobRecord)
    → Inv s
    → All (Idle now s) names
    → has r.queue names ≡ true
    → lookup id s.records ≡ some r
    → is_eligible now r ≡ false
unfolding is_eligible
Idle-job now [] s id r v idle h e = absurd (cc)
Idle-job now (n ∷ names) s id r v idle h e = elim (Bool-cases (n == r.queue)) [
  | inl hit ↦ elim (Bool-cases (is_waiting r.status)) [
    | inl w ↦
        find_eligible-none now s.records (queue_of r.queue s.queues) id r
          (rw ((==_iff n r.queue).0 hit) at idle.0) (v.queued id r e w) e
    | inr w ↦ rw w
  ]
  | inr miss ↦ Idle-job now names s id r v idle.1 (ground arith) e
]

-- A pull that returns nothing leaves the store as it was, and no job that is stored is both due and in
-- a queue that was asked for. The store is one that operations lead to.
pub pull_next_nothing :
    (now : ℕ) (names : List String) (s : JobStore) (id : ℕ)
    → Inv s
    → (pull_next now names s).0 ≡ none
    → ((pull_next now names s).1 ≡ s)
      × (map_or false (λ r. has r.queue names && is_eligible now r) (lookup id s.records) ≡ false)
pull_next_nothing now names s id v nothing = elim (pull_next-cases now names s) [
  | inr p ↦ absurd (cc (ap (λ q. q.0) p.result, nothing))
  | inl (same, idle) ↦ (
    ap (λ p. p.1) same,
    elim (Option-cases (lookup id s.records)) [
      | inl e ↦ rw e refl
      | inr (r, e) ↦ rw e (elim (Bool-cases (has r.queue names)) [
        | inr other ↦ rw other refl
        | inl asked ↦ rw (asked, Idle-job now names s id r v idle asked e) refl
      ])
    ],
  )
]

pub pull_next_claims :
    (now later : ℕ) (names : List String) (s : JobStore) (job : JobRecord) (other : ℕ)
    → Inv s
    → (pull_next now names s).0 ≡ some job
    → let s' = (pull_next now names s).1 in
      ((r : JobRecord) × (before : List String) × (after : List String) × (lookup job.id s.records
          ≡ some r)
        × (is_eligible now r ≡ true)
        × (job ≡ begin_attempt r)
        × (names ≡ before ++ r.queue ∷ after)
        × All (Idle now s) before)
      × (lookup other s'.records ≡ (if job.id == other then some job else lookup other s.records))
      × (is_eligible later job ≡ false)
unfolding begin_attempt
pull_next_claims now later names s job other v got = elim (pull_next-cases now names s) [
  | inl (same, idle) ↦ absurd (cc (ap (λ p. p.0) same))
  | inr p ↦
      let same : job ≡ begin_attempt p.job = cc (ap (λ q. q.0) p.result, got) in
      let id : job.id ≡ p.id = ap (λ j. j.id) same ∙ (v.numbered p.id p.job p.stored).0 in
      let home =
        v.placed p.queue p.id
          (find_eligible-some now s.records (queue_of p.queue s.queues) p.idx p.id p.found).0 in
      let queue : p.queue ≡ p.job.queue = ground (arith, ==_iff p.job.queue p.queue, p.stored) in
      (
        (
          p.job,
          p.before,
          p.later,
          rw id p.stored,
          p.eligible,
          same,
          p.split ∙ ap (λ q. p.before ++ q ∷ p.later) queue,
          p.skipped,
        ),
        rw p.result (
            ground (
              arith,
              lookup-adjust p.id other begin_attempt s.records,
              p.stored,
              same,
              id,
              nat_eq_iff p.id other,
              nat_eq_iff job.id other,
            )),
        rw same (unfold is_eligible is_waiting in refl),
      )
]
