-- ===== src/Jobs/Store/Pull.antt =====
-- What a pull from the in-memory store of crates/walastack-jobs/src/lib.rs finds and does.
use walastack_rs.Base.{
  ℕ, String, ◌≡◌, refl, ap, ◌∙◌, ◌⊎◌, inl, inr, true, none, some, List, [], ◌∷◌, ◌++◌, arith,
  Option-cases, nat_keys, string_keys, All, and_then, lookup, adjust,
}
use walastack_rs.Jobs.Store.{
  JobRecord, JobStore, is_eligible, find_eligible, remove_at, begin_attempt, pull_next,
}
use walastack_rs.Jobs.Store.Queues.{queue_of, find_eligible-some}

-- The queue has no eligible job at its ids.
abbrev pub Idle : ℕ → JobStore → String → Type 0
Idle now s queue = find_eligible now s.records (queue_of queue s.queues) ≡ none

-- A pull that finds a job: the queue is the first of the list that is not idle.
pub record Pulled (now : ℕ) (names : List String) (s : JobStore) : Type 0 where
  pub before : List String
  pub queue : String
  pub later : List String
  pub idx : ℕ
  pub id : ℕ
  pub job : JobRecord
  pub split : names ≡ before ++ queue ∷ later
  pub skipped : All (Idle now s) before
  pub found : find_eligible now s.records (queue_of queue s.queues) ≡ some (idx, id)
  pub stored : lookup id s.records ≡ some job
  pub eligible : is_eligible now job ≡ true
  pub result : pull_next now names s ≡ (
    some (begin_attempt job),
    record s {
      queues = adjust queue (remove_at idx) s.queues;
      records = adjust id begin_attempt s.records;
    },
  )

find-queue_of :
    (now : ℕ) (s : JobStore) (queue : String)
    → and_then (lookup queue s.queues) (find_eligible now s.records)
      ≡ find_eligible now s.records (queue_of queue s.queues)
unfolding find_eligible
find-queue_of now s queue = ground arith

pull_next-skip :
    (now : ℕ) (queue : String) (names : List String) (s : JobStore)
    → Idle now s queue
    → pull_next now (queue ∷ names) s ≡ pull_next now names s
unfolding pull_next
pull_next-skip now queue names s idle = rw (find-queue_of now s queue ∙ idle, pull_next) refl

pub pull_next-take :
    (now : ℕ) (queue : String) (names : List String) (s : JobStore) (idx id : ℕ) (job : JobRecord)
    → find_eligible now s.records (queue_of queue s.queues) ≡ some (idx, id)
    → lookup id s.records ≡ some job
    → pull_next now (queue ∷ names) s ≡ (
      some (begin_attempt job),
      record s {
        queues = adjust queue (remove_at idx) s.queues;
        records = adjust id begin_attempt s.records;
      },
    )
unfolding pull_next
pull_next-take now queue names s idx id job found stored =
    rw (find-queue_of now s queue ∙ found, stored, pull_next) refl

pub pull_next-cases :
    (now : ℕ) (names : List String) (s : JobStore)
    → ((pull_next now names s ≡ (none, s)) × All (Idle now s) names) ⊎ Pulled now names s
pull_next-cases now [] s = inl (unfold pull_next in refl, tt)
pull_next-cases now (queue ∷ names) s =
    elim (Option-cases (find_eligible now s.records (queue_of queue s.queues))) [
      | inl idle ↦ elim (pull_next-cases now names s) [
        | inl (same, rest) ↦ inl (pull_next-skip now queue names s idle ∙ same, (idle, rest))
        | inr p ↦ inr (record {
          before = queue ∷ p.before;
          queue = p.queue;
          later = p.later;
          idx = p.idx;
          id = p.id;
          job = p.job;
          split = ap (◌∷◌ queue) p.split;
          skipped = (idle, p.skipped);
          found = p.found;
          stored = p.stored;
          eligible = p.eligible;
          result = pull_next-skip now queue names s idle ∙ p.result;
        })
      ]
      | inr ((idx, id), found) ↦
          let hit = find_eligible-some now s.records (queue_of queue s.queues) idx id found in
          elim (Option-cases (lookup id s.records)) [
            | inl missing ↦ absurd (ground (arith, hit.1))
            | inr (job, stored) ↦ inr (record {
              before = [];
              queue = queue;
              later = names;
              idx = idx;
              id = id;
              job = job;
              split = refl;
              skipped = tt;
              found = found;
              stored = stored;
              eligible = ground (arith, hit.1);
              result = pull_next-take now queue names s idx id job found stored;
            })
          ]
    ]
