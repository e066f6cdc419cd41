-- ===== src/Jobs/Store/Arrivals.antt =====
-- When a job that was put into the in-memory store of crates/walastack-jobs/src/lib.rs is pulled.
use walastack_rs.Base.{
  ℕ, ◌⊎◌, inl, inr, Option-cases, ◌+◌, ◌%◌, ◌≤◌, ◌<◌, String, ◌≡◌, ap, ◌∙◌, true, false, none, some,
  List, [], ◌∷◌, ◌++◌, arith, nat_eq_iff, le→leb, ==_refl, nat_keys, string_keys, has, map_or,
  lookup, insert, lookup-insert, lookup-insert_self, u64_max,
}
use walastack_rs.Jobs.Store.{
  NewJob, JobRecord, JobStore, pending, enqueue, push_back, is_waiting, is_eligible, find_eligible,
  begin_attempt, pull_next, fetch,
}
use walastack_rs.Jobs.Store.Queues.{queue_of, queue_of-push_back, find_eligible-some}
use walastack_rs.Jobs.Store.Search.{
  find_eligible-insert, find_eligible-append, find_eligible-append_found,
}
use walastack_rs.Jobs.Store.Invariant.{Inv, fresh}
use walastack_rs.Jobs.Store.Pull.{Idle, pull_next-take}

-- The record that `enqueue` makes.
abbrev pub new_record : (id now : ℕ) → NewJob → JobRecord
new_record id now job = record {
  id = id;
  name = job.name;
  payload = job.payload;
  queue = job.queue;
  attempt = 0;
  max_attempts = job.max_attempts;
  status = pending;
  enqueued_at = now;
  scheduled_at = job.scheduled_at;
}

pub fetch-enqueue :
    (now : ℕ) (job : NewJob) (s : JobStore)
    → let (id, s') = enqueue now job s in fetch id s' ≡ some (new_record id now job)
unfolding fetch enqueue
fetch-enqueue now job s =
    let id = (s.next_id + 1) % 18446744073709551616 in
    lookup-insert_self id (new_record id now job) s.records

new_record_due :
    (id now later : ℕ) (job : NewJob)
    → job.scheduled_at ≤ later
    → is_eligible later (new_record id now job) ≡ true
unfolding is_eligible is_waiting
new_record_due id now later job due = le→leb job.scheduled_at later due

-- The store after the job was put in, with the number written without its wrap.
abbrev arrived : (now : ℕ) → NewJob → JobStore → JobStore
arrived now job s = record {
  next_id = s.next_id + 1;
  queues = push_back job.queue (s.next_id + 1) s.queues;
  records = insert (s.next_id + 1) (new_record (s.next_id + 1) now job) s.records;
}

-- The search through the queue after the arrival, over the old records.
find_eligible-arrived :
    (now later : ℕ) (job : NewJob) (s : JobStore)
    → find_eligible later
        (arrived now job s).records
        (queue_of job.queue (arrived now job s).queues)
      ≡ find_eligible later
          (arrived now job s).records
          (queue_of job.queue s.queues ++ (s.next_id + 1) ∷ [])
find_eligible-arrived now later job s = ap (find_eligible later (arrived now job s).records) (
    ground
      (arith, queue_of-push_back job.queue job.queue (s.next_id + 1) s.queues, ==_refl job.queue))

find_eligible-old :
    (now later : ℕ) (job : NewJob) (s : JobStore)
    → Inv s
    → find_eligible later (arrived now job s).records (queue_of job.queue s.queues)
      ≡ find_eligible later s.records (queue_of job.queue s.queues)
find_eligible-old now later job s v =
    let id = s.next_id + 1 in
    let unused = fresh s id v (omega arith) in
    find_eligible-insert later s.records (queue_of job.queue s.queues) id (new_record id now job)
      (ground (arith, v.placed job.queue id, unused))

arrives :
    (now later : ℕ) (job : NewJob) (names : List String) (s : JobStore)
    → Inv s
    → job.scheduled_at ≤ later
    → Idle later s job.queue
    → (pull_next later (job.queue ∷ names) (arrived now job s)).0
      ≡ some (begin_attempt (new_record (s.next_id + 1) now job))
arrives now later job names s v due idle =
    let id = s.next_id + 1 in
    let r = new_record id now job in
    let stored : lookup id (arrived now job s).records ≡ some r =
      lookup-insert_self id r s.records in
    let is_due : map_or false (is_eligible later) (lookup id (arrived now job s).records) ≡ true =
      rw stored (new_record_due id now later job due) in
    let found =
      find_eligible-arrived now later job s
      ∙ find_eligible-append later (arrived now job s).records (queue_of job.queue s.queues) id
          (find_eligible-old now later job s v ∙ idle) is_due in
    ap (λ p. p.0) (pull_next-take later job.queue names (arrived now job s) _ id r found stored)

waits :
    (now later : ℕ) (job : NewJob) (names : List String) (s : JobStore) (idx earlier : ℕ)
    (r : JobRecord)
    → Inv s
    → find_eligible later s.records (queue_of job.queue s.queues) ≡ some (idx, earlier)
    → lookup earlier s.records ≡ some r
    → (pull_next later (job.queue ∷ names) (arrived now job s)).0 ≡ some (begin_attempt r)
waits now later job names s idx earlier r v found stored =
    let id = s.next_id + 1 in
    let unused = fresh s id v (omega arith) in
    let kept : lookup earlier (arrived now job s).records ≡ some r = ground (
      arith,
      lookup-insert id earlier (new_record id now job) s.records,
      nat_eq_iff id earlier,
      unused,
      stored,
    ) in
    let found' =
      find_eligible-arrived now later job s
      ∙ find_eligible-append_found later (arrived now job s).records (queue_of job.queue s.queues)
          id idx earlier (find_eligible-old now later job s v ∙ found) in
    ap (λ p. p.0)
      (pull_next-take later job.queue names (arrived now job s) idx earlier r found' kept)

-- The pull after an arrival: of a job that was there and due, the one that would be pulled without the
-- arrival; or of the new one, if none was due.
abbrev pub ServesInOrder : (now later : ℕ) → NewJob → List String → JobStore → Type 0
ServesInOrder now later job names s =
    let (id, s') = enqueue now job s in
    let answer = (pull_next later (job.queue ∷ names) s').0 in
    (Idle later s job.queue × (answer ≡ some (begin_attempt (new_record id now job))))
    ⊎ ((r : JobRecord) × (earlier : ℕ) × (has earlier (queue_of job.queue s.queues) ≡ true)
        × (lookup earlier s.records ≡ some r)
        × (is_eligible later r ≡ true)
        × ((pull_next later (job.queue ∷ names) s).0 ≡ some (begin_attempt r))
        × (answer ≡ some (begin_attempt r)))

-- A job that is put into a queue never goes before one that stands in it and is due: the next pull that
-- looks at this queue first returns what it would have returned without the new job, which is a job of
-- the queue that was due, if there was one. If there was none, it returns the new job, at its first
-- attempt and with the content that was put in. The new job is due at the pull, and its number belonged
-- to no job. The store is one that operations lead to, with a number left.
pub enqueue-pull_next :
    (now later : ℕ) (job : NewJob) (names : List String) (s : JobStore)
    → Inv s
    → s.next_id < u64_max
    → job.scheduled_at ≤ later
    → (lookup (enqueue now job s).0 s.records ≡ none) × ServesInOrder now later job names s
unfolding enqueue
enqueue-pull_next now later job names s v room due =
    let number : (s.next_id + 1) % 18446744073709551616 ≡ s.next_id + 1 = omega arith in
    let id = s.next_id + 1 in
    let unused = fresh s id v (omega arith) in
    let q = queue_of job.queue s.queues in
    rw number (
      unused,
      elim (Option-cases (find_eligible later s.records q)) [
        | inl idle ↦ inl (idle, arrives now later job names s v due idle)
        | inr ((idx, earlier), found) ↦
            let hit = find_eligible-some later s.records q idx earlier found in
            elim (Option-cases (lookup earlier s.records)) [
              | inl missing ↦ absurd (ground (arith, hit.1, missing))
              | inr (r, stored) ↦ inr (
                r,
                earlier,
                hit.0,
                stored,
                ground (arith, hit.1, stored),
                ap (λ p. p.0) (pull_next-take later job.queue names s idx earlier r found stored),
                waits now later job names s idx earlier r v found stored,
              )
            ]
      ],
    )
