-- ===== src/Jobs/Store/Invariant.antt =====
-- The invariant of the in-memory store of crates/walastack-jobs/src/lib.rs, kept by every operation.
use walastack_rs.Base.{
  ℕ, ◌+◌, ◌%◌, ◌≤◌, ◌<◌, String, ◌≡◌, refl, ◌∙◌, ◌≢◌, ◌⊎◌, inl, inr, true, false, Option, none,
  some, List, [], ◌∷◌, arith, if◌then◌else◌, nat_eq_iff, Bool-cases, Option-cases, ◌==◌, ==_iff,
  nat_keys, string_keys, has, has-append, is_some, map_or, lookup, insert, adjust, lookup-insert,
  lookup-adjust-some, lookup-adjust_test, u64_max,
}
use walastack_rs.Jobs.Store.{
  NewJob, JobRecord, JobStore, completed, new_store, push_back, enqueue, is_waiting, remove_at,
  begin_attempt, pull_next, mark_completed, fail_record, mark_failed,
}
use walastack_rs.Jobs.Store.Queues.{
  queue_of, queue_of-push_back, queue_of-adjust, has-remove_at, has-remove_at_back,
}
use walastack_rs.Jobs.Store.Pull.{pull_next-cases}

pub record Inv (s : JobStore) : Type 0 where
  -- A record carries its own number, and none is above the last that was given out.
  pub numbered :
      (id : ℕ) (r : JobRecord) → lookup id s.records ≡ some r → (r.id ≡ id) × (id ≤ s.next_id)
  -- No job is lost: one that waits stands in its queue.
  pub queued :
      (id : ℕ) (r : JobRecord)
      → lookup id s.records ≡ some r
      → is_waiting r.status ≡ true
      → has id (queue_of r.queue s.queues) ≡ true
  -- What stands in a queue is a job of that queue.
  pub placed :
      (queue : String) (id : ℕ)
      → has id (queue_of queue s.queues) ≡ true
      → map_or false (λ r. r.queue == queue) (lookup id s.records) ≡ true

pub new_store-Inv : Inv new_store
unfolding new_store lookup
new_store-Inv = record {
  numbered = λ id r e. absurd (cc);
  queued = λ id r e w. absurd (cc);
  placed = λ queue id h. absurd (cc);
}

-- The number after the last belongs to no job.
pub fresh : (s : JobStore) (id : ℕ) → Inv s → s.next_id < id → lookup id s.records ≡ none
fresh s id v h = elim (Option-cases (lookup id s.records)) [
  | inl e ↦ e
  | inr (r, e) ↦ absurd (omega (arith, (v.numbered id r e).1))
]

-- A job added under the next number.
added :
    (s : JobStore) (r : JobRecord)
    → s.next_id < u64_max
    → Inv s
    → r.id ≡ s.next_id + 1
    → Inv (record {
      next_id = s.next_id + 1;
      queues = push_back r.queue (s.next_id + 1) s.queues;
      records = insert (s.next_id + 1) r s.records;
    })
added s r h v e =
    let id = s.next_id + 1 in
    record {
      numbered = λ j x l. ground (arith, lookup-insert id j r s.records, v.numbered j x);
      queued = λ j x l w. ground (
        arith,
        lookup-insert id j r s.records,
        v.queued j x,
        queue_of-push_back r.queue x.queue id s.queues,
        has-append j (queue_of r.queue s.queues) (id ∷ []),
        ==_iff r.queue x.queue,
      );
      placed = λ queue j l. ground (
        arith,
        lookup-insert id j r s.records,
        v.placed queue j,
        queue_of-push_back r.queue queue id s.queues,
        has-append j (queue_of r.queue s.queues) (id ∷ []),
        ==_iff r.queue queue,
        fresh s id v,
      );
    }

pub enqueue-Inv :
    (now : ℕ) (job : NewJob) (s : JobStore)
    → s.next_id < u64_max
    → Inv s
    → Inv (enqueue now job s).1
unfolding enqueue
enqueue-Inv now job s h v =
    let p : (s.next_id + 1) % 18446744073709551616 ≡ s.next_id + 1 = omega arith in
    rw p (added s _ h v refl)

-- A change of one record that keeps its number and its queue, and of the queues: the job is in its
-- queue if it waits afterwards, the others stay where they are, and nothing else comes in.
changed :
    (s : JobStore) (id : ℕ) (f : JobRecord → JobRecord) (qs : List (String × List ℕ))
    → ((r : JobRecord) → ((f r).id ≡ r.id) × ((f r).queue ≡ r.queue))
    → ((r : JobRecord)
        → lookup id s.records ≡ some r
        → is_waiting (f r).status ≡ true
        → has id (queue_of r.queue qs) ≡ true)
    → ((queue : String) (j : ℕ)
        → j ≢ id
        → has j (queue_of queue s.queues) ≡ true
        → has j (queue_of queue qs) ≡ true)
    → ((queue : String) (j : ℕ)
        → has j (queue_of queue qs) ≡ true
        → (has j (queue_of queue s.queues) ≡ true)
          ⊎ (map_or false (λ r. r.queue == queue) (lookup j s.records) ≡ true))
    → Inv s
    → Inv (record s { queues = qs; records = adjust id f s.records })
changed s id f qs same wakes keeps back v = record {
  numbered = λ j x l.
      let (y, e, p) = lookup-adjust-some id j f s.records x l in
      ground (arith, v.numbered j y, same y);
  queued = λ j x l w.
      let (y, e, p) = lookup-adjust-some id j f s.records x l in
      elim (Bool-cases (id == j)) [
        | inl hit ↦ ground (arith, nat_eq_iff id j, wakes y, same y)
        | inr miss ↦ ground (arith, nat_eq_iff id j, keeps y.queue j, v.queued j y, same y)
      ];
  placed = λ queue j h.
      lookup-adjust_test id j f (λ r. r.queue == queue) s.records (λ r. rw (same r).1 refl)
      ∙ elim (back queue j h) [ inl old ↦ v.placed queue j old | inr new ↦ new ];
}

pub pull_next-Inv :
    (now : ℕ) (names : List String) (s : JobStore) → Inv s → Inv (pull_next now names s).1
unfolding is_waiting begin_attempt
pull_next-Inv now names s v = elim (pull_next-cases now names s) [
  | inl (same, idle) ↦ rw same v
  | inr p ↦ rw p.result (
      changed s p.id begin_attempt (adjust p.queue (remove_at p.idx) s.queues) (λ r. (refl, refl))
        (λ r e w. absurd (cc))
        (λ queue j ne h. ground (
          arith,
          ==_iff p.queue queue,
          queue_of-adjust p.queue queue (remove_at p.idx) s.queues (unfold remove_at in refl),
          has-remove_at now s.records (queue_of p.queue s.queues) p.idx p.id j p.found ne,
        ))
        (λ queue j h. inl (
          ground (
            arith,
            ==_iff p.queue queue,
            queue_of-adjust p.queue queue (remove_at p.idx) s.queues (unfold remove_at in refl),
            has-remove_at_back (queue_of queue s.queues) p.idx j,
          )))
        v)
]

pub mark_completed-Inv : (id : ℕ) (s : JobStore) → Inv s → Inv (mark_completed id s)
unfolding mark_completed is_waiting
mark_completed-Inv id s v =
    changed s id (λ r. record r { status = completed }) s.queues (λ r. (refl, refl))
      (λ r e w. absurd (cc)) (λ queue j ne h. h) (λ queue j h. inl h) v

pub mark_failed-Inv :
    (id : ℕ) (next : Option ℕ) (s : JobStore) → Inv s → Inv (mark_failed id next s)
unfolding mark_failed fail_record is_waiting
mark_failed-Inv id next s v = elim (Option-cases (lookup id s.records)) [
  | inl e ↦ rw (e, mark_failed) v
  | inr (r, e) ↦ rw (e, mark_failed) (failed r e next)
]
  where
    failed :
        (r : JobRecord)
        → lookup id s.records ≡ some r
        → (next : Option ℕ)
        → Inv (record s {
          records = adjust id (fail_record next) s.records;
          queues = if is_some next then push_back r.queue id s.queues else s.queues;
        })
    failed r e none =
        changed s id (fail_record none) s.queues (λ r. (refl, refl)) (λ r e w. absurd (cc))
          (λ queue j ne h. h) (λ queue j h. inl h) v
    failed r e (some at) =
        changed s id (fail_record (some at)) (push_back r.queue id s.queues) (λ r. (refl, refl))
          (λ x l w. ground (
            arith,
            queue_of-push_back r.queue x.queue id s.queues,
            has-append id (queue_of r.queue s.queues) (id ∷ []),
            ==_iff r.queue x.queue,
            nat_eq_iff id id,
          ))
          (λ queue j ne h. ground (
            arith,
            queue_of-push_back r.queue queue id s.queues,
            has-append j (queue_of r.queue s.queues) (id ∷ []),
            ==_iff r.queue queue,
          ))
          (λ queue j h. back queue j (
            ground (
              arith,
              queue_of-push_back r.queue queue id s.queues,
              has-append j (queue_of r.queue s.queues) (id ∷ []),
              ==_iff r.queue queue,
              nat_eq_iff id j,
            )))
          v
      where
        back :
            (queue : String) (j : ℕ)
            → (has j (queue_of queue s.queues) ≡ true) ⊎ ((id ≡ j) × (r.queue ≡ queue))
            → (has j (queue_of queue s.queues) ≡ true)
              ⊎ (map_or false (λ r. r.queue == queue) (lookup j s.records) ≡ true)
        back queue j (inl old) = inl old
        back queue j (inr (p, q)) = inr (ground (arith, ==_iff r.queue queue))
