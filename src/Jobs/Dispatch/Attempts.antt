-- ===== src/Jobs/Dispatch/Attempts.antt =====
-- Several workers at once on the in-memory store of crates/walastack-jobs/src/lib.rs: jobs are
-- enqueued, pulled, and settled by `dispatch_one`, in any order.
use walastack_rs.Base.{
  ℕ, ◌+◌, ◌%◌, ◌≤◌, ◌<◌, max, String, ◌≡◌, refl, sym, ap, ◌∙◌, ◌≢◌, ◌⊎◌, inl, inr, false, some,
  List, [], ◌∷◌, ◌++◌, arith, nat_eq_iff, nat_keys, string_keys, All, All-middle, All-mono, lookup,
  insert, lookup-insert, lookup-adjust, lookup-adjust-some, u64_max,
}
use walastack_rs.Scheduler.Backoff.{Floats}
use walastack_rs.Jobs.Store.{
  NewJob, JobRecord, JobStore, new_store, enqueue, is_waiting, is_eligible, begin_attempt,
  pull_next, mark_completed, mark_failed,
}
use walastack_rs.Jobs.Store.Pull.{Pulled, pull_next-cases}
use walastack_rs.Jobs.Dispatch.{
  JobsConfig, JobsDispatcher, JobEffect, publish, completes, fails, sleeps, Reading, Chrono,
  dispatch_one, perform,
}
use walastack_rs.Jobs.Dispatch.Settling.{dispatch_one-settles}
use walastack_rs.Jobs.Dispatch.Steps.{World, Step, enqueues, pulls, settles, Reach, start, next}

-- The attempts that a record may have seen, and may have ahead.
abbrev pub Bounded : JobRecord → Type 0
Bounded r =
    (r.attempt ≤ max r.max_attempts 1)
    × ((is_waiting r.status ≡ false) ⊎ (r.attempt < max r.max_attempts 1))

abbrev Distinct : List JobRecord → Type 0
Distinct [] = Unit
Distinct (r ∷ rs) = All (λ x. x.id ≢ r.id) rs × Distinct rs

-- The worker's copy of a job is the store's record.
abbrev Held : List (ℕ × JobRecord) → JobRecord → Type 0
Held m r = (lookup r.id m ≡ some r) × (is_waiting r.status ≡ false)

pub record Inv (w : World) : Type 0 where
  pub bounded :
      (id : ℕ) (r : JobRecord)
      → lookup id w.store.records ≡ some r
      → (r.id ≡ id) × (id ≤ w.store.next_id) × Bounded r
  pub held : All (Held w.store.records) w.in_flight
  pub distinct : Distinct w.in_flight

-- The job in the middle is another than those around it.
Distinct-middle :
    (before : List JobRecord) (r : JobRecord) (after : List JobRecord)
    → Distinct (before ++ r ∷ after)
    → Distinct (before ++ after) × All (λ x. x.id ≢ r.id) (before ++ after)
Distinct-middle [] r after d = (d.1, d.0)
Distinct-middle (b ∷ before) r after d =
    let rest = Distinct-middle before r after d.1 in
    let apart = All-middle (λ (x : JobRecord). x.id ≢ b.id) before r after d.0 in
    ((apart.0, rest.0), (λ e. apart.1 (sym e), rest.1))

Held-mono :
    (m m' : List (ℕ × JobRecord)) (r : JobRecord) (rs : List JobRecord)
    → ((j : ℕ) → j ≢ r.id → lookup j m' ≡ lookup j m)
    → All (λ x. x.id ≢ r.id) rs
    → All (Held m) rs
    → All (Held m') rs
Held-mono m m' r [] same apart h = tt
Held-mono m m' r (x ∷ rs) same apart h =
    ((same x.id apart.0 ∙ h.0.0, h.0.1), Held-mono m m' r rs same apart.1 h.1)

next_id-perform : (es : List JobEffect) (s : JobStore) → (perform es s).next_id ≡ s.next_id
unfolding perform mark_completed mark_failed
next_id-perform [] s = refl
next_id-perform (completes id ∷ es) s = next_id-perform es (mark_completed id s)
next_id-perform (fails id e at ∷ es) s = ground (arith, next_id-perform es (mark_failed id at s))
next_id-perform (publish e ∷ es) s = next_id-perform es s
next_id-perform (sleeps d ∷ es) s = next_id-perform es s

added-Inv :
    (w : World) (r : JobRecord) (qs : List (String × List ℕ))
    → r.id ≡ w.store.next_id + 1
    → r.attempt ≡ 0
    → Inv w
    → Inv (record w {
      store = record {
        next_id = w.store.next_id + 1;
        queues = qs;
        records = insert (w.store.next_id + 1) r w.store.records;
      };
    })
added-Inv w r qs number none_yet v =
    let id = w.store.next_id + 1 in
    let older =
      All-mono (Held w.store.records) (λ x. x.id ≢ r.id)
        (λ x h e. absurd (omega (arith, (v.bounded x.id x h.0).1))) w.in_flight v.held in
    record {
      bounded = λ j x e.
          ground (arith, lookup-insert id j r w.store.records, nat_eq_iff id j, v.bounded j x);
      held =
          Held-mono w.store.records _ r w.in_flight
            (λ j ne. ground (arith, lookup-insert id j r w.store.records, nat_eq_iff id j)) older
            v.held;
      distinct = v.distinct;
    }

enqueue-Inv :
    (now : ℕ) (job : NewJob) (w : World)
    → w.store.next_id < u64_max
    → Inv w
    → Inv (record w { store = (enqueue now job w.store).1 })
unfolding enqueue
enqueue-Inv now job w h v =
    let p : (w.store.next_id + 1) % 18446744073709551616 ≡ w.store.next_id + 1 = omega arith in
    rw p (added-Inv w _ _ refl refl v)

Pulled-Inv :
    (w : World) (names : List String) (now : ℕ)
    → (p : Pulled now names w.store) → Inv w
    → Inv (record {
      store = (pull_next now names w.store).1;
      in_flight = begin_attempt p.job ∷ w.in_flight;
    })
unfolding begin_attempt is_waiting is_eligible
Pulled-Inv w names now p v =
    let b = v.bounded p.id p.job p.stored in
    let others =
      All-mono (Held w.store.records) (λ x. x.id ≢ p.job.id)
        (λ x h e. ground (arith, p.stored, b.0, h, p.eligible, e)) w.in_flight v.held in
    rw p.result (record {
      bounded = λ j x e.
          let (y, l, q) = lookup-adjust-some p.id j begin_attempt w.store.records x e in
          ground (arith, v.bounded j y, p.stored, p.eligible, nat_eq_iff p.id j);
      held = (
        (
          ground (
            arith,
            lookup-adjust p.id p.id begin_attempt w.store.records,
            p.stored,
            b.0,
            nat_eq_iff p.id p.id,
          ),
          refl,
        ),
        Held-mono w.store.records _ p.job w.in_flight
            (λ j ne.
              ground
                (arith, lookup-adjust p.id j begin_attempt w.store.records, nat_eq_iff p.id j, b.0))
            others v.held,
      );
      distinct = (others, v.distinct);
    })

module _ (fl : Floats) (chrono : Chrono) (config : JobsConfig) (dispatcher : JobsDispatcher) where
  settle-Inv :
      (w : World) (t : Reading) (before after : List JobRecord) (r : JobRecord)
      → w.in_flight ≡ before ++ r ∷ after
      → Inv w
      → Inv (record {
        store = perform (dispatch_one fl chrono config dispatcher t r) w.store;
        in_flight = before ++ after;
      })
  settle-Inv w t before after r split v =
      let all_held = All-middle (Held w.store.records) before r after (rw split at v.held) in
      let apart = Distinct-middle before r after (rw split at v.distinct) in
      let after_it =
        λ (j : ℕ). dispatch_one-settles fl chrono config dispatcher t r w.store j all_held.1.0 in
      record {
        bounded = λ j x e. ground (
          arith,
          after_it j,
          v.bounded r.id r all_held.1.0,
          v.bounded j x,
          nat_eq_iff r.id j,
          next_id-perform (dispatch_one fl chrono config dispatcher t r) w.store,
        );
        held =
            Held-mono w.store.records _ r (before ++ after)
              (λ j ne. (after_it j).0 ∙ ground (arith, nat_eq_iff r.id j)) apart.1 all_held.0;
        distinct = apart.0;
      }

  Step-Inv : {w u : World} → Step fl chrono config dispatcher w u → Inv w → Inv u
  Step-Inv {w} (enqueues now job h) v = enqueue-Inv now job w h v
  Step-Inv {w} (pulls now names r got) v = elim (pull_next-cases now names w.store) [
    | inl (same, idle) ↦ absurd (cc (ap (λ p. p.0) same))
    | inr p ↦
        let same : r ≡ begin_attempt p.job = cc (ap (λ q. q.0) p.result, got) in
        rw same (Pulled-Inv w names now p v)
  ]
  Step-Inv {w} (settles t before after r split) v = settle-Inv w t before after r split v

  -- Whatever the workers, the jobs, the clocks and the interleaving, no job is tried more often than
  -- its `max_attempts` allows, with one attempt for a maximum of zero; a job that waits has an
  -- attempt left; no job is in the hands of two workers; and what a worker holds is the store's own
  -- record.
  pub Reach-Inv : {w : World} → Reach fl chrono config dispatcher w → Inv w
  unfolding new_store lookup
  Reach-Inv start = record { bounded = λ id r e. absurd (cc); held = tt; distinct = tt }
  Reach-Inv (next r s) = Step-Inv s (Reach-Inv r)
