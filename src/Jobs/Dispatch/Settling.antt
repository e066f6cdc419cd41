-- ===== src/Jobs/Dispatch/Settling.antt =====
-- What one dispatch of crates/walastack-jobs/src/lib.rs leaves in the in-memory store.
use walastack_rs.Base.{
  ℕ, suc, ◌+◌, ◌*◌, ◌≤◌, ◌<◌, ◌≡◌, refl, ◌≢◌, ◌⊎◌, inl, inr, false, Option, none, some, arith, ltb,
  if◌then◌else◌, nat_eq_iff, Bool-cases, Option-cases, ◌==◌, nat_keys, string_keys, option_map,
  lookup, lookup-adjust, duration_max, saturating_add, saturating_mul, ok, err, Result-cases,
}
use walastack_rs.Scheduler.Backoff.{Floats, linear, delay_for}
use walastack_rs.Jobs.Store.{
  JobRecord, JobStore, running, completed, retrying, dead, is_waiting, mark_completed, fail_record,
  mark_failed,
}
use walastack_rs.Jobs.Dispatch.{
  JobsConfig, HandlerEntry, JobsDispatcher, Reading, Chrono, job_result, next_attempt_at, settle,
  dispatch_one, perform,
}

-- What a completion does to the record.
abbrev complete_record : JobRecord → JobRecord
complete_record r = record r { status = completed }

lookup-mark_completed :
    (id j : ℕ) (s : JobStore)
    → lookup j (mark_completed id s).records
      ≡ (if id == j then option_map complete_record (lookup j s.records) else lookup j s.records)
unfolding mark_completed
lookup-mark_completed id j s = lookup-adjust id j complete_record s.records

lookup-mark_failed :
    (id j : ℕ) (next : Option ℕ) (s : JobStore)
    → lookup j (mark_failed id next s).records
      ≡ (if id == j then option_map (fail_record next) (lookup j s.records) else lookup j s.records)
unfolding mark_failed
lookup-mark_failed id j next s = elim (Option-cases (lookup id s.records)) [
  | inl e ↦ ground (arith, nat_eq_iff id j)
  | inr (r, e) ↦ ground (arith, lookup-adjust id j (fail_record next) s.records)
]

module _ (fl : Floats) (chrono : Chrono) (config : JobsConfig) (dispatcher : JobsDispatcher) where
  -- The record that a dispatch leaves: completed if the run succeeds; dead if the name has no
  -- handler, or if the run fails with no attempt left; else waiting for its next attempt.
  pub settled : Reading → JobRecord → JobRecord
  settled t r = elim (lookup r.name dispatcher) [
    | none ↦ record r { status = dead }
    | some entry ↦ elim (job_result fl chrono config entry t r) [
      | ok _ ↦ record r { status = completed }
      | err _ ↦
          if ltb r.attempt r.max_attempts
          then record r {
            status = retrying;
            scheduled_at = next_attempt_at fl chrono config entry t r;
          }
          else record r { status = dead }
    ]
  ]

  -- The store's operation that a dispatch comes to, and the record that goes with it.
  abbrev Settles : Reading → JobRecord → JobStore → Type 0
  Settles t r s =
      ((perform (dispatch_one fl chrono config dispatcher t r) s ≡ mark_completed r.id s)
        × (settled t r ≡ complete_record r))
      ⊎ ((next : Option ℕ) × (perform (dispatch_one fl chrono config dispatcher t r) s
            ≡ mark_failed r.id next s)
          × (settled t r ≡ fail_record next r)
          × ((next ≡ none) ⊎ (r.attempt < r.max_attempts)))

  dispatch_one-cases : (t : Reading) (r : JobRecord) (s : JobStore) → Settles t r s
  unfolding dispatch_one settle perform settled fail_record
  dispatch_one-cases t r s = elim (Option-cases (lookup r.name dispatcher)) [
    | inl here ↦ inr (none, ground arith, ground arith, inl refl)
    | inr (entry, here) ↦ elim (Result-cases (job_result fl chrono config entry t r)) [
      | inl (_, good) ↦ inl (ground arith, ground arith)
      | inr (e, bad) ↦ elim (Bool-cases (ltb r.attempt r.max_attempts)) [
        | inl more ↦ inr (
          some (next_attempt_at fl chrono config entry t r),
          ground arith,
          ground arith,
          inr (ground arith),
        )
        | inr last ↦ inr (none, ground arith, ground arith, inl refl)
      ]
    ]
  ]

  -- A dispatch settles the job that was pulled, and touches no other: the store then holds the
  -- settled record, which is at the same attempt, runs no more, and waits again only if an attempt
  -- is left.
  pub dispatch_one-settles :
      (t : Reading) (r : JobRecord) (s : JobStore) (j : ℕ)
      → lookup r.id s.records ≡ some r
      → (lookup j (perform (dispatch_one fl chrono config dispatcher t r) s).records
          ≡ (if r.id == j then some (settled t r) else lookup j s.records))
        × ((settled t r).id ≡ r.id)
        × ((settled t r).attempt ≡ r.attempt)
        × ((settled t r).max_attempts ≡ r.max_attempts)
        × ((settled t r).status ≢ running)
        × ((is_waiting (settled t r).status ≡ false) ⊎ (r.attempt < r.max_attempts))
  unfolding fail_record is_waiting
  dispatch_one-settles t r s j stored = elim (dispatch_one-cases t r s) [
    | inl (op, same) ↦
        let found : lookup j (mark_completed r.id s).records
            ≡ (if r.id == j then some (complete_record r) else lookup j s.records) =
          ground (arith, lookup-mark_completed r.id j s, nat_eq_iff r.id j) in
        rw (op, same) (found, refl, refl, refl, λ e. cc, inl refl)
    | inr (next, op, same, left) ↦
        let found : lookup j (mark_failed r.id next s).records
            ≡ (if r.id == j then some (fail_record next r) else lookup j s.records) =
          ground (arith, lookup-mark_failed r.id j next s, nat_eq_iff r.id j) in
        rw (op, same) (found, ground arith, ground arith, ground arith, ground arith, ground arith)
  ]

-- The retry of a job waits for the backoff at the attempt that failed, counted from one, where the
-- first retry's index is zero: with a linear backoff a retry after attempt `a + 1` is due one step
-- later than the backoff for index `a`. So a first retry waits `base + step` and never `base`. The
-- job sets this backoff itself, and chrono takes the duration.
pub next_attempt_at_skips_base :
    (fl : Floats) (chrono : Chrono) (config : JobsConfig) (entry : HandlerEntry) (t : Reading)
    (r : JobRecord) (base step a : ℕ)
    → entry.metadata.backoff ≡ some (linear base step)
    → r.attempt ≡ suc a
    → base + step * suc a ≤ duration_max
    → chrono.from_std (base + step * suc a) ≡ some (base + step * suc a)
    → next_attempt_at fl chrono config entry t r
      ≡ t.now + (delay_for fl t.subsec (linear base step) a + step)
unfolding next_attempt_at delay_for
next_attempt_at_skips_base fl chrono config entry t r base step a own tried fits takes =
    let late : saturating_add base (saturating_mul step (suc a)) ≡ base + step * suc a =
      grind arith in
    let early : saturating_add base (saturating_mul step a) + step ≡ base + step * suc a =
      grind arith in
    rw (own, tried, late, takes, early)
