-- ===== src/Jobs/Contract.antt =====
-- What `JobStore` of crates/walastack-jobs/src/lib.rs promises its callers, as an interface: the
-- operations, and what each does to the records that `fetch` shows.
use walastack_rs.Base.{
  ℕ, String, ◌≡◌, refl, sym, ap, ◌∙◌, inl, inr, true, false, Option, none, some, List, arith,
  if◌then◌else◌, Bool-cases, Option-cases, ◌==◌, ==_iff, ==_refl, nat_keys, string_keys, codes_keys,
  has, option_map,
}
use walastack_rs.Jobs.Store.{
  NewJob, JobRecord, completed, is_waiting, is_eligible, begin_attempt, fail_record,
}

pub record JobStoreContract : Type 1 where
  pub State : Type 0
  pub IsGood : State → Type 0  -- what the store keeps of its representation
  pub HasRoom : State → Type 0  -- a number is left
  pub empty : State
  pub enqueue : (now : ℕ) → NewJob → State → ℕ × State
  pub pull_next : (now : ℕ) → List String → State → Option JobRecord × State
  pub mark_completed : (id : ℕ) → State → State
  pub mark_failed : (id : ℕ) → Option ℕ → State → State
  pub fetch : (id : ℕ) → State → Option JobRecord
  pub empty-IsGood : IsGood empty
  pub enqueue-IsGood :
      (now : ℕ) (job : NewJob) (s : State) → IsGood s → HasRoom s → IsGood (enqueue now job s).1
  pub pull_next-IsGood :
      (now : ℕ) (names : List String) (s : State) → IsGood s → IsGood (pull_next now names s).1
  pub mark_completed-IsGood : (id : ℕ) (s : State) → IsGood s → IsGood (mark_completed id s)
  pub mark_failed-IsGood :
      (id : ℕ) (next : Option ℕ) (s : State) → IsGood s → IsGood (mark_failed id next s)
  -- The number is new, and no other record changes.
  pub enqueue-fetch :
      (now : ℕ) (job : NewJob) (s : State)
      → IsGood s
      → HasRoom s
      → (fetch (enqueue now job s).0 s ≡ none)
        × ((other : ℕ)
            → ((enqueue now job s).0 == other) ≡ false
            → fetch other (enqueue now job s).1 ≡ fetch other s)
  -- A pull that gives a job takes one that is due and in a queue that is asked for.
  pub pull_next-some :
      (now : ℕ) (names : List String) (s : State) (job : JobRecord)
      → IsGood s
      → (pull_next now names s).0 ≡ some job
      → ((r : JobRecord) × (fetch job.id s ≡ some r)
          × (is_eligible now r ≡ true)
          × (has r.queue names ≡ true)
          × (job ≡ begin_attempt r))
        × ((other : ℕ)
            → fetch other (pull_next now names s).1
              ≡ (if job.id == other then some job else fetch other s))
  -- A pull that gives none changes nothing, and none was due.
  pub pull_next-none :
      (now : ℕ) (names : List String) (s : State)
      → IsGood s
      → (pull_next now names s).0 ≡ none
      → ((other : ℕ) → fetch other (pull_next now names s).1 ≡ fetch other s)
        × ((id : ℕ) (r : JobRecord)
            → fetch id s ≡ some r
            → has r.queue names ≡ true
            → is_eligible now r ≡ false)
  pub mark_completed-fetch :
      (id other : ℕ) (s : State)
      → fetch other (mark_completed id s) ≡ (
          if id == other
          then option_map {A = JobRecord} (λ r. record r { status = completed }) (fetch other s)
          else fetch other s)
  pub mark_failed-fetch :
      (id other : ℕ) (next : Option ℕ) (s : State)
      → fetch other (mark_failed id next s)
        ≡ (if id == other then option_map (fail_record next) (fetch other s) else fetch other s)

module _ (store : JobStoreContract) where
  open store use {State, IsGood, HasRoom, enqueue, pull_next, mark_completed, mark_failed, fetch}

  -- Operations in which the job is not failed.
  pub data Leads (id : ℕ) (s : State) : State → Type 0 where
    stays : Leads id s s
    then_enqueues :
        {t : State} (now : ℕ) (job : NewJob)
        → HasRoom t
        → Leads id s t
        → Leads id s (enqueue now job t).1
    then_pulls :
        {t : State} (now : ℕ) (names : List String)
        → Leads id s t
        → Leads id s (pull_next now names t).1
    then_completes : {t : State} (other : ℕ) → Leads id s t → Leads id s (mark_completed other t)
    then_fails :
        {t : State} (other : ℕ) (next : Option ℕ)
        → (other == id) ≡ false
        → Leads id s t
        → Leads id s (mark_failed other next t)

  -- The job is there and waits for no worker.
  abbrev pub IsTaken : (id : ℕ) → State → Type 0
  IsTaken id t = (r : JobRecord) × (fetch id t ≡ some r) × (is_waiting r.status ≡ false)

  pull_next-other :
      (now : ℕ) (names : List String) (t : State) (id : ℕ) (again : JobRecord)
      → IsGood t
      → IsTaken id t
      → (pull_next now names t).0 ≡ some again
      → (again.id == id) ≡ false
  unfolding is_eligible
  pull_next-other now names t id again good (r, there, taken) got =
      elim (Bool-cases (again.id == id)) [
        | inr other ↦ other
        | inl same ↦
            let (found, here, due, asked, begun) =
              (store.pull_next-some now names t again good got).0 in
            let equal : again.id ≡ id = (==_iff again.id id).0 same in
            let one : some found ≡ some r = sym here ∙ ap (λ k. fetch k t) equal ∙ there in
            let waits : is_waiting found.status ≡ true = ground (arith, due) in
            absurd (cc (one, taken, waits))
      ]

  Leads-IsTaken :
      (id : ℕ) (s t : State) → Leads id s t → IsGood s → IsTaken id s → IsGood t × IsTaken id t
  unfolding is_waiting
  Leads-IsTaken id s _ stays good taken = (good, taken)
  Leads-IsTaken id s _ (then_enqueues {t} now job room leads) good taken =
      let (good', (r, there, busy)) = Leads-IsTaken id s t leads good taken in
      let (new, others) = store.enqueue-fetch now job t good' room in
      let apart : ((enqueue now job t).0 == id) ≡ false =
        elim (Bool-cases ((enqueue now job t).0 == id)) [
          | inr other ↦ other
          | inl same ↦
              absurd
                (cc (new, there, ap (λ k. fetch k t) ((==_iff (enqueue now job t).0 id).0 same)))
        ] in
      (store.enqueue-IsGood now job t good' room, (r, others id apart ∙ there, busy))
  Leads-IsTaken id s _ (then_pulls {t} now names leads) good taken =
      let (good', (r, there, busy)) = Leads-IsTaken id s t leads good taken in
      let kept : fetch id (pull_next now names t).1 ≡ fetch id t =
        elim (Option-cases (pull_next now names t).0) [
          | inl nothing ↦ (store.pull_next-none now names t good' nothing).0 id
          | inr (again, got) ↦
              (store.pull_next-some now names t again good' got).1 id
              ∙ rw (pull_next-other now names t id again good' (r, there, busy) got) refl
        ] in
      (store.pull_next-IsGood now names t good', (r, kept ∙ there, busy))
  Leads-IsTaken id s _ (then_completes {t} other leads) good taken =
      let (good', (r, there, busy)) = Leads-IsTaken id s t leads good taken in
      (
        store.mark_completed-IsGood other t good',
        elim (Bool-cases (other == id)) [
          | inl same ↦ (
            record r { status = completed },
            store.mark_completed-fetch other id t ∙ rw (same, there) refl,
            refl,
          )
          | inr apart ↦ (r, store.mark_completed-fetch other id t ∙ rw apart there, busy)
        ],
      )
  Leads-IsTaken id s _ (then_fails {t} other next apart leads) good taken =
      let (good', (r, there, busy)) = Leads-IsTaken id s t leads good taken in
      (
        store.mark_failed-IsGood other next t good',
        (r, store.mark_failed-fetch other id next t ∙ rw apart there, busy),
      )

  -- A job that a pull has given to one worker is given to no other, whatever the operations in
  -- between, as long as it is not failed: for every store that keeps the contract.
  pub pull_next_once :
      (now later : ℕ) (names asked : List String) (s t : State) (job again : JobRecord)
      → IsGood s
      → (pull_next now names s).0 ≡ some job
      → Leads job.id (pull_next now names s).1 t
      → (pull_next later asked t).0 ≡ some again
      → (again.id == job.id) ≡ false
  pull_next_once now later names asked s t job again good got leads more =
      let ((r, here, due, in_queue, begun), others) =
        store.pull_next-some now names s job good got in
      let taken : IsTaken job.id (pull_next now names s).1 = (
        job,
        others job.id ∙ rw (==_refl job.id) refl,
        rw begun (unfold begin_attempt is_waiting in refl),
      ) in
      let (good', taken') =
        Leads-IsTaken job.id (pull_next now names s).1 t leads
          (store.pull_next-IsGood now names s good) taken in
      pull_next-other later asked t job.id again good' taken' more
