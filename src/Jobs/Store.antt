-- ===== src/Jobs/Store.antt =====
-- crates/walastack-jobs/src/lib.rs: the records of the jobs and `InMemoryJobStore`. A payload is its
-- JSON text; times are numbers. Each operation runs under the store's lock and never fails.
pub mod Queues
pub mod Invariant
pub mod Operations
pub mod Pull
pub mod Claims
pub mod Search
pub mod Arrivals
pub mod Implements
use walastack_rs.Base.{
  ℕ, zero, suc, ◌+◌, ◌%◌, String, Bool, true, false, ◌&&◌, Option, none, some, List, [], ◌∷◌, ◌++◌,
  leb, if◌then◌else◌, nat_keys, string_keys, is_some, map_or, and_then, option_map, unwrap_or,
  lookup, insert, adjust, u32_saturating_suc,
}

pub data JobStatus : Type 0 where
  pending : JobStatus
  running : JobStatus
  completed : JobStatus
  retrying : JobStatus
  dead : JobStatus

pub record NewJob : Type 0 where
  pub name : String
  pub payload : String
  pub queue : String
  pub max_attempts : ℕ  -- u32
  pub scheduled_at : ℕ

pub record JobRecord : Type 0 where
  pub id : ℕ  -- u64
  pub name : String
  pub payload : String
  pub queue : String
  pub attempt : ℕ  -- u32
  pub max_attempts : ℕ  -- u32
  pub status : JobStatus
  pub enqueued_at : ℕ
  pub scheduled_at : ℕ

pub record JobStore : Type 0 where
  pub next_id : ℕ  -- u64
  pub queues : List (String × List ℕ)
  pub records : List (ℕ × JobRecord)

unfoldable pub new_store : JobStore
new_store = record { next_id = 0; queues = []; records = [] }

-- `queues.entry(queue).or_default().push_back(id)`.
unfoldable pub push_back : String → ℕ → List (String × List ℕ) → List (String × List ℕ)
push_back queue id queues = insert queue (unwrap_or (lookup queue queues) [] ++ id ∷ []) queues

unfoldable pub enqueue : (now : ℕ) → NewJob → JobStore → ℕ × JobStore
unfolding push_back
enqueue now job s =
    let id = (s.next_id + 1) % 18446744073709551616 in
    (
      id,
      record {
        next_id = id;
        queues = push_back job.queue id s.queues;
        records =
            insert id
              (record {
                id = id;
                name = job.name;
                payload = job.payload;
                queue = job.queue;
                attempt = 0;
                max_attempts = job.max_attempts;
                status = pending;
                enqueued_at = now;
                scheduled_at = job.scheduled_at;
              })
              s.records;
      },
    )

unfoldable pub is_waiting : JobStatus → Bool
is_waiting pending = true
is_waiting retrying = true
is_waiting _ = false

unfoldable pub is_eligible : (now : ℕ) → JobRecord → Bool
unfolding is_waiting
is_eligible now r = is_waiting r.status && leb r.scheduled_at now

-- The first eligible id of a queue, with its position.
unfoldable pub find_eligible : (now : ℕ) → List (ℕ × JobRecord) → List ℕ → Option (ℕ × ℕ)
find_eligible now records [] = none
find_eligible now records (id ∷ q) =
    if map_or false (is_eligible now) (lookup id records)
    then some (0, id)
    else option_map (λ p. (suc p.0, p.1)) (find_eligible now records q)

-- `VecDeque::remove`.
unfoldable pub remove_at : ℕ → List ℕ → List ℕ
remove_at i [] = []
remove_at zero (x ∷ xs) = xs
remove_at (suc i) (x ∷ xs) = x ∷ remove_at i xs

-- What a pull does to the record.
unfoldable pub begin_attempt : JobRecord → JobRecord
begin_attempt r = record r { attempt = u32_saturating_suc r.attempt; status = running }

-- The loop over the queues, in the caller's order.
unfoldable pub pull_next : (now : ℕ) → List String → JobStore → Option JobRecord × JobStore
pull_next now [] s = (none, s)
pull_next now (queue ∷ rest) s =
    elim (and_then (lookup queue s.queues) (find_eligible now s.records)) [
      | none ↦ pull_next now rest s
      | some (idx, id) ↦
          let s' = record s { queues = adjust queue (remove_at idx) s.queues } in
          elim (lookup id s.records) [
            | none ↦ pull_next now rest s'
            | some r ↦
                (some (begin_attempt r), record s' { records = adjust id begin_attempt s.records })
          ]
    ]

unfoldable pub mark_completed : (id : ℕ) → JobStore → JobStore
mark_completed id s = record s {
  records = adjust id (λ r. record r { status = completed }) s.records;
}

-- What a failure does to the record: dead without a next attempt, else waiting for it.
unfoldable pub fail_record : Option ℕ → JobRecord → JobRecord
fail_record none r = record r { status = dead }
fail_record (some at) r = record r { status = retrying; scheduled_at = at }

unfoldable pub mark_failed : (id : ℕ) → (next_attempt_at : Option ℕ) → JobStore → JobStore
mark_failed id next_attempt_at s = elim (lookup id s.records) [
  | none ↦ s
  | some r ↦ record s {
    records = adjust id (fail_record next_attempt_at) s.records;
    queues = if is_some next_attempt_at then push_back r.queue id s.queues else s.queues;
  }
]

unfoldable pub fetch : (id : ℕ) → JobStore → Option JobRecord
fetch id s = lookup id s.records
