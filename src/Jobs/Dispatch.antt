-- ===== src/Jobs/Dispatch.antt =====
-- crates/walastack-jobs/src/lib.rs: the registered handlers, the configuration, `dispatch_one` and
-- the worker's loop. What a job answers, the clocks and the timer are a reading of each dispatch;
-- the result is the sequence of effects, the calls of the store among them.
pub mod Settling
pub mod Steps
pub mod Attempts
use walastack_rs.Base.{
  ℕ, ◌+◌, String, Bool, Option, none, some, List, [], ◌∷◌, ◌++◌, leb, if◌then◌else◌, nat_keys,
  string_keys, option_map, unwrap_or, lookup, insert, u32_saturating_suc, Result, ok, err, ◌>>=◌,
  map_err,
}
use walastack_rs.Scheduler.Backoff.{Floats, Backoff, delay_for}
use walastack_rs.Jobs.Store.{JobRecord, JobStore, mark_completed, mark_failed}

pub record JobMetadata : Type 0 where
  pub queue : Option String
  pub max_attempts : Option ℕ
  pub timeout : Option ℕ
  pub backoff : Option Backoff

pub record JobsConfig : Type 0 where
  pub worker_count : ℕ
  pub queues : List String
  pub default_queue : String
  pub default_max_attempts : ℕ
  pub default_backoff : Backoff
  pub poll_interval : ℕ

-- The texts of a job's errors, with what they are formatted from.
pub data JobFailure : Type 0 where
  no_handler : (name : String) → JobFailure
  exceeded_timeout : (name : String) (timeout : ℕ) → JobFailure
  bad_payload : String → JobFailure
  job_error : String → JobFailure

pub data JobEvent : Type 0 where
  job_enqueued : (id : ℕ) (name queue : String) (scheduled_at : ℕ) → JobEvent
  job_started : (id : ℕ) (name : String) (attempt : ℕ) → JobEvent
  job_completed : (id : ℕ) (name : String) (attempt duration : ℕ) → JobEvent
  job_failed : (id : ℕ) (name : String) (attempt : ℕ) (error : JobFailure) → JobEvent
  job_retrying : (id : ℕ) (name : String) (next_attempt next_attempt_at : ℕ) → JobEvent
  job_dead : (id : ℕ) (name : String) (total_attempts : ℕ) → JobEvent

-- A type of jobs: its name and metadata, how serde reads a payload (as a number that stands for the
-- value), and what a run of it answers at an attempt.
pub record Job : Type 0 where
  pub name : String
  pub metadata : JobMetadata
  pub from_value : String → Result ℕ String
  pub run : (job attempt : ℕ) → Result (Unit {0}) String

pub record HandlerEntry : Type 0 where
  pub run : (payload : String) → (attempt : ℕ) → Result (Unit {0}) JobFailure
  pub metadata : JobMetadata

abbrev pub JobsDispatcher : Type 0
JobsDispatcher = List (String × HandlerEntry)

-- The handler that `register` builds: a payload that serde refuses is an error of the job.
unfoldable pub handler : Job → HandlerEntry
handler j = record {
  run = λ payload attempt.
      map_err bad_payload (j.from_value payload) >>= λ job. map_err job_error (j.run job attempt);
  metadata = j.metadata;
}

unfoldable pub register : Job → JobsDispatcher → JobsDispatcher
unfolding handler
register j dispatcher = insert j.name (handler j) dispatcher

unfoldable pub metadata_of : String → JobsDispatcher → Option JobMetadata
metadata_of name dispatcher = option_map (λ h. h.metadata) (lookup name dispatcher)

pub data JobEffect : Type 0 where
  publish : JobEvent → JobEffect
  completes : (id : ℕ) → JobEffect
  fails : (id : ℕ) (error : JobFailure) (next_attempt_at : Option ℕ) → JobEffect
  sleeps : ℕ → JobEffect

-- What one dispatch meets.
pub record Reading : Type 0 where
  pub late : Bool  -- the run outlasts the timeout, where there is one
  pub elapsed : ℕ
  pub now : ℕ
  pub subsec : ℕ

-- `chrono::Duration::from_std`, which may refuse a duration, and `chrono::Duration::seconds(1)`.
pub record Chrono : Type 0 where
  pub from_std : ℕ → Option ℕ
  pub one_second : ℕ

module _ (fl : Floats) (chrono : Chrono) (config : JobsConfig) where
  -- The answer of the run, under the timeout of the metadata.
  unfoldable pub job_result : HandlerEntry → Reading → JobRecord → Result (Unit {0}) JobFailure
  job_result entry t r =
      let answer = entry.run r.payload r.attempt in
      elim entry.metadata.timeout [
        | none ↦ answer
        | some timeout ↦ if t.late then err (exceeded_timeout r.name timeout) else answer
      ]

  -- When the next attempt is due.
  unfoldable pub next_attempt_at : HandlerEntry → Reading → JobRecord → ℕ
  next_attempt_at entry t r =
      let delay =
        delay_for fl t.subsec (unwrap_or entry.metadata.backoff config.default_backoff) r.attempt in
      t.now + unwrap_or (chrono.from_std delay) chrono.one_second

  -- The effects of a run that was made, after `JobStarted`.
  unfoldable pub settle :
      HandlerEntry → Reading → JobRecord → Result (Unit {0}) JobFailure → List JobEffect
  unfolding next_attempt_at
  settle entry t r (ok _) =
      publish (job_completed r.id r.name r.attempt t.elapsed) ∷ completes r.id ∷ []
  settle entry t r (err error) =
      publish (job_failed r.id r.name r.attempt error)
      ∷ (if leb r.max_attempts r.attempt
          then publish (job_dead r.id r.name r.attempt) ∷ fails r.id error none ∷ []
          else publish
              (job_retrying r.id r.name (u32_saturating_suc r.attempt) (next_attempt_at entry t r))
            ∷ fails r.id error (some (next_attempt_at entry t r))
            ∷ [])

  unfoldable pub dispatch_one : JobsDispatcher → Reading → JobRecord → List JobEffect
  unfolding settle job_result
  dispatch_one dispatcher t r = elim (lookup r.name dispatcher) [
    | none ↦
        publish (job_failed r.id r.name r.attempt (no_handler r.name))
        ∷ publish (job_dead r.id r.name r.attempt)
        ∷ fails r.id (no_handler r.name) none
        ∷ []
    | some entry ↦
        publish (job_started r.id r.name r.attempt) ∷ settle entry t r (job_result entry t r)
  ]

-- The calls of the store, made on the in-memory store.
unfoldable pub perform : List JobEffect → JobStore → JobStore
perform [] s = s
perform (completes id ∷ es) s = perform es (mark_completed id s)
perform (fails id _ next ∷ es) s = perform es (mark_failed id next s)
perform (publish _ ∷ es) s = perform es s
perform (sleeps _ ∷ es) s = perform es s

-- One turn of the worker's loop.
pub record Poll : Type 0 where
  pub shut : Bool  -- the kernel is shut down at the head of the loop
  pub shut_first : Bool  -- the shutdown signal wins over the pull
  pub pulled : Result (Option JobRecord) String  -- what the store answers
  pub reading : Reading  -- what the dispatch meets
  pub shut_in_sleep : Bool  -- the shutdown signal comes during the poll interval

module _ (fl : Floats) (chrono : Chrono) (config : JobsConfig) (dispatcher : JobsDispatcher) where
  unfoldable pub worker_loop : List Poll → List JobEffect
  worker_loop [] = []
  worker_loop (p ∷ polls) =
      let rest = worker_loop polls in
      let idle = sleeps config.poll_interval ∷ (if p.shut_in_sleep then [] else rest) in
      let answered : List JobEffect = elim p.pulled [
        | err _ ↦ idle
        | ok none ↦ idle
        | ok (some r) ↦ dispatch_one fl chrono config dispatcher p.reading r ++ rest
      ] in
      if p.shut then [] else if p.shut_first then [] else answered
