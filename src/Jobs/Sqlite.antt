-- ===== src/Jobs/Sqlite.antt =====
-- crates/walastack-jobs/src/sqlite.rs: the operations of `SqliteJobStore`. The table is its rows by id,
-- and each SQL statement is what it does to them; SQLite runs it whole. The column `last_error`, which
-- nothing reads, is left out.
pub mod Refinement
pub mod Pulls
pub mod Order
use walastack_rs.Base.{
  ℕ, zero, suc, ◌+◌, String, Bool, ◌&&◌, ◌||◌, Option, none, some, List, [], ◌∷◌, ltb,
  if◌then◌else◌, ◌==◌, nat_keys, string_keys, has, map_or, lookup, insert, adjust, ℤ, Result, ok,
  ◌>>=◌,
}
use walastack_rs.Base.{pos, negsuc}
use walastack_rs.Jobs.Store.{NewJob, JobRecord}
use walastack_rs.Jobs.Plugins.{JobsError}
use walastack_rs.Jobs.Rows.{SqliteJobRow, Codec, into_record, inserted_row, as_u64}

pub record Table : Type 0 where
  pub last_id : ℕ  -- AUTOINCREMENT
  pub rows : List (ℕ × SqliteJobRow)

-- `attempt + 1` in SQL, on an integer.
unfoldable pub sql_suc : ℤ → ℤ
sql_suc (pos n) = pos (n + 1)
sql_suc (negsuc zero) = pos 0
sql_suc (negsuc (suc n)) = negsuc n

-- `SET status = 'Running', attempt = attempt + 1`, and the other two updates.
unfoldable pub start_row : SqliteJobRow → SqliteJobRow
unfolding sql_suc
start_row row = record row { status = "Running"; attempt = sql_suc row.attempt }

unfoldable pub complete_row : SqliteJobRow → SqliteJobRow
complete_row row = record row { status = "Completed" }

unfoldable pub is_waiting_row : SqliteJobRow → Bool
is_waiting_row row = (row.status == "Pending") || (row.status == "Retrying")

module _ (codec : Codec) where
  unfoldable pub fail_row : (next_attempt_at : Option ℕ) → SqliteJobRow → SqliteJobRow
  fail_row none row = record row { status = "Dead" }
  fail_row (some at) row = record row { status = "Retrying"; scheduled_at = codec.to_rfc3339 at }

-- The two comparisons of texts are SQLite's.
module _ (codec : Codec) (text_le text_lt : String → String → Bool) where
  open codec use {to_rfc3339}

  -- The WHERE clause of the pull.
  unfoldable pub is_due : (queues : List String) → (now : ℕ) → SqliteJobRow → Bool
  unfolding is_waiting_row
  is_due queues now row =
      has row.queue queues && (is_waiting_row row && text_le row.scheduled_at (to_rfc3339 now))

  -- ORDER BY scheduled_at ASC, id ASC.
  unfoldable pub precedes : ℕ × SqliteJobRow → ℕ × SqliteJobRow → Bool
  precedes (i, a) (j, b) =
      text_lt a.scheduled_at b.scheduled_at || ((a.scheduled_at == b.scheduled_at) && ltb i j)

  -- LIMIT 1.
  unfoldable pub first_due :
      (queues : List String) → (now : ℕ) → List (ℕ × SqliteJobRow) → Option (ℕ × SqliteJobRow)
  unfolding is_due precedes
  first_due queues now [] = none
  first_due queues now (x ∷ rest) =
      let best = first_due queues now rest in
      if is_due queues now x.1
      then some (map_or x (λ y. if precedes y x then y else x) best)
      else best

  unfoldable pub insert_job : (now : ℕ) → NewJob → Table → ℕ × Table
  unfolding inserted_row
  insert_job now job t =
      let id = t.last_id + 1 in
      (
        as_u64 (pos id),
        record { last_id = id; rows = insert id (inserted_row codec (pos id) now job) t.rows },
      )

  -- The update of the row that was found, and the row that it returns, read as a record.
  unfoldable pub take_row :
      Option (ℕ × SqliteJobRow) → Table → Result (Option JobRecord) JobsError × Table
  unfolding into_record start_row
  take_row none t = (ok none, t)
  take_row (some (id, row)) t = (
    into_record codec (start_row row) >>= λ r. ok (some r),
    record t { rows = adjust id start_row t.rows },
  )

  unfoldable pub pull_row :
      (queues : List String) → (now : ℕ) → Table → Result (Option JobRecord) JobsError × Table
  unfolding first_due take_row
  pull_row [] now t = (ok none, t)
  pull_row (q ∷ queues) now t = take_row (first_due (q ∷ queues) now t.rows) t

  unfoldable pub complete_job : (id : ℕ) → Table → Table
  unfolding complete_row
  complete_job id t = record t { rows = adjust id complete_row t.rows }

  unfoldable pub fail_job : (id : ℕ) → (next_attempt_at : Option ℕ) → Table → Table
  unfolding fail_row
  fail_job id next t = record t { rows = adjust id (fail_row codec next) t.rows }

  unfoldable pub fetch_row : (id : ℕ) → Table → Result (Option JobRecord) JobsError
  unfolding into_record
  fetch_row id t = elim (lookup id t.rows) [
    | none ↦ ok none
    | some row ↦ into_record codec row >>= λ r. ok (some r)
  ]
