-- ===== src/Jobs/Rows.antt =====
-- crates/walastack-jobs/src/sqlite.rs: the rows of `SqliteJobStore` and how they are read. What serde
-- and chrono do to a text is a parameter; the SQL statements run in sqlx and are left out, but for the
-- values that the one of `enqueue` writes.
use walastack_rs.Base.{
  ℕ, ◌-◌, ◌%◌, ◌≤◌, String, ◌≡◌, refl, arith, ltb, if◌then◌else◌, ◌==◌, nat_keys, string_keys,
  u32_max, u64_max, ℤ, Result, ok, err, ◌>>=◌, map_err,
}
use walastack_rs.Base.{pos, negsuc}
use walastack_rs.Jobs.Store.{
  JobStatus, pending, running, completed, retrying, dead, NewJob, JobRecord,
}
use walastack_rs.Jobs.Store.Arrivals.{new_record}
use walastack_rs.Jobs.Plugins.{JobsError, serialization, store_error}

-- A value of i64 is an integer in its range.
pub record SqliteJobRow : Type 0 where
  pub id : ℤ
  pub name : String
  pub payload : String
  pub queue : String
  pub attempt : ℤ
  pub max_attempts : ℤ
  pub status : String
  pub enqueued_at : String
  pub scheduled_at : String

-- `x as i64` for a u64 `x`.
unfoldable pub id_to_i64 : ℕ → ℤ
id_to_i64 id = if ltb id 9223372036854775808 then pos id else negsuc (18446744073709551615 - id)

-- `x as u64` and `x as u32` for an i64 `x`.
abbrev pub as_u64 : ℤ → ℕ
as_u64 (pos n) = n
as_u64 (negsuc n) = 18446744073709551615 - n

abbrev pub as_u32 : ℤ → ℕ
as_u32 (pos n) = n % 4294967296
as_u32 (negsuc n) = 4294967295 - n % 4294967296

-- An unknown status is the text of the error.
unfoldable pub parse_status : String → Result JobStatus JobsError
parse_status s =
    if s == "Pending"
    then ok pending
    else if s == "Running"
    then ok running
    else if s == "Completed"
    then ok completed
    else if s == "Retrying"
    then ok retrying
    else if s == "Dead"
    then ok dead
    else err (store_error s)

-- How a JSON value and a time are written and read.
pub record Codec : Type 0 where
  pub json_to_string : String → String
  pub json_from_str : String → Result String String
  pub to_rfc3339 : ℕ → String
  pub parse_from_rfc3339 : String → Result ℕ String

module _ (codec : Codec) where
  open codec use {json_to_string, json_from_str, to_rfc3339, parse_from_rfc3339}

  unfoldable pub parse_ts : String → Result ℕ JobsError
  parse_ts s = map_err store_error (parse_from_rfc3339 s)

  unfoldable pub into_record : SqliteJobRow → Result JobRecord JobsError
  unfolding parse_status parse_ts
  into_record row = map_err serialization (json_from_str row.payload) >>= λ payload.
      parse_status row.status >>= λ status. parse_ts row.enqueued_at >>= λ enqueued_at.
      parse_ts row.scheduled_at >>= λ scheduled_at. ok (record {
        id = as_u64 row.id;
        name = row.name;
        payload = payload;
        queue = row.queue;
        attempt = as_u32 row.attempt;
        max_attempts = as_u32 row.max_attempts;
        status = status;
        enqueued_at = enqueued_at;
        scheduled_at = scheduled_at;
      })

  -- The row that `enqueue` inserts, under the id that the database gives it.
  unfoldable pub inserted_row : (id : ℤ) → (now : ℕ) → NewJob → SqliteJobRow
  inserted_row id now job = record {
    id = id;
    name = job.name;
    payload = json_to_string job.payload;
    queue = job.queue;
    attempt = pos 0;
    max_attempts = pos job.max_attempts;
    status = "Pending";
    enqueued_at = to_rfc3339 now;
    scheduled_at = to_rfc3339 job.scheduled_at;
  }

  as_u64-id_to_i64 : (id : ℕ) → id ≤ u64_max → as_u64 (id_to_i64 id) ≡ id
  unfolding id_to_i64
  as_u64-id_to_i64 id h = ground arith

  -- What `enqueue` writes reads back: the row that it inserts, under the bits of any 64-bit number,
  -- gives the same record as the in-memory store makes, as long as serde and chrono read what they
  -- wrote for the job's payload and the two times. `max_attempts` is a u32.
  pub into_record-inserted_row :
      (id now : ℕ) (job : NewJob)
      → id ≤ u64_max
      → job.max_attempts ≤ u32_max
      → json_from_str (json_to_string job.payload) ≡ ok job.payload
      → parse_from_rfc3339 (to_rfc3339 now) ≡ ok now
      → parse_from_rfc3339 (to_rfc3339 job.scheduled_at) ≡ ok job.scheduled_at
      → into_record (inserted_row (id_to_i64 id) now job) ≡ ok (new_record id now job)
  unfolding into_record inserted_row
  into_record-inserted_row id now job small few payload written due =
      let number = as_u64-id_to_i64 id small in
      let attempts : job.max_attempts % 4294967296 ≡ job.max_attempts = omega arith in
      rw (payload, written, due, number, attempts) refl
