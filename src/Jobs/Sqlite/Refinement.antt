-- ===== src/Jobs/Sqlite/Refinement.antt =====
-- The rows of crates/walastack-jobs/src/sqlite.rs against the records of the in-memory store.
use walastack_rs.Base.{
  ℕ, ◌<◌, String, ◌≡◌, refl, sym, inl, inr, Bool, ◌&&◌, Option, none, some, List, arith, leb,
  ==_iff, nat_keys, string_keys, has, u32_max, u32_saturating_suc, ℤ, ok, Result-cases,
}
use walastack_rs.Base.{pos}
use walastack_rs.Jobs.Store.{
  JobStatus, JobRecord, running, completed, retrying, dead, is_waiting, is_eligible, begin_attempt,
  fail_record,
}
use walastack_rs.Jobs.Rows.{
  SqliteJobRow, Codec, parse_status, parse_ts, into_record, as_u32, as_u64,
}
use walastack_rs.Jobs.Sqlite.{sql_suc, start_row, complete_row, is_waiting_row, fail_row, is_due}

module _ (codec : Codec) where
  -- What a row that reads as a record holds.
  record Reads (row : SqliteJobRow) (r : JobRecord) : Type 0 where
    pub payload : codec.json_from_str row.payload ≡ ok r.payload
    pub status : parse_status row.status ≡ ok r.status
    pub enqueued_at : parse_ts codec row.enqueued_at ≡ ok r.enqueued_at
    pub scheduled_at : parse_ts codec row.scheduled_at ≡ ok r.scheduled_at
    pub rest :
        (r.id ≡ as_u64 row.id)
        × (r.name ≡ row.name)
        × (r.queue ≡ row.queue)
        × (r.attempt ≡ as_u32 row.attempt)
        × (r.max_attempts ≡ as_u32 row.max_attempts)

  abbrev read :
      SqliteJobRow → (payload : String) → JobStatus → (enqueued_at scheduled_at : ℕ) → JobRecord
  read row payload status enqueued_at scheduled_at = record {
    id = as_u64 row.id;
    name = row.name;
    payload = payload;
    queue = row.queue;
    attempt = as_u32 row.attempt;
    max_attempts = as_u32 row.max_attempts;
    status = status;
    enqueued_at = enqueued_at;
    scheduled_at = scheduled_at;
  }

  into_record-read :
      (row : SqliteJobRow) (payload : String) (status : JobStatus) (a b : ℕ)
      → codec.json_from_str row.payload ≡ ok payload
      → parse_status row.status ≡ ok status
      → parse_ts codec row.enqueued_at ≡ ok a
      → parse_ts codec row.scheduled_at ≡ ok b
      → into_record codec row ≡ ok (read row payload status a b)
  unfolding into_record
  into_record-read row payload status a b p s q t = rw (p, s, q, t) refl

  Reads-into_record :
      (row : SqliteJobRow) (r : JobRecord) → into_record codec row ≡ ok r → Reads row r
  unfolding into_record
  Reads-into_record row r h = elim (Result-cases (codec.json_from_str row.payload)) [
    | inr (e, bad) ↦ absurd (ground (arith, h))
    | inl (payload, p) ↦ elim (Result-cases (parse_status row.status)) [
      | inr (e, bad) ↦ absurd (ground (arith, h))
      | inl (status, s) ↦ elim (Result-cases (parse_ts codec row.enqueued_at)) [
        | inr (e, bad) ↦ absurd (ground (arith, h))
        | inl (a, q) ↦ elim (Result-cases (parse_ts codec row.scheduled_at)) [
          | inr (e, bad) ↦ absurd (ground (arith, h))
          | inl (b, t) ↦
              let same : read row payload status a b ≡ r =
                cc (into_record-read row payload status a b p s q t, h) in
              let reads : Reads row (read row payload status a b) = record {
                payload = p;
                status = s;
                enqueued_at = q;
                scheduled_at = t;
                rest = (refl, refl, refl, refl, refl);
              } in
              rw same at reads
        ]
      ]
    ]
  ]

  sql_suc-as_u32 :
      (a : ℤ) (n : ℕ) → a ≡ pos n → n < u32_max → as_u32 (sql_suc a) ≡ u32_saturating_suc n
  unfolding sql_suc
  sql_suc-as_u32 a n h few = rw h (omega arith)

  -- The change of a row that keeps all but the attempt, the status and the time.
  changed-Reads :
      (row : SqliteJobRow) (r : JobRecord) (attempt : ℤ) (text : String) (at : String) (tried : ℕ)
      (status : JobStatus) (time : ℕ)
      → Reads row r
      → as_u32 attempt ≡ tried
      → parse_status text ≡ ok status
      → parse_ts codec at ≡ ok time
      → into_record codec (record row { attempt = attempt; status = text; scheduled_at = at })
        ≡ ok (record r { attempt = tried; status = status; scheduled_at = time })
  unfolding into_record
  changed-Reads row r attempt text at tried status time v a s t =
      let (id, name, queue, _, maximum) = v.rest in
      rw (v.payload, s, v.enqueued_at, t, a, id, name, queue, maximum) refl

  into_record-start_row :
      (row : SqliteJobRow) (r : JobRecord)
      → Reads row r
      → row.attempt ≡ pos r.attempt
      → r.attempt < u32_max
      → into_record codec (start_row row) ≡ ok (begin_attempt r)
  unfolding start_row begin_attempt parse_status
  into_record-start_row row r v exact room =
      changed-Reads row r (sql_suc row.attempt) "Running" row.scheduled_at
        (u32_saturating_suc r.attempt) running r.scheduled_at v
        (sql_suc-as_u32 row.attempt r.attempt exact room) refl v.scheduled_at

  into_record-complete_row :
      (row : SqliteJobRow) (r : JobRecord)
      → Reads row r
      → into_record codec (complete_row row) ≡ ok (record r { status = completed })
  unfolding complete_row parse_status
  into_record-complete_row row r v =
      changed-Reads row r row.attempt "Completed" row.scheduled_at r.attempt completed
        r.scheduled_at v (sym v.rest.3) refl v.scheduled_at

  into_record-fail_row :
      (row : SqliteJobRow) (r : JobRecord) (next : Option ℕ)
      → Reads row r
      → ((at : ℕ) → next ≡ some at → parse_ts codec (codec.to_rfc3339 at) ≡ ok at)
      → into_record codec (fail_row codec next row) ≡ ok (fail_record next r)
  unfolding fail_row fail_record parse_status
  into_record-fail_row row r none v reads_next =
      changed-Reads row r row.attempt "Dead" row.scheduled_at r.attempt dead r.scheduled_at v
        (sym v.rest.3) refl v.scheduled_at
  into_record-fail_row row r (some at) v reads_next =
      changed-Reads row r row.attempt "Retrying" (codec.to_rfc3339 at) r.attempt retrying at v
        (sym v.rest.3) refl (reads_next at refl)

  is_waiting_row-parse_status :
      (row : SqliteJobRow) (status : JobStatus)
      → parse_status row.status ≡ ok status
      → is_waiting_row row ≡ is_waiting status
  unfolding is_waiting_row is_waiting parse_status
  is_waiting_row-parse_status row status h =
      let active : String = "Running" in
      let finished : String = "Completed" in
      let again : String = "Retrying" in
      ground (
        arith,
        ==_iff row.status active,
        ==_iff row.status finished,
        ==_iff row.status again,
        ==_iff active again,
        ==_iff finished again,
      )

  is_due_lem :
      (text_le text_lt : String → String → Bool) (row : SqliteJobRow) (r : JobRecord)
      (queues : List String) (now : ℕ)
      → Reads row r
      → text_le row.scheduled_at (codec.to_rfc3339 now) ≡ leb r.scheduled_at now
      → is_due codec text_le text_lt queues now row ≡ (has r.queue queues && is_eligible now r)
  unfolding is_due is_eligible
  is_due_lem text_le text_lt row r queues now v order =
      rw (v.rest.2, is_waiting_row-parse_status row r.status v.status, order) refl

  -- A row of the table that reads as a record does what the in-memory store does to that record: a
  -- pull, a completion and a failure of the row read as the same change of the record, and the row is
  -- due for a pull exactly if the record is eligible and its queue is asked for. The attempt stands in
  -- the row as it is in the record and has room, chrono reads the time of the next attempt as it wrote
  -- it, and SQLite orders the two texts as the times.
  pub start_row-refines :
      (text_le text_lt : String → String → Bool) (row : SqliteJobRow) (r : JobRecord)
      (next : Option ℕ) (queues : List String) (now : ℕ)
      → into_record codec row ≡ ok r
      → row.attempt ≡ pos r.attempt
      → r.attempt < u32_max
      → ((at : ℕ) → next ≡ some at → parse_ts codec (codec.to_rfc3339 at) ≡ ok at)
      → text_le row.scheduled_at (codec.to_rfc3339 now) ≡ leb r.scheduled_at now
      → (into_record codec (start_row row) ≡ ok (begin_attempt r))
        × (into_record codec (complete_row row) ≡ ok (record r { status = completed }))
        × (into_record codec (fail_row codec next row) ≡ ok (fail_record next r))
        × (is_due codec text_le text_lt queues now row ≡ (has r.queue queues && is_eligible now r))
  start_row-refines text_le text_lt row r next queues now reads exact room reads_next order =
      let v = Reads-into_record row r reads in
      (
        into_record-start_row row r v exact room,
        into_record-complete_row row r v,
        into_record-fail_row row r next v reads_next,
        is_due_lem text_le text_lt row r queues now v order,
      )
