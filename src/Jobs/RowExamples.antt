-- ===== src/Jobs/RowExamples.antt =====
-- Runs of the row mapping of crates/walastack-jobs/src/sqlite.rs on small inputs.
use walastack_rs.Base.{
  ltb, Bool, String, ℕ, ◌≡◌, refl, true, false, some, [], ◌∷◌, arith, nat_eq, if◌then◌else◌, ◌==◌,
  nat_keys, string_keys, lookup, ok, err,
}
use walastack_rs.Base.{pos}
use walastack_rs.Jobs.Store.{
  NewJob, JobRecord, running, completed, begin_attempt, fail_record, is_eligible, is_waiting,
}
use walastack_rs.Jobs.Store.Arrivals.{new_record}
use walastack_rs.Jobs.Sqlite.{start_row, complete_row, fail_row, is_due, Table}
use walastack_rs.Jobs.Sqlite.Refinement.{start_row-refines}
use walastack_rs.Jobs.Sqlite.Pulls.{Takes, pull_row-claims}
use walastack_rs.Jobs.Sqlite.Order.{IsOrder}
use walastack_rs.Jobs.Rows.{
  SqliteJobRow, Codec, parse_ts, id_to_i64, into_record, inserted_row, into_record-inserted_row,
}

-- Two times, and payloads written as they are.
abbrev two_times : Codec
two_times = record {
  json_to_string = λ s. s;
  json_from_str = λ s. ok s;
  to_rfc3339 = λ n. if nat_eq n 10 then "10" else "50";
  parse_from_rfc3339 =
      λ s. if s == "10" then ok 10 else if s == "50" then ok 50 else err "bad time";
}

abbrev mail : NewJob
mail = record { name = "mail"; payload = "1"; queue = "slow"; max_attempts = 3; scheduled_at = 50 }

into_record-inserted_row_example :
    into_record two_times (inserted_row two_times (id_to_i64 18446744073709551615) 10 mail)
    ≡ ok (new_record 18446744073709551615 10 mail)
into_record-inserted_row_example =
    into_record-inserted_row two_times 18446744073709551615 10 mail (omega arith) (omega arith) refl
      refl refl

abbrev mail_row : SqliteJobRow
mail_row = record {
  id = pos 1;
  name = "mail";
  payload = "1";
  queue = "slow";
  attempt = pos 1;
  max_attempts = pos 3;
  status = "Running";
  enqueued_at = "10";
  scheduled_at = "10";
}

abbrev mail_record : JobRecord
mail_record = record {
  id = 1;
  name = "mail";
  payload = "1";
  queue = "slow";
  attempt = 1;
  max_attempts = 3;
  status = running;
  enqueued_at = 10;
  scheduled_at = 10;
}

reads_later : (at : ℕ) → some 50 ≡ some at → parse_ts two_times (two_times.to_rfc3339 at) ≡ ok at
unfolding parse_ts
reads_later at e = let same : 50 ≡ at = cc (e) in rw (← same) refl

start_row-refines_example :
    (into_record two_times (start_row mail_row) ≡ ok (begin_attempt mail_record))
    × (into_record two_times (complete_row mail_row)
        ≡ ok (record mail_record { status = completed }))
    × (into_record two_times (fail_row two_times (some 50) mail_row)
        ≡ ok (fail_record (some 50) mail_record))
    × (is_due two_times (λ a b. true) (λ a b. false) ("slow" ∷ []) 50 mail_row ≡ false)
unfolding into_record is_eligible is_waiting
start_row-refines_example =
    start_row-refines two_times (λ a b. true) (λ a b. false) mail_row mail_record (some 50)
      ("slow" ∷ []) 50 refl refl (omega arith) reads_later refl

-- A row whose payload does not read as JSON.
abbrev no_payloads : Codec
no_payloads = record two_times { json_from_str = λ s. err "not JSON" }

-- `10` comes before every other text.
abbrev rank : String → ℕ
rank a = if a == "10" then 0 else 1

abbrev rank_lt : String → String → Bool
rank_lt a b = ltb (rank a) (rank b)

rank-IsOrder : IsOrder rank_lt
rank-IsOrder = record {
  asymmetric = λ a b h. ltb-asym (rank a) (rank b) h;
  cotransitive = λ a b c h g. ltb-cotrans (rank a) (rank b) (rank c) h g;
}
  where
    ltb-asym : (m n : ℕ) → ltb m n ≡ true → ltb n m ≡ false
    ltb-asym m n h = ground (arith, h)

    ltb-cotrans : (l m n : ℕ) → ltb l m ≡ false → ltb m n ≡ false → ltb l n ≡ false
    ltb-cotrans l m n h g = ground (arith, h, g)

abbrev one_row : Table
one_row = record { last_id = 1; rows = (1, record mail_row { status = "Pending" }) ∷ [] }

pull_row-claims_example :
    Takes no_payloads (λ a b. true) rank_lt rank-IsOrder ("slow" ∷ []) ("slow" ∷ []) 50 90 one_row 1
unfolding lookup
pull_row-claims_example =
    pull_row-claims no_payloads (λ a b. true) rank_lt rank-IsOrder "slow" [] ("slow" ∷ []) 50 90
      one_row 1 (refl, tt)
