-- ===== src/Jobs/Sqlite/Pulls.antt =====
-- What a pull of crates/walastack-jobs/src/sqlite.rs does to the table.
use walastack_rs.Base.{
  All, All-middle, ◌⊎◌, inl, inr, none, some, ℕ, String, ◌≡◌, ap, ◌∙◌, Bool, false, some, List, ◌∷◌,
  arith, if◌then◌else◌, nat_eq_iff, ◌==◌, nat_keys, string_keys, lookup, adjust, lookup-adjust, ok,
  ◌>>=◌,
}
use walastack_rs.Jobs.Rows.{SqliteJobRow, Codec, into_record}
use mathlib.Core.Path.{subst}
use walastack_rs.Jobs.Sqlite.Order.{IsOrder, due, Least, first_due-Least}
use walastack_rs.Jobs.Sqlite.{start_row, is_waiting_row, is_due, Table, take_row, pull_row}

started_only :
    (id other : ℕ) (row : SqliteJobRow) (rows : List (ℕ × SqliteJobRow))
    → lookup id rows ≡ some row
    → lookup other (adjust id start_row rows)
      ≡ (if id == other then some (start_row row) else lookup other rows)
started_only id other row rows stored =
    ground (arith, lookup-adjust id other start_row rows, nat_eq_iff id other, stored)

started-not_due :
    (codec : Codec) (text_le text_lt : String → String → Bool) (asked : List String) (later : ℕ)
    (row : SqliteJobRow)
    → is_due codec text_le text_lt asked later (start_row row) ≡ false
unfolding is_due is_waiting_row start_row
started-not_due codec text_le text_lt asked later row = ground arith

-- The id is the table's key: each row is the one that stands under its id.
abbrev pub IsKeyed : List (ℕ × SqliteJobRow) → Type 0
IsKeyed rows = All (λ (x : ℕ × SqliteJobRow). lookup x.0 rows ≡ some x.1) rows

Least-stored :
    (codec : Codec) (text_le text_lt : String → String → Bool) (order : IsOrder text_lt)
    (queues : List String) (now : ℕ) (rows : List (ℕ × SqliteJobRow)) (id : ℕ) (row : SqliteJobRow)
    → Least codec text_le text_lt order queues now rows (id, row)
    → IsKeyed rows
    → lookup id rows ≡ some row
Least-stored codec text_le text_lt order queues now rows id row (d, (front, back, split), least)
      keyed =
    (All-middle (λ (x : ℕ × SqliteJobRow). lookup x.0 rows ≡ some x.1) front (id, row) back
      (subst (All (λ (x : ℕ × SqliteJobRow). lookup x.0 rows ≡ some x.1)) split keyed)).1

-- What a pull gives and leaves, where the table is seen at an id `other` and at a later pull.
abbrev pub Takes :
    (codec : Codec) (text_le text_lt : String → String → Bool)
    → IsOrder text_lt
    → (queues asked : List String) (now later : ℕ) (t : Table) (other : ℕ) → Type 0
Takes codec text_le text_lt order queues asked now later t other =
    let (answer, t') = pull_row codec text_le text_lt queues now t in
    ((answer ≡ ok none)
      × (t' ≡ t)
      × All (λ y. due codec text_le text_lt order queues now y ≡ false) t.rows)
    ⊎ ((id : ℕ) × (row : SqliteJobRow) × Least codec text_le text_lt order queues now t.rows
          (id, row)
        × (answer ≡ (into_record codec (start_row row) >>= λ r. ok (some r)))
        × (lookup other t'.rows
            ≡ (if id == other then some (start_row row) else lookup other t.rows))
        × (is_due codec text_le text_lt asked later (start_row row) ≡ false))

-- A pull either finds that no row is due, and leaves the table; or it takes a row that is due, with the
-- earliest time of those that are, updates that row alone, and answers with what the updated row reads
-- as. The row is then due for no pull, whatever the queues, the time and the comparison are: no second
-- worker gets the job, and where the row does not read as a record, no worker gets it at all, though
-- it is left as running. Ids are unique in the table, SQLite's comparison of texts is a strict order,
-- and the caller asks for a queue.
pub pull_row-claims :
    (codec : Codec) (text_le text_lt : String → String → Bool) (order : IsOrder text_lt)
    (queue : String) (queues asked : List String) (now later : ℕ) (t : Table) (other : ℕ)
    → IsKeyed t.rows
    → Takes codec text_le text_lt order (queue ∷ queues) asked now later t other
unfolding pull_row
pull_row-claims codec text_le text_lt order queue queues asked now later t other keyed =
    elim (first_due-Least codec text_le text_lt order (queue ∷ queues) now t.rows) [
      | inl (nothing, idle) ↦
          let took = ap (λ o. take_row codec text_le text_lt o t) nothing in
          inl (ap (λ p. p.0) took, ap (λ p. p.1) took, idle)
      | inr ((id, row), found, least) ↦
          let took = ap (λ o. take_row codec text_le text_lt o t) found in
          let stored =
            Least-stored codec text_le text_lt order (queue ∷ queues) now t.rows id row least
              keyed in
          inr (
            id,
            row,
            least,
            ap (λ p. p.0) took,
            ap (λ p. lookup other p.1.rows) took ∙ started_only id other row t.rows stored,
            started-not_due codec text_le text_lt asked later row,
          )
    ]
