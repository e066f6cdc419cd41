-- ===== src/Jobs/Sqlite/Order.antt =====
-- Which row the pull of crates/walastack-jobs/src/sqlite.rs takes.
use walastack_rs.Base.{
  ℕ, String, ◌≡◌, refl, sym, ap, ◌⊎◌, inl, inr, Bool, true, false, Option, none, some, List, [],
  ◌∷◌, ◌++◌, arith, if◌then◌else◌, Bool-cases, Option-cases, ==_iff, nat_keys, string_keys, All,
  All-mono, map_or,
}
use mathlib.Core.Path.{subst}
use walastack_rs.Jobs.Rows.{SqliteJobRow, Codec}
use walastack_rs.Jobs.Sqlite.{is_due, precedes, first_due}

-- SQLite's `<` on texts: a strict order in which what is not less is at least as large.
pub record IsOrder (text_lt : String → String → Bool) : Type 0 where
  pub asymmetric : (a b : String) → text_lt a b ≡ true → text_lt b a ≡ false
  pub cotransitive :
      (a b c : String) → text_lt a b ≡ false → text_lt b c ≡ false → text_lt a c ≡ false

module _ (codec : Codec) (text_le text_lt : String → String → Bool) (order : IsOrder text_lt) where
  abbrev before : ℕ × SqliteJobRow → ℕ × SqliteJobRow → Bool
  before = precedes codec text_le text_lt

  abbrev pub due : List String → ℕ → ℕ × SqliteJobRow → Bool
  due queues now x = is_due codec text_le text_lt queues now x.1

  abbrev pub earlier : ℕ × SqliteJobRow → ℕ × SqliteJobRow → Bool
  earlier x y = text_lt x.1.scheduled_at y.1.scheduled_at

  earlier_irrefl : (x : ℕ × SqliteJobRow) → earlier x x ≡ false
  earlier_irrefl x = elim (Bool-cases (earlier x x)) [
    | inl less ↦ order.asymmetric x.1.scheduled_at x.1.scheduled_at less
    | inr never ↦ never
  ]

  before-earlier : (y x : ℕ × SqliteJobRow) → before y x ≡ true → earlier x y ≡ false
  unfolding precedes
  before-earlier (j, b) (i, a) h = ground (
    arith,
    order.asymmetric b.scheduled_at a.scheduled_at,
    earlier_irrefl (j, b),
    ==_iff b.scheduled_at a.scheduled_at,
    h,
  )

  before-not_earlier : (y x : ℕ × SqliteJobRow) → before y x ≡ false → earlier y x ≡ false
  unfolding precedes
  before-not_earlier (j, b) (i, a) h = ground (arith, h)

  -- The row is due, stands in the table, and no row of the table that is due has an earlier time.
  abbrev pub Least : List String → ℕ → List (ℕ × SqliteJobRow) → ℕ × SqliteJobRow → Type 0
  Least queues now rows x =
      (due queues now x ≡ true)
      × ((front : List (ℕ × SqliteJobRow)) × (back : List (ℕ × SqliteJobRow)) × (rows
            ≡ front ++ x ∷ back))
      × All (λ y. due queues now y ≡ true → earlier y x ≡ false) rows

  -- What is found among the rows: nothing, and then none is due, or the least one.
  abbrev Found : List String → ℕ → List (ℕ × SqliteJobRow) → Option (ℕ × SqliteJobRow) → Type 0
  Found queues now rows none = All (λ y. due queues now y ≡ false) rows
  Found queues now rows (some x) = Least queues now rows x

  choose :
      (queues : List String) (now : ℕ) (x : ℕ × SqliteJobRow) (rest : List (ℕ × SqliteJobRow))
      (best : Option (ℕ × SqliteJobRow))
      → Found queues now rest best
      → due queues now x ≡ true
      → Found queues now (x ∷ rest) (some (map_or x (λ y. if before y x then y else x) best))
  choose queues now x rest none idle d = (
    d,
    ([], rest, refl),
    (
      λ e. earlier_irrefl x,
      All-mono (λ y. due queues now y ≡ false) (λ y. due queues now y ≡ true → earlier y x ≡ false)
          (λ y idle_y due_y. absurd (cc (idle_y, due_y))) rest idle,
    ),
  )
  choose queues now x rest (some y) (is_due_y, (front, back, split), least) d =
      elim (Bool-cases (before y x)) [
        | inl sooner ↦
            let found : Least queues now (x ∷ rest) y = (
              is_due_y,
              (x ∷ front, back, ap (◌∷◌ x) split),
              (λ e. before-earlier y x sooner, least),
            ) in
            let path : some (if before y x then y else x) ≡ some y = rw sooner refl in
            subst (Found queues now (x ∷ rest)) (sym path) found
        | inr later ↦
            let found : Least queues now (x ∷ rest) x = (
              d,
              ([], rest, refl),
              (
                λ e. earlier_irrefl x,
                All-mono (λ z. due queues now z ≡ true → earlier z y ≡ false)
                    (λ z. due queues now z ≡ true → earlier z x ≡ false)
                    (λ z h e.
                      order.cotransitive z.1.scheduled_at y.1.scheduled_at x.1.scheduled_at (h e)
                        (before-not_earlier y x later))
                    rest least,
              ),
            ) in
            let path : some (if before y x then y else x) ≡ some x = rw later refl in
            subst (Found queues now (x ∷ rest)) (sym path) found
      ]

  pass_over :
      (queues : List String) (now : ℕ) (x : ℕ × SqliteJobRow) (rest : List (ℕ × SqliteJobRow))
      (best : Option (ℕ × SqliteJobRow))
      → Found queues now rest best
      → due queues now x ≡ false
      → Found queues now (x ∷ rest) best
  pass_over queues now x rest none idle d = (d, idle)
  pass_over queues now x rest (some y) (is_due_y, (front, back, split), least) d =
      (is_due_y, (x ∷ front, back, ap (◌∷◌ x) split), (λ e. absurd (cc (d, e)), least))

  first_due-Found :
      (queues : List String) (now : ℕ) (rows : List (ℕ × SqliteJobRow))
      → Found queues now rows (first_due codec text_le text_lt queues now rows)
  unfolding first_due
  first_due-Found queues now [] = tt
  first_due-Found queues now (x ∷ rest) =
      let best = first_due-Found queues now rest in
      elim (Bool-cases (due queues now x)) [
        | inl d ↦ rw d (choose queues now x rest _ best d)
        | inr d ↦ rw d (pass_over queues now x rest _ best d)
      ]

  -- The pull takes a row that has been due for the longest time: it stands in the table, its queue is
  -- asked for, it waits, its time has come, and no other such row has an earlier time. Nothing is taken
  -- only if there is no such row. SQLite's comparison of texts is a strict order, in which what is not
  -- less is at least as large.
  pub first_due-Least :
      (queues : List String) (now : ℕ) (rows : List (ℕ × SqliteJobRow))
      → ((first_due codec text_le text_lt queues now rows ≡ none)
          × All (λ y. due queues now y ≡ false) rows)
        ⊎ ((x : ℕ × SqliteJobRow) × (first_due codec text_le text_lt queues now rows ≡ some x)
            × Least queues now rows x)
  first_due-Least queues now rows =
      elim (Option-cases (first_due codec text_le text_lt queues now rows)) [
        | inl e ↦ inl (e, rw e at (first_due-Found queues now rows))
        | inr (x, e) ↦ inr (x, e, rw e at (first_due-Found queues now rows))
      ]
