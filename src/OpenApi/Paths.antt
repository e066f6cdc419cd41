-- ===== src/OpenApi/Paths.antt =====
-- crates/walastack-openapi/src/lib.rs: `normalize_path`, against the segments of a path and against
-- the pattern that crates/walastack-router/src/lib.rs writes for the same route.
use walastack_rs.Base.{
  ℕ, ◌≡◌, refl, sym, ◌∙◌, inl, inr, Bool, true, false, ◌&&◌, ◌||◌, not, List, [], ◌∷◌, ◌++◌, map,
  arith, if◌then◌else◌, Bool-cases, ◌==◌, nat_keys, string_keys,
}
use mathlib.Core.List.{append_assoc, append-nil}
use walastack_rs.Router.{Text, colon, slash, opening, closing}

abbrev pub onto_first : ℕ → List Text → List Text
onto_first c [] = (c ∷ []) ∷ []
onto_first c (s ∷ segments) = (c ∷ s) ∷ segments

-- `str::split('/')`.
unfoldable pub split_slash : Text → List Text
split_slash [] = [] ∷ []
split_slash (c ∷ t) =
    let rest = split_slash t in if c == slash then [] ∷ rest else onto_first c rest

abbrev pub is_nil : Text → Bool
is_nil [] = true
is_nil (_ ∷ _) = false

abbrev pub starts_with_slash : Text → Bool
starts_with_slash [] = false
starts_with_slash (c ∷ _) = c == slash

abbrev pub starts_with_two : Text → Bool
starts_with_two (c ∷ d ∷ _) = (c == slash) && (d == slash)
starts_with_two _ = false

abbrev pub without_first : Text → Text
without_first [] = []
without_first (_ ∷ t) = t

-- What the body of the loop writes for a segment.
unfoldable pub normalize_segment : Text → Text
normalize_segment [] = []
normalize_segment (c ∷ t) = if c == colon then opening ∷ (t ++ closing ∷ []) else c ∷ t

-- The loop, with `out`; `absolute` is `path.starts_with('/')`.
unfoldable pub push_segments : (absolute : Bool) → List Text → (out : Text) → Text
unfolding normalize_segment
push_segments absolute [] out = out
push_segments absolute (s ∷ segments) out =
    push_segments absolute segments
      ((if not (is_nil out) || absolute then out ++ slash ∷ [] else out) ++ normalize_segment s)

unfoldable pub normalize_path : Text → Text
unfolding split_slash push_segments
normalize_path path =
    let out = push_segments (starts_with_slash path) (split_slash path) [] in
    if starts_with_slash path && starts_with_two out then without_first out else out

-- A slash before each segment, and a slash between two.
abbrev pub slashed : List Text → Text
slashed [] = []
slashed (s ∷ segments) = slash ∷ (s ++ slashed segments)

abbrev pub join_slash : List Text → Text
join_slash [] = []
join_slash (s ∷ segments) = s ++ slashed segments

is_nil-append : (out : Text) (c : ℕ) (t : Text) → is_nil (out ++ c ∷ t) ≡ false
is_nil-append [] c t = refl
is_nil-append (d ∷ out) c t = refl

push_segments-slashed :
    (absolute : Bool) (segments : List Text) (out : Text)
    → (not (is_nil out) || absolute) ≡ true
    → push_segments absolute segments out ≡ out ++ slashed (map normalize_segment segments)
unfolding push_segments
push_segments-slashed absolute [] out h = sym (append-nil out)
push_segments-slashed absolute (s ∷ segments) out h =
    let written = out ++ slash ∷ [] in
    let onward : not (is_nil (written ++ normalize_segment s)) || absolute ≡ true =
      rw
        (
          append_assoc out (slash ∷ []) (normalize_segment s),
          is_nil-append out slash (normalize_segment s),
        )
        refl in
    rw h (
      push_segments-slashed absolute segments (written ++ normalize_segment s) onward
      ∙ append_assoc written (normalize_segment s) (slashed (map normalize_segment segments))
      ∙ append_assoc out (slash ∷ [])
          (normalize_segment s ++ slashed (map normalize_segment segments)))

pub split_slash-cons : (t : Text) → (s : Text) × (rest : List Text) × (split_slash t ≡ s ∷ rest)
unfolding split_slash
split_slash-cons [] = ([], [], refl)
split_slash-cons (c ∷ t) =
    let (s, rest, e) = split_slash-cons t in
    elim (Bool-cases (c == slash)) [
      | inl is ↦ ([], split_slash t, rw is refl)
      | inr other ↦ (c ∷ s, rest, rw (other, e) refl)
    ]

is_nil-normalize_segment : (c : ℕ) (t : Text) → is_nil (normalize_segment (c ∷ t)) ≡ false
unfolding normalize_segment
is_nil-normalize_segment c t = ground arith

normalize_absolute :
    (c : ℕ) (t : Text)
    → (c == slash) ≡ true
    → normalize_path (c ∷ t) ≡ join_slash (map normalize_segment (split_slash (c ∷ t)))
unfolding normalize_path normalize_segment split_slash
normalize_absolute c t is =
    let (s, rest, e) = split_slash-cons t in
    let pushed = push_segments-slashed true ([] ∷ split_slash t) [] refl in rw (is, pushed, e) refl

normalize_relative :
    (c : ℕ) (t : Text)
    → (c == slash) ≡ false
    → normalize_path (c ∷ t) ≡ join_slash (map normalize_segment (split_slash (c ∷ t)))
unfolding normalize_path split_slash push_segments
normalize_relative c t other =
    let (s, rest, e) = split_slash-cons t in
    let pushed =
      push_segments-slashed false rest (normalize_segment (c ∷ s))
        (rw (is_nil-normalize_segment c s) refl) in
    rw (other, e) pushed

-- For every path, what is written is the path with each segment rewritten: a segment that starts with
-- a colon becomes the rest of it in braces, and any other stays.
pub normalize_path-join :
    (path : Text) → normalize_path path ≡ join_slash (map normalize_segment (split_slash path))
unfolding normalize_path
normalize_path-join [] = unfold split_slash push_segments normalize_segment in refl
normalize_path-join (c ∷ t) = elim (Bool-cases (c == slash)) [
  | inl is ↦ normalize_absolute c t is
  | inr other ↦ normalize_relative c t other
]
