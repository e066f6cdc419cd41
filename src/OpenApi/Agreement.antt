-- ===== src/OpenApi/Agreement.antt =====
-- `normalize_path` of crates/walastack-openapi/src/lib.rs, applied twice, and where it agrees with
-- the pattern that crates/walastack-router/src/lib.rs writes for the same route.
use walastack_rs.Base.{
  ℕ, ◌≡◌, refl, sym, ap, ◌∙◌, inl, inr, false, List, [], ◌∷◌, ◌++◌, map, arith, Bool-cases, ◌==◌,
  nat_keys, string_keys, All, All-append,
}
use walastack_rs.Router.{Text, colon, slash, closing, translate_path}
use walastack_rs.Router.Translation.{
  Segment, literal, parameter, Lacks, IsProper, in_source, in_matchit, path_of,
  translate_path-segments,
}
use walastack_rs.OpenApi.Paths.{
  onto_first, split_slash, split_slash-cons, normalize_segment, normalize_path, slashed, join_slash,
  normalize_path-join,
}

pub split_slash-slashed :
    (s : Text) (segments : List Text)
    → Lacks slash s
    → All (Lacks slash) segments
    → split_slash (s ++ slashed segments) ≡ s ∷ segments
unfolding split_slash
split_slash-slashed [] [] h all = refl
split_slash-slashed [] (x ∷ segments) h all =
    ap (◌∷◌ []) (split_slash-slashed x segments all.0 all.1)
split_slash-slashed (c ∷ s) segments h all =
    rw h.0 (ap (onto_first c) (split_slash-slashed s segments h.1 all))

onto_first-Lacks :
    (c : ℕ) (segments : List Text)
    → (c == slash) ≡ false
    → All (Lacks slash) segments
    → All (Lacks slash) (onto_first c segments)
onto_first-Lacks c [] other all = ((other, tt), tt)
onto_first-Lacks c (s ∷ segments) other all = ((other, all.0), all.1)

split_slash-Lacks : (t : Text) → All (Lacks slash) (split_slash t)
unfolding split_slash
split_slash-Lacks [] = (tt, tt)
split_slash-Lacks (c ∷ t) = elim (Bool-cases (c == slash)) [
  | inl is ↦ rw is (tt, split_slash-Lacks t)
  | inr other ↦ rw other (onto_first-Lacks c (split_slash t) other (split_slash-Lacks t))
]

pub normalize_segment-Lacks : (s : Text) → Lacks slash s → Lacks slash (normalize_segment s)
unfolding normalize_segment
normalize_segment-Lacks [] h = tt
normalize_segment-Lacks (c ∷ t) h = elim (Bool-cases (c == colon)) [
  | inl is ↦ rw is (refl, All-append (λ x. (x == slash) ≡ false) t (closing ∷ []) h.1 (refl, tt))
  | inr other ↦ rw other h
]

normalize_segment_idem : (s : Text) → normalize_segment (normalize_segment s) ≡ normalize_segment s
unfolding normalize_segment
normalize_segment_idem [] = refl
normalize_segment_idem (c ∷ t) = elim (Bool-cases (c == colon)) [
  | inl is ↦ rw is refl
  | inr other ↦ ground (arith, other)
]

pub All-normalize_segment :
    (segments : List Text)
    → All (Lacks slash) segments
    → All (Lacks slash) (map normalize_segment segments)
All-normalize_segment [] h = tt
All-normalize_segment (s ∷ segments) h =
    (normalize_segment-Lacks s h.0, All-normalize_segment segments h.1)

map-normalize_segment_idem :
    (segments : List Text)
    → map normalize_segment (map normalize_segment segments) ≡ map normalize_segment segments
map-normalize_segment_idem [] = refl
map-normalize_segment_idem (s ∷ segments) =
    cc (normalize_segment_idem s, map-normalize_segment_idem segments)

split_slash-join_slash :
    (s : Text) (segments : List Text)
    → All (Lacks slash) (s ∷ segments)
    → split_slash (join_slash (s ∷ segments)) ≡ s ∷ segments
split_slash-join_slash s segments h = split_slash-slashed s segments h.0 h.1

-- The path that is written is in the syntax of OpenAPI already: writing it again changes nothing,
-- whatever the path was.
pub normalize_path_idem : (path : Text) → normalize_path (normalize_path path) ≡ normalize_path path
normalize_path_idem path =
    let (s, rest, e) = split_slash-cons path in
    let lacks = rw e at (split_slash-Lacks path) in
    let one : normalize_path path ≡ join_slash (map normalize_segment (s ∷ rest)) =
      normalize_path-join path ∙ ap (λ l. join_slash (map normalize_segment l)) e in
    let back : split_slash (normalize_path path) ≡ map normalize_segment (s ∷ rest) =
      ap split_slash one
      ∙ split_slash-join_slash (normalize_segment s) (map normalize_segment rest)
          (All-normalize_segment (s ∷ rest) lacks) in
    normalize_path-join (normalize_path path)
    ∙ ap (λ l. join_slash (map normalize_segment l)) back
    ∙ ap join_slash (map-normalize_segment_idem (s ∷ rest))
    ∙ sym one

-- A parameter takes a whole segment.
abbrev pub IsWhole : Segment → Type 0
IsWhole (literal t) = Unit
IsWhole (parameter t name) = t ≡ []

normalize_segment-in_source :
    (s : Segment) → IsProper s → IsWhole s → normalize_segment (in_source s) ≡ in_matchit s
unfolding normalize_segment
normalize_segment-in_source (literal []) proper whole = refl
normalize_segment-in_source (literal (c ∷ t)) proper whole = rw proper.0.0 refl
normalize_segment-in_source (parameter [] name) proper whole = refl
normalize_segment-in_source (parameter (c ∷ t) name) proper whole = absurd (cc whole)

in_source-Lacks : (s : Segment) → IsProper s → Lacks slash (in_source s)
in_source-Lacks (literal t) proper = proper.1
in_source-Lacks (parameter t name) proper =
    All-append (λ x. (x == slash) ≡ false) t (colon ∷ name) proper.0.1 (refl, proper.1)

pub path_of-slashed :
    (f : Segment → Text) (segments : List Segment) → path_of f segments ≡ slashed (map f segments)
path_of-slashed f [] = refl
path_of-slashed f (s ∷ segments) = ap (λ t. slash ∷ (f s ++ t)) (path_of-slashed f segments)

pub All-in_source :
    (segments : List Segment) → All IsProper segments → All (Lacks slash) (map in_source segments)
All-in_source [] h = tt
All-in_source (s ∷ segments) h = (in_source-Lacks s h.0, All-in_source segments h.1)

map-in_matchit :
    (segments : List Segment)
    → All IsProper segments
    → All IsWhole segments
    → map normalize_segment (map in_source segments) ≡ map in_matchit segments
map-in_matchit [] proper whole = refl
map-in_matchit (s ∷ segments) proper whole =
    cc (normalize_segment-in_source s proper.0 whole.0, map-in_matchit segments proper.1 whole.1)

-- The path of a proper list of segments, in the document.
pub normalize_path-path_of :
    (segments : List Segment)
    → All IsProper segments
    → normalize_path (path_of in_source segments)
      ≡ slashed (map normalize_segment (map in_source segments))
normalize_path-path_of [] h = unfold normalize_path in refl
normalize_path-path_of (s ∷ segments) h =
    let split =
      split_slash-slashed [] (map in_source (s ∷ segments)) tt (All-in_source (s ∷ segments) h) in
    ap normalize_path (path_of-slashed in_source (s ∷ segments))
    ∙ normalize_path-join (slashed (map in_source (s ∷ segments)))
    ∙ ap (λ l. join_slash (map normalize_segment l)) split
    ∙ (unfold normalize_segment in refl)

-- The document and the router agree on every path whose parameters take whole segments: the path that
-- the document writes is the pattern under which the router finds the handler.
pub normalize_path-translate_path :
    (segments : List Segment)
    → All IsProper segments
    → All IsWhole segments
    → normalize_path (path_of in_source segments) ≡ translate_path (path_of in_source segments)
normalize_path-translate_path segments proper whole =
    normalize_path-path_of segments proper
    ∙ ap slashed (map-in_matchit segments proper whole)
    ∙ sym (path_of-slashed in_matchit segments)
    ∙ sym (translate_path-segments segments proper)
