-- ===== src/Router/Translation.antt =====
-- The patterns that `translate_path` of crates/walastack-router/src/lib.rs writes, and the routes of
-- one method among those of the others.
use walastack_rs.Base.{
  ℕ, String, ◌≡◌, refl, sym, ap, ◌∙◌, inl, inr, true, false, some, List, [], ◌∷◌, ◌++◌, arith,
  if◌then◌else◌, Option-cases, ◌==◌, nat_keys, string_keys, All, and_then, unwrap_or, lookup,
  lookup-insert,
}
use mathlib.Core.List.{append_assoc, append-nil}
use walastack_rs.Router.{
  Text, colon, slash, opening, closing, translate, translate_path, Matchit, Router, route, dispatch,
}

-- What stands between two slashes: a text, with a parameter at its end or none.
pub data Segment : Type 0 where
  literal : Text → Segment
  parameter : (before name : Text) → Segment

abbrev pub Lacks : ℕ → Text → Type 0
Lacks c = All (λ x. (x == c) ≡ false)

-- A literal has neither a colon nor a slash, a name has no slash.
abbrev pub IsProper : Segment → Type 0
IsProper (literal t) = Lacks colon t × Lacks slash t
IsProper (parameter t name) = (Lacks colon t × Lacks slash t) × Lacks slash name

abbrev pub in_source : Segment → Text
in_source (literal t) = t
in_source (parameter t name) = t ++ colon ∷ name

abbrev pub in_matchit : Segment → Text
in_matchit (literal t) = t
in_matchit (parameter t name) = t ++ opening ∷ (name ++ closing ∷ [])

-- A slash before each segment.
abbrev pub path_of : (Segment → Text) → List Segment → Text
path_of f [] = []
path_of f (s ∷ segments) = slash ∷ (f s ++ path_of f segments)

translate-literal :
    (t rest : Text) → Lacks colon t → translate false (t ++ rest) ≡ t ++ translate false rest
unfolding translate
translate-literal [] rest h = refl
translate-literal (c ∷ t) rest h = rw (h.0, translate) (ap (◌∷◌ c) (translate-literal t rest h.1))

translate-name :
    (name rest : Text)
    → Lacks slash name
    → translate true (name ++ slash ∷ rest) ≡ name ++ closing ∷ slash ∷ translate false rest
unfolding translate
translate-name [] rest h = refl
translate-name (c ∷ name) rest h = rw (h.0, translate) (ap (◌∷◌ c) (translate-name name rest h.1))

translate-last : (name : Text) → Lacks slash name → translate true name ≡ name ++ closing ∷ []
unfolding translate
translate-last [] h = refl
translate-last (c ∷ name) h = rw (h.0, translate) (ap (◌∷◌ c) (translate-last name h.1))

-- A name ends where the rest of the path starts, or at the end.
translate-name_path :
    (name : Text) (segments : List Segment)
    → Lacks slash name
    → translate true (name ++ path_of in_source segments)
      ≡ name ++ closing ∷ translate false (path_of in_source segments)
unfolding translate
translate-name_path name [] h = ap (translate true) (append-nil name) ∙ translate-last name h
translate-name_path name (s ∷ segments) h =
    translate-name name (in_source s ++ path_of in_source segments) h

translate-segment :
    (s : Segment) (segments : List Segment)
    → IsProper s
    → translate false (in_source s ++ path_of in_source segments)
      ≡ in_matchit s ++ translate false (path_of in_source segments)
unfolding translate
translate-segment (literal t) segments h = translate-literal t (path_of in_source segments) h.0
translate-segment (parameter t name) segments h =
    let rest = path_of in_source segments in
    let onward = translate false rest in
    ap (translate false) (append_assoc t (colon ∷ name) rest)
    ∙ translate-literal t (colon ∷ (name ++ rest)) h.0.0
    ∙ ap (λ l. t ++ opening ∷ l) (translate-name_path name segments h.1)
    ∙ ap (λ l. t ++ opening ∷ l) (sym (append_assoc name (closing ∷ []) onward))
    ∙ sym (append_assoc t (opening ∷ (name ++ closing ∷ [])) onward)

-- For a path of any segments, each a text with a parameter `:name` at its end or none, the pattern is
-- that of the segments one by one: `{name}` in the place of `:name`, and everything else as it is.
pub translate_path-segments :
    (segments : List Segment)
    → All IsProper segments
    → translate_path (path_of in_source segments) ≡ path_of in_matchit segments
unfolding translate_path
translate_path-segments [] h = refl
translate_path-segments (s ∷ segments) h = ap (◌∷◌ slash) (
    translate-segment s segments h.0
    ∙ ap (◌++◌ (in_matchit s)) (translate_path-segments segments h.1))

-- A route that does not panic changes what is dispatched for its own method only: there, a path is
-- looked up in the tree of the method with the translated pattern added; the other methods dispatch
-- as before.
pub dispatch-route :
    {Handler : Type 0} (matchit : Matchit Handler) (method other : String) (path request : Text)
    (handler : Handler) (routes routes' : Router matchit)
    → route matchit method path handler routes ≡ some routes'
    → dispatch matchit other request routes' ≡ (
        if method == other
        then and_then
            (matchit.insert_pattern
              (translate_path path)
              handler
              (unwrap_or (lookup method routes) matchit.default_tree))
            (λ tree. matchit.find_path tree request)
        else dispatch matchit other request routes)
unfolding route dispatch
dispatch-route matchit method other path request handler routes routes' added =
    elim (Option-cases (
      matchit.insert_pattern (translate_path path) handler
        (unwrap_or (lookup method routes) matchit.default_tree))) [
          | inl e ↦ absurd (cc (e, added))
          | inr (tree, e) ↦ ground (arith, lookup-insert method other tree routes)
        ]
