-- ===== src/OpenApi/Mixed.antt =====
-- Where `normalize_path` of crates/walastack-openapi/src/lib.rs and the pattern that
-- crates/walastack-router/src/lib.rs writes for the same route are not the same.
use walastack_rs.Base.{
  ℕ, ◌≡◌, refl, sym, ap, ◌∙◌, ◌≢◌, false, List, [], ◌∷◌, ◌++◌, map, arith, ◌==◌, nat_keys,
  string_keys, codes_keys, All, All-append, All-middle,
}
use walastack_rs.Router.{Text, colon, slash, opening, closing, translate_path}
use walastack_rs.Router.Translation.{
  Segment, literal, parameter, Lacks, IsProper, in_source, in_matchit, path_of,
  translate_path-segments,
}
use walastack_rs.OpenApi.Paths.{
  split_slash, normalize_segment, normalize_path, slashed, without_first,
}
use walastack_rs.OpenApi.Agreement.{
  split_slash-slashed, All-normalize_segment, All-in_source, path_of-slashed,
  normalize_path-path_of,
}

abbrev head_of : List Text → Text
head_of [] = []
head_of (t ∷ _) = t

abbrev rest_of : List Text → List Text
rest_of [] = []
rest_of (_ ∷ texts) = texts

abbrev first : Text → ℕ
first [] = 0
first (c ∷ _) = c

apart : (t x y : Text) → (t ++ colon ∷ x) ≢ (t ++ opening ∷ y)
apart [] x y e = let same : 58 ≡ 123 = ap first e in absurd (omega (arith, same))
apart (c ∷ t) x y e = apart t x y (ap without_first e)

in_matchit-Lacks : (s : Segment) → IsProper s → Lacks slash (in_matchit s)
in_matchit-Lacks (literal t) proper = proper.1
in_matchit-Lacks (parameter t name) proper =
    All-append (λ x. (x == slash) ≡ false) t (opening ∷ (name ++ closing ∷ [])) proper.0.1
      (refl, All-append (λ x. (x == slash) ≡ false) name (closing ∷ []) proper.1 (refl, tt))

All-in_matchit :
    (segments : List Segment) → All IsProper segments → All (Lacks slash) (map in_matchit segments)
All-in_matchit [] h = tt
All-in_matchit (s ∷ segments) h = (in_matchit-Lacks s h.0, All-in_matchit segments h.1)

-- The texts between the slashes are those that were written.
slashed-texts :
    (xs ys : List Text)
    → All (Lacks slash) xs
    → All (Lacks slash) ys
    → slashed xs ≡ slashed ys
    → xs ≡ ys
slashed-texts xs ys h g same =
    ap rest_of
      (sym (split_slash-slashed [] xs tt h) ∙ ap split_slash same ∙ split_slash-slashed [] ys tt g)

-- The texts that the two functions write for the segment in the middle.
middle_same :
    (front back : List Segment) (s : Segment)
    → map normalize_segment (map in_source (front ++ s ∷ back)) ≡ map in_matchit (front ++ s ∷ back)
    → normalize_segment (in_source s) ≡ in_matchit s
middle_same [] back s same = ap head_of same
middle_same (x ∷ front) back s same = middle_same front back s (ap rest_of same)

mixed-apart :
    (c : ℕ) (t name : Text)
    → IsProper (parameter (c ∷ t) name)
    → normalize_segment (in_source (parameter (c ∷ t) name)) ≢ in_matchit (parameter (c ∷ t) name)
unfolding normalize_segment
mixed-apart c t name proper same =
    apart (c ∷ t) name (name ++ closing ∷ []) ((rw proper.0.0.0 refl) ∙ same)

-- The document and the router do not agree on any path in which a parameter follows other text in its
-- segment, as in `/v:major`, whatever segments stand before and behind it.
pub normalize_path_mixed :
    (front back : List Segment) (c : ℕ) (t name : Text)
    → All IsProper (front ++ parameter (c ∷ t) name ∷ back)
    → let path = path_of in_source (front ++ parameter (c ∷ t) name ∷ back) in
      normalize_path path ≢ translate_path path
normalize_path_mixed front back c t name proper same =
    let mixed = parameter (c ∷ t) name in
    let segments = front ++ mixed ∷ back in
    let written =
      sym (normalize_path-path_of segments proper)
      ∙ same
      ∙ translate_path-segments segments proper
      ∙ path_of-slashed in_matchit segments in
    let texts =
      slashed-texts (map normalize_segment (map in_source segments)) (map in_matchit segments)
        (All-normalize_segment (map in_source segments) (All-in_source segments proper))
        (All-in_matchit segments proper) written in
    mixed-apart c t name (All-middle IsProper front mixed back proper).1
      (middle_same front back mixed texts)
