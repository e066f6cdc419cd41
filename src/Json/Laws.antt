-- ===== src/Json/Laws.antt =====
-- What serde_json documents of the values that it makes, which proofs on answers use.
use walastack_rs.Base.{
  String, ◌≡◌, refl, sym, ◌∙◌, inl, inr, false, none, some, List, [], ◌∷◌, Bool-cases, ◌==◌, ==_iff,
  ==_refl, nat_keys, string_keys, codes_keys, lookup,
}
use mathlib.Core.Path.{subst}
use walastack_rs.Json.{SerdeJson}

module _ (json : SerdeJson) where
  open json use {Value, text, array, object, get, as_str, as_array}

  -- A text and an array are read as they were made, and an entry of an object is found under its key,
  -- if no later one has the key.
  pub record IsLawful : Type 0 where
    pub as_str-text : (s : String) → as_str (text s) ≡ some s
    pub as_array-array : (vs : List Value) → as_array (array vs) ≡ some vs
    pub get_empty : (key : String) → get key (object []) ≡ none
    pub get_here :
        (key : String) (v : Value) (entries : List (String × Value))
        → lookup key entries ≡ none
        → get key (object ((key, v) ∷ entries)) ≡ some v
    pub get_there :
        (key other : String) (v : Value) (entries : List (String × Value))
        → (other == key) ≡ false
        → get key (object ((other, v) ∷ entries)) ≡ get key (object entries)

  -- Null is no object, no array and no text.
  pub record HasEmptyNull : Type 0 where
    pub get-null : (key : String) → get key json.null ≡ none
    pub as_array-null : as_array json.null ≡ none
    pub as_str-null : as_str json.null ≡ none

  -- No key stands twice.
  abbrev pub AreDistinct : List (String × Value) → Type 0
  AreDistinct [] = Unit
  AreDistinct ((key, _) ∷ entries) = (lookup key entries ≡ none) × AreDistinct entries

  pub get-object :
      (lawful : IsLawful) (key : String) (entries : List (String × Value))
      → AreDistinct entries
      → get key (object entries) ≡ lookup key entries
  unfolding lookup
  get-object lawful key [] distinct = lawful.get_empty key
  get-object lawful key ((other, v) ∷ entries) (new, distinct) = elim (Bool-cases (other == key)) [
    | inr apart ↦
        lawful.get_there key other v entries apart
        ∙ get-object lawful key entries distinct
        ∙ rw apart refl
    | inl same ↦
        let equal = (==_iff other key).0 same in
        subst (λ k. get key (object ((k, v) ∷ entries)) ≡ lookup key ((k, v) ∷ entries)) (sym equal)
          (lawful.get_here key v entries (subst (λ k. lookup k entries ≡ none) equal new)
            ∙ rw (==_refl key) refl)
  ]
