-- ===== src/Router.antt =====
-- crates/walastack-router/src/lib.rs: the router over matchit, which is a parameter, and the
-- translation of a route's pattern. A text is the list of its characters' codes.
pub mod Translation
use walastack_rs.Base.{
  ℕ, String, Bool, true, false, Option, List, [], ◌∷◌, ◌==◌, nat_keys, string_keys, and_then,
  option_map, unwrap_or, lookup, insert,
}

abbrev pub Text : Type 0
Text = List ℕ

-- `:`, `/`, `{` and `}`.
abbrev pub colon : ℕ
colon = 58

abbrev pub slash : ℕ
slash = 47

abbrev pub opening : ℕ
opening = 123

abbrev pub closing : ℕ
closing = 125

-- The two loops of `translate_path`: `in_name` tells that the inner one runs. It leaves a slash to the
-- outer loop, which copies it.
unfoldable pub translate : (in_name : Bool) → Text → Text
translate false [] = []
translate true [] = closing ∷ []
translate false (c ∷ rest) = elim (c == colon) [
  | true ↦ opening ∷ translate true rest
  | false ↦ c ∷ translate false rest
]
translate true (c ∷ rest) = elim (c == slash) [
  | true ↦ closing ∷ c ∷ translate false rest
  | false ↦ c ∷ translate true rest
]

unfoldable pub translate_path : Text → Text
unfolding translate
translate_path path = translate false path

-- A `matchit::Router<BoxedHandler>`: `insert` has no result for an invalid or conflicting pattern, and
-- `find` gives the handler and the parameters of a path.
pub record Matchit (Handler : Type 0) : Type 1 where
  pub Tree : Type 0
  pub default_tree : Tree
  pub insert_pattern : Text → Handler → Tree → Option Tree
  pub find_path : Tree → Text → Option (Handler × List (Text × Text))

module _ {Handler : Type 0} (matchit : Matchit Handler) where
  open matchit use {Tree, default_tree, insert_pattern, find_path}

  -- `routes`, by the method's name.
  abbrev pub Router : Type 0
  Router = List (String × Tree)

  unfoldable pub new_router : Router
  new_router = []

  -- `route`: no result where the code panics.
  unfoldable pub route :
      (method : String) (path : Text) (handler : Handler) → Router → Option Router
  unfolding translate_path
  route method path handler routes =
      option_map (λ tree. insert method tree routes)
        (insert_pattern (translate_path path) handler
          (unwrap_or (lookup method routes) default_tree))

  unfoldable pub dispatch :
      (method : String) (path : Text) → Router → Option (Handler × List (Text × Text))
  dispatch method path routes = and_then (lookup method routes) (λ tree. find_path tree path)
