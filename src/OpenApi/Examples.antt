-- ===== src/OpenApi/Examples.antt =====
-- Runs of the model of crates/walastack-openapi/src/lib.rs on small inputs, with a JSON library whose
-- values are texts.
use walastack_rs.Base.{
  String, ◌≡◌, refl, ◌≢◌, none, some, List, [], ◌∷◌, if◌then◌else◌, nat_keys, string_keys,
  codes_keys, codes_eq, ok,
}
use Prim.Native.String.{◌++◌ as append}
use walastack_rs.Json.{SerdeJson}
use walastack_rs.Router.{Text, translate_path}
use walastack_rs.Router.Translation.{Segment, literal, parameter, in_source, path_of}
use walastack_rs.OpenApi.Schema.{of_type, string_type}
use walastack_rs.OpenApi.Routes.{RouteSpec, new_route, get, post, response, as_str}
use walastack_rs.OpenApi.Paths.{normalize_path}
use walastack_rs.OpenApi.Agreement.{normalize_path-translate_path}
use walastack_rs.OpenApi.Mixed.{normalize_path_mixed}
use walastack_rs.OpenApi.Document.{
  operation, collect_paths, render_operation, operation-collect_paths,
}

abbrev write_array : List String → String
write_array [] = ""
write_array (v ∷ vs) = append v (append "," (write_array vs))

abbrev write_object : List (String × String) → String
write_object [] = ""
write_object ((k, v) ∷ vs) = append k (append ":" (append v (append "," (write_object vs))))

abbrev pub texts : SerdeJson
texts = record {
  Value = String;
  null = "null";
  boolean = λ b. if b then "true" else "false";
  number = λ _. "0";
  text = λ s. s;
  array = write_array;
  object = write_object;
  from_str = ok;
  get = λ _ _. none;
  as_str = some;
  as_array = λ _. none;
}

-- `/u/:id`, `/v:m` and `/h`.
abbrev pub user_path : List Segment
user_path = literal (b'u' ∷ []) ∷ parameter [] (b'i' ∷ b'd' ∷ []) ∷ []

abbrev pub health : Text
health = b'/' ∷ b'h' ∷ []

normalize_path-translate_path_example :
    normalize_path (path_of in_source user_path) ≡ translate_path (path_of in_source user_path)
normalize_path-translate_path_example =
    normalize_path-translate_path user_path
      (((refl, tt), (refl, tt)), (((tt, tt), (refl, (refl, tt))), tt)) (tt, (refl, tt))

normalize_path_mixed_example :
    normalize_path (b'/' ∷ b'a' ∷ b'/' ∷ b'v' ∷ b':' ∷ b'm' ∷ [])
    ≢ translate_path (b'/' ∷ b'a' ∷ b'/' ∷ b'v' ∷ b':' ∷ b'm' ∷ [])
normalize_path_mixed_example =
    normalize_path_mixed (literal (b'a' ∷ []) ∷ []) [] b'v' [] (b'm' ∷ [])
      (((refl, tt), (refl, tt)), ((((refl, tt), (refl, tt)), (refl, tt)), tt))

-- Two routes under one path and method, and one under another method.
abbrev pub routes : List (RouteSpec String)
unfolding new_route response of_type
routes =
    response (of_type string_type) 200 (new_route get health)
    ∷ new_route get health
    ∷ new_route post health
    ∷ []

operation-collect_paths_example :
    operation texts
      (λ _. "s")
      (λ _. "p")
      health
      "get"
      (collect_paths texts (λ _. "s") (λ _. "p") routes [])
    ≡ some (render_operation texts (λ _. "s") (λ _. "p") (new_route get health))
unfolding as_str normalize_path new_route codes_eq routes
operation-collect_paths_example =
    operation-collect_paths texts (λ _. "s") (λ _. "p") health "get" routes
