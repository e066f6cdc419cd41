-- ===== src/Http/Extract.antt =====
-- crates/walastack-http/src/lib.rs: the extractors. What serde and a type's `FromStr` answer are
-- parameters; the extensions of a request are those that this repository sets.
use walastack_rs.Base.{
  ℕ, String, Option, List, [], ◌∷◌, nat_keys, string_keys, unwrap_or, Result, ok, err, ◌>>=◌, ok_or,
  map_err,
}
use walastack_rs.Http.{
  ExtractionRejection, missing_path_params, path_deserialization_failed,
  query_deserialization_failed, json_deserialization_failed, body_read_failed,
}
use walastack_rs.Kernel.Context.{RuntimeContext}

-- `PathParams`, in the order in which its map is iterated.
abbrev pub PathParams : Type 0
PathParams = List (List ℕ × List ℕ)

-- The parts of a request. A header's value is `none` where it is not visible ASCII.
pub record Parts : Type 0 where
  pub method : String
  pub path : List ℕ
  pub query : Option String
  pub headers : List (String × Option (List ℕ))
  pub runtime : Option RuntimeContext
  pub path_params : Option PathParams

-- A request; its body is a text, or the error of reading it.
pub record Request : Type 0 where
  pub parts : Parts
  pub body : Result String String

-- An extractor of the parts, which it may change, and one that consumes the request. A rejection
-- goes by its response where it is not looked at.
abbrev pub FromRequestParts {ℓ κ} : Type ℓ → Type κ → Type (ℓ ⊔ κ)
FromRequestParts A E = Parts → Result A E × Parts

abbrev pub FromRequest {ℓ κ} : Type ℓ → Type κ → Type (ℓ ⊔ κ)
FromRequest A E = Request → Result A E

-- Every extractor of the parts is one of the request.
unfoldable pub from_parts {ℓ κ} : {A : Type ℓ} {E : Type κ} → FromRequestParts A E → FromRequest A E
from_parts extract req = (extract req.parts).0

module _ {ℓ} {T : Type ℓ} (parse : List ℕ → Result T String) where
  -- The value that `values().next()` gives, parsed.
  unfoldable pub parse_first : PathParams → Result T ExtractionRejection
  parse_first [] = err (path_deserialization_failed "no path parameter found")
  parse_first ((_, value) ∷ _) = map_err path_deserialization_failed (parse value)

  -- `Path<T>`.
  unfoldable pub path_extractor : FromRequestParts T ExtractionRejection
  unfolding parse_first
  path_extractor parts =
      (ok_or parts.path_params missing_path_params >>= λ params. parse_first params, parts)

module _ {ℓ} {T : Type ℓ} (parse : String → Result T String) where
  -- `Query<T>`.
  unfoldable pub query_extractor : FromRequestParts T ExtractionRejection
  query_extractor parts =
      (map_err query_deserialization_failed (parse (unwrap_or parts.query "")), parts)

  -- `Json<T>`.
  unfoldable pub json_extractor : FromRequest T ExtractionRejection
  json_extractor req = map_err body_read_failed req.body >>= λ bytes.
      map_err json_deserialization_failed (parse bytes)

-- `Bytes`.
unfoldable pub bytes_extractor : FromRequest String ExtractionRejection
bytes_extractor req = map_err body_read_failed req.body

-- `Request` itself, `Method`, `Uri` and `HeaderMap`, which never reject.
unfoldable pub request_extractor {ℓ} : {E : Type ℓ} → FromRequest Request E
request_extractor req = ok req

unfoldable pub method_extractor {ℓ} : {E : Type ℓ} → FromRequestParts String E
method_extractor parts = (ok parts.method, parts)

unfoldable pub uri_extractor {ℓ} : {E : Type ℓ} → FromRequestParts (List ℕ × Option String) E
uri_extractor parts = (ok (parts.path, parts.query), parts)

unfoldable pub headers_extractor {ℓ} :
    {E : Type ℓ} → FromRequestParts (List (String × Option (List ℕ))) E
headers_extractor parts = (ok parts.headers, parts)
