-- ===== src/Http.antt =====
-- crates/walastack-http/src/lib.rs: responses, and the extraction of a handler's arguments from a
-- request. The bytes of a body go by the text that they encode, and a failed parse by its message.
pub mod Extract
use walastack_rs.Base.{
  ℕ, zero, suc, ◌+◌, ◌-◌, ◌*◌, ◌/◌, ◌%◌, ◌^◌, ◌≤◌, ◌<◌, min, max, String, ◌≡◌, refl, sym, ap, ◌∙◌,
  ◌≢◌, ◌↔◌, ◌⊎◌, inl, inr, Bool, true, false, ◌&&◌, ◌||◌, not, Option, none, some, List, [], ◌∷◌,
  ◌++◌, map, arith, ltb, leb, nat_eq, if◌then◌else◌, nat_eq_iff, leb→le, le→leb, Bool-cases,
  Option-cases, Key, ◌==◌, ==_iff, ==_refl, nat_keys, string_keys, length, count, find, All,
  length-append, count-append, count-le-length, All-append, All-middle, has, has-append, All-mono,
  is_some, map_or, and_then, option_map, unwrap_or, lookup, insert, remove, adjust, lookup-insert,
  lookup-insert_self, lookup-remove, lookup-adjust, lookup-adjust-some, lookup-adjust_test,
  length-insert, All-insert, All-remove, All-lookup, lookup-nil, u32_max, u64_max,
  u32_saturating_suc, duration_max, saturating_add, saturating_mul, ℤ, as_i32, Result, ok, err,
  ◌>>=◌, ok_or, map_err, Result-cases,
}
use Prim.Native.String.{◌++◌ as append}

-- A response: its status, its `HeaderMap`, and its body.
pub record Response : Type 0 where
  pub status : ℕ
  pub headers : List (String × String)
  pub body : String

abbrev pub content_type : String
content_type = "content-type"

-- `Response::new`: 200 and no headers.
unfoldable pub new_response : String → Response
new_response body = record { status = 200; headers = []; body = body }

unfoldable pub with_content_type : String → Response → Response
with_content_type value r = record r { headers = insert content_type value r.headers }

-- `text_response`, which texts become.
unfoldable pub text_response : String → Response
unfolding new_response with_content_type
text_response bytes = with_content_type "text/plain; charset=utf-8" (new_response bytes)

-- `Html::into_response`.
unfoldable pub html_response : String → Response
unfolding new_response with_content_type
html_response bytes = with_content_type "text/html; charset=utf-8" (new_response bytes)

unfoldable pub json_serialization_error : Response
unfolding new_response with_content_type
json_serialization_error =
    with_content_type "application/json"
      (record (new_response "{\"error\":\"json serialization failed\"}") { status = 500 })

-- `Json::into_response`, from what `serde_json::to_vec` answers.
unfoldable pub json_response : Result String String → Response
unfolding new_response with_content_type json_serialization_error
json_response (ok bytes) = with_content_type "application/json" (new_response bytes)
json_response (err _) = json_serialization_error

-- `IntoResponse` for a result.
unfoldable pub result_response {ℓ κ} :
    {A : Type ℓ} {E : Type κ} → (A → Response) → (E → Response) → Result A E → Response
result_response f g (ok a) = f a
result_response f g (err e) = g e

-- `Error`, with the text of an io error.
pub data Error : Type 0 where
  io : String → Error
  invalid_address : String → Error
  runtime : String → Error
  custom : String → Error

pub data ExtractionRejection : Type 0 where
  missing_path_params : ExtractionRejection
  path_deserialization_failed : String → ExtractionRejection
  query_deserialization_failed : String → ExtractionRejection
  json_deserialization_failed : String → ExtractionRejection
  body_read_failed : String → ExtractionRejection

-- The texts of `thiserror`.
unfoldable pub rejection_message : ExtractionRejection → String
rejection_message missing_path_params = "missing path parameters in request extensions"
rejection_message (path_deserialization_failed e) = append "invalid path parameter: " e
rejection_message (query_deserialization_failed e) = append "invalid query string: " e
rejection_message (json_deserialization_failed e) = append "invalid JSON body: " e
rejection_message (body_read_failed e) = append "failed to read request body: " e

unfoldable pub rejection_status : ExtractionRejection → ℕ
rejection_status missing_path_params = 500
rejection_status (body_read_failed _) = 500
rejection_status (path_deserialization_failed _) = 400
rejection_status (query_deserialization_failed _) = 400
rejection_status (json_deserialization_failed _) = 400

unfoldable pub rejection_response : ExtractionRejection → Response
unfolding new_response with_content_type rejection_status rejection_message
rejection_response r =
    with_content_type "text/plain; charset=utf-8"
      (record (new_response (rejection_message r)) { status = rejection_status r })
