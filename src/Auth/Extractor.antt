-- ===== src/Auth/Extractor.antt =====
-- crates/walastack-auth/src/lib.rs: `JwtCodec::from_runtime`, the extractor `Auth` and its rejection.
-- A `TypeId` and an `Arc` go by a number; what an `Arc` points to is a parameter.
use walastack_rs.Base.{
  ℕ, String, Bool, ◌&&◌, ◌||◌, Option, none, some, List, [], ◌∷◌, leb, nat_eq, if◌then◌else◌, ◌==◌,
  nat_keys, string_keys, is_some, or_else, lookup, Result, ok, err, ◌>>=◌, ok_or, map_err,
}
use walastack_rs.Kernel.Context.{RuntimeContext, resource, capability}
use walastack_rs.Http.{Response, new_response}
use walastack_rs.Http.Extract.{Parts}
use walastack_rs.Auth.{
  SecretsProvider, Claims, JwtConfig, JwtCodec, AuthError, secrets_provider_missing,
  secret_not_found, jwt, JsonWebToken, decode,
}

pub record JwtSettings : Type 0 where
  pub key_name : String
  pub config : JwtConfig

pub data AuthRejection : Type 0 where
  missing_authorization_header : AuthRejection
  malformed_authorization_header : AuthRejection
  invalid_token : AuthRejection
  missing_runtime_context : AuthRejection
  missing_jwt_settings : AuthRejection
  no_secrets_provider : AuthRejection  -- `SecretsProviderMissing`
  jwt_secret_not_found : String → AuthRejection  -- `SecretNotFound`

unfoldable pub from_construction_error : AuthError → AuthRejection
from_construction_error secrets_provider_missing = no_secrets_provider
from_construction_error (secret_not_found name) = jwt_secret_not_found name
from_construction_error (jwt _) = invalid_token

unfoldable pub status : AuthRejection → ℕ
status missing_authorization_header = 401
status malformed_authorization_header = 401
status invalid_token = 401
status missing_runtime_context = 500
status missing_jwt_settings = 500
status no_secrets_provider = 500
status (jwt_secret_not_found _) = 500

-- `AuthRejection::into_response`.
unfoldable pub rejection_response : AuthRejection → Response
unfolding new_response status
rejection_response r =
    record (new_response
      (if nat_eq (status r) 401 then "Unauthorized" else "Internal Server Error")) {
        status = status r;
      }

-- `char::is_whitespace`.
unfoldable pub is_whitespace : ℕ → Bool
is_whitespace c =
    (leb 9 c && leb c 13)
    || nat_eq c 32
    || nat_eq c 133
    || nat_eq c 160
    || nat_eq c 5760
    || (leb 8192 c && leb c 8202)
    || nat_eq c 8232
    || nat_eq c 8233
    || nat_eq c 8239
    || nat_eq c 8287
    || nat_eq c 12288

-- `str::trim`, from the start and from the end.
unfoldable pub trim_start : List ℕ → List ℕ
unfolding is_whitespace
trim_start [] = []
trim_start (c ∷ t) = if is_whitespace c then trim_start t else c ∷ t

abbrev pub keep_end : ℕ → List ℕ → List ℕ
keep_end c [] = if is_whitespace c then [] else c ∷ []
keep_end c (d ∷ t) = c ∷ d ∷ t

unfoldable pub trim_end : List ℕ → List ℕ
unfolding is_whitespace
trim_end [] = []
trim_end (c ∷ t) = keep_end c (trim_end t)

-- `str::strip_prefix`.
unfoldable pub strip_prefix : (prefix : List ℕ) → List ℕ → Option (List ℕ)
strip_prefix [] t = some t
strip_prefix (p ∷ prefix) [] = none
strip_prefix (p ∷ prefix) (c ∷ t) =
    let rest = strip_prefix prefix t in if p == c then rest else none

-- "Bearer " and "bearer ".
abbrev pub upper_bearer : List ℕ
upper_bearer = b'B' ∷ b'e' ∷ b'a' ∷ b'r' ∷ b'e' ∷ b'r' ∷ b' ' ∷ []

abbrev pub lower_bearer : List ℕ
lower_bearer = b'b' ∷ b'e' ∷ b'a' ∷ b'r' ∷ b'e' ∷ b'r' ∷ b' ' ∷ []

unfoldable pub not_empty : List ℕ → Result (List ℕ) AuthRejection
not_empty [] = err malformed_authorization_header
not_empty (c ∷ t) = ok (c ∷ t)

-- The steps of `from_request_parts` on the text of the header, and those that get it.
unfoldable pub header_token : List ℕ → Result (List ℕ) AuthRejection
unfolding strip_prefix trim_start trim_end not_empty
header_token header =
    ok_or (or_else (strip_prefix upper_bearer header) (strip_prefix lower_bearer header))
      malformed_authorization_header
    >>= λ rest. not_empty (trim_end (trim_start rest))

unfoldable pub bearer_token : Parts → Result (List ℕ) AuthRejection
unfolding header_token
bearer_token parts =
    ok_or (lookup "authorization" parts.headers) missing_authorization_header >>= λ value.
    ok_or value malformed_authorization_header >>= λ header. header_token header

-- The types that the extractor looks up, and what their handles point to.
pub record AuthTypes : Type 0 where
  pub secrets_type : ℕ
  pub secrets_type_name : String
  pub settings_type : ℕ
  pub provider_at : ℕ → SecretsProvider
  pub settings_at : ℕ → JwtSettings

-- The check of the secret in `JwtCodec::from_runtime`.
unfoldable pub from_provider :
    SecretsProvider → (key_name : String) → JwtConfig → Result JwtCodec AuthError
from_provider secrets key_name config =
    if is_some (secrets.get key_name)
    then ok (record { secrets = secrets; key_name = key_name; config = config })
    else err (secret_not_found key_name)

module _ (types : AuthTypes) where
  open types use {secrets_type, settings_type, provider_at, settings_at}

  -- A weighted provider's counter moves on, whatever comes of the call.
  unfoldable pub from_runtime :
      RuntimeContext → (key_name : String) → JwtConfig → Result JwtCodec AuthError × RuntimeContext
  unfolding from_provider
  from_runtime ctx key_name config =
      let (found, ctx') = capability secrets_type ctx in
      (
        ok_or found secrets_provider_missing >>= λ handle.
            from_provider (provider_at handle) key_name config,
        ctx',
      )

  unfoldable pub settings_codec :
      Parts → RuntimeContext → JwtSettings → Result JwtCodec AuthRejection × Parts
  unfolding from_runtime
  settings_codec parts ctx settings =
      let (made, ctx') = from_runtime ctx settings.key_name settings.config in
      (map_err from_construction_error made, record parts { runtime = some ctx' })

  unfoldable pub context_codec : Parts → RuntimeContext → Result JwtCodec AuthRejection × Parts
  unfolding settings_codec
  context_codec parts ctx = elim (resource settings_type ctx) [
    | none ↦ (err missing_jwt_settings, parts)
    | some handle ↦ settings_codec parts ctx (settings_at handle)
  ]

  -- The steps of `from_request_parts` before the header.
  unfoldable pub request_codec : Parts → Result JwtCodec AuthRejection × Parts
  unfolding context_codec
  request_codec parts = elim parts.runtime [
    | none ↦ (err missing_runtime_context, parts)
    | some ctx ↦ context_codec parts ctx
  ]

  -- `Auth::from_request_parts`.
  unfoldable pub auth_extractor :
      JsonWebToken → (now : ℕ) → Parts → Result Claims AuthRejection × Parts
  unfolding request_codec bearer_token
  auth_extractor jsonwebtoken now parts =
      let (made, parts') = request_codec parts in
      (
        made >>= λ codec. bearer_token parts' >>= λ token.
            map_err (λ _. invalid_token) (decode jsonwebtoken now codec token),
        parts',
      )
