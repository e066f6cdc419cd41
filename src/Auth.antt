-- ===== src/Auth.antt =====
-- crates/walastack-auth/src/lib.rs: secrets, claims, the JWT codec and sessions. The library
-- jsonwebtoken is a parameter. A time is a number of seconds from 1970 on.
pub mod Extractor
pub mod Plugins
pub mod Sessions
pub mod Bearer
pub mod Tokens
pub mod Issued
pub mod Startup
pub mod Examples
use walastack_rs.Base.{
  ℕ, zero, suc, ◌+◌, ◌-◌, ◌*◌, ◌/◌, ◌%◌, ◌^◌, ◌≤◌, ◌<◌, min, max, String, ◌≡◌, refl, sym, ap, ◌∙◌,
  ◌≢◌, ◌↔◌, ◌⊎◌, inl, inr, Bool, true, false, ◌&&◌, ◌||◌, not, Option, none, some, List, [], ◌∷◌,
  ◌++◌, map, arith, ltb, leb, nat_eq, if◌then◌else◌, nat_eq_iff, leb→le, le→leb, Bool-cases,
  Option-cases, Key, ◌==◌, ==_iff, ==_refl, nat_keys, string_keys, length, count, find, All,
  length-append, count-append, count-le-length, All-append, All-middle, has, has-append, All-mono,
  is_some, map_or, and_then, option_map, unwrap_or, lookup, insert, remove, adjust, lookup-insert,
  lookup-insert_self, lookup-remove, lookup-adjust, lookup-adjust-some, lookup-adjust_test,
  length-insert, All-insert, All-remove, All-lookup, lookup-nil, u32_max, u64_max,
  u32_saturating_suc, duration_max, saturating_add, saturating_mul, ℤ, as_i32, Result, ok, err,
  ◌>>=◌, ok_or, map_err, Result-cases,
}

-- i64::MAX.
abbrev pub i64_max : ℕ
i64_max = 9223372036854775807

-- The bytes of a secret: those of a text, or bytes that are not UTF-8.
pub data Secret : Type 0 where
  text : String → Secret
  binary : List ℕ → Secret

-- `String::from_utf8`.
abbrev pub from_utf8 : Secret → Option String
from_utf8 (text s) = some s
from_utf8 (binary _) = none

pub record SecretsProvider : Type 0 where
  pub get : (name : String) → Option Secret

-- `InMemorySecretsPlugin`, `new`, `with` and `insert`, and the provider it registers.
abbrev pub InMemorySecrets : Type 0
InMemorySecrets = List (String × Secret)

unfoldable pub new_secrets : InMemorySecrets
new_secrets = []

unfoldable pub with_secret : (name : String) → Secret → InMemorySecrets → InMemorySecrets
with_secret name value secrets = insert name value secrets

unfoldable pub secrets_provider : InMemorySecrets → SecretsProvider
secrets_provider secrets = record { get = λ name. lookup name secrets }

pub record Claims : Type 0 where
  pub sub : String
  pub iss : String
  pub aud : Option String
  pub exp : ℕ
  pub iat : ℕ
  pub roles : List String

unfoldable pub has_role : Claims → (role : String) → Bool
has_role claims role = has role claims.roles

unfoldable pub has_any_role : Claims → (roles : List String) → Bool
unfolding has_role
has_any_role claims [] = false
has_any_role claims (role ∷ roles) = has_role claims role || has_any_role claims roles

pub record JwtConfig : Type 0 where
  pub issuer : String
  pub audience : Option String
  pub default_ttl : ℕ  -- seconds, u64

unfoldable pub new_config : (issuer : String) → JwtConfig
new_config issuer = record { issuer = issuer; audience = none; default_ttl = 3600 }

unfoldable pub with_audience : String → JwtConfig → JwtConfig
with_audience audience config = record config { audience = some audience }

unfoldable pub with_default_ttl : ℕ → JwtConfig → JwtConfig
with_default_ttl ttl config = record config { default_ttl = ttl }

pub data AuthError : Type 0 where
  secrets_provider_missing : AuthError
  secret_not_found : String → AuthError
  jwt : String → AuthError

pub record JwtCodec : Type 0 where
  pub secrets : SecretsProvider
  pub key_name : String
  pub config : JwtConfig

unfoldable pub new_codec : SecretsProvider → (key_name : String) → JwtConfig → JwtCodec
new_codec secrets key_name config = record {
  secrets = secrets;
  key_name = key_name;
  config = config;
}

-- `now` is the clock's reading, below i64::MAX.
unfoldable pub issue_with_ttl :
    (now : ℕ) → JwtCodec → (subject : String) → (roles : List String) → (ttl : ℕ) → Claims
issue_with_ttl now codec subject roles ttl = record {
  sub = subject;
  iss = codec.config.issuer;
  aud = codec.config.audience;
  exp = min (now + (if leb ttl i64_max then ttl else i64_max)) i64_max;
  iat = now;
  roles = roles;
}

unfoldable pub issue : (now : ℕ) → JwtCodec → (subject : String) → (roles : List String) → Claims
unfolding issue_with_ttl
issue now codec subject roles = issue_with_ttl now codec subject roles codec.config.default_ttl

-- `Validation`: the issuer, and the audience if one is enforced.
pub record Validation : Type 0 where
  pub issuer : String
  pub audience : Option String

-- jsonwebtoken over HS256. A token is the list of its characters' codes, an error its message; the
-- clock's reading decides on the expiry.
pub record JsonWebToken : Type 0 where
  pub encode : Claims → Secret → Result (List ℕ) String
  pub decode : (now : ℕ) → List ℕ → Secret → Validation → Result Claims String

module _ (jsonwebtoken : JsonWebToken) where
  -- `encode`, by `encode_custom`.
  unfoldable pub encode : JwtCodec → Claims → Result (List ℕ) AuthError
  encode codec claims =
      ok_or (codec.secrets.get codec.key_name) (secret_not_found codec.key_name) >>= λ secret.
      map_err jwt (jsonwebtoken.encode claims secret)

  -- `decode`, by `decode_custom`.
  unfoldable pub decode : (now : ℕ) → JwtCodec → List ℕ → Result Claims AuthError
  decode now codec token =
      ok_or (codec.secrets.get codec.key_name) (secret_not_found codec.key_name) >>= λ secret.
      map_err jwt (
        jsonwebtoken.decode now token secret
          (record { issuer = codec.config.issuer; audience = codec.config.audience }))
