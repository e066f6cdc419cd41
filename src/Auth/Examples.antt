-- ===== src/Auth/Examples.antt =====
-- Runs of the model of crates/walastack-auth/src/lib.rs on small inputs, with a token library that
-- writes the two times of the claims of one user.
use walastack_rs.Base.{
  ℕ, ◌+◌, ◌-◌, ◌≤◌, String, ◌≡◌, refl, ◌⊎◌, false, ◌&&◌, none, some, List, [], ◌∷◌, ◌++◌, arith,
  leb, if◌then◌else◌, ◌==◌, ==_iff, nat_keys, string_keys, lookup, insert, Result, ok, err,
}
use walastack_rs.Kernel.Context.{RuntimeContext}
use walastack_rs.Kernel.Context
use walastack_rs.Capabilities.Registry
use walastack_rs.Kernel.Runtime.{RuntimeBuilder, new_builder, build}
use walastack_rs.Kernel.Phases.{built}
use walastack_rs.Http.Extract.{Parts}
use walastack_rs.Auth.{
  Secret, text, Claims, JwtConfig, JwtCodec, Validation, JsonWebToken, secrets_provider, issue,
  encode, with_secret, new_secrets,
}
use walastack_rs.Auth.Extractor.{
  AuthTypes, upper_bearer, auth_extractor, is_whitespace, no_secrets_provider, status,
}
use walastack_rs.Auth.Bearer.{IsBlack}
use walastack_rs.Auth.Issued.{IsStandard}
use walastack_rs.Auth.Startup.{named_secrets_fail, with_named_secrets, auth_plugins}
use walastack_rs.Auth.Sessions.{
  Session, new_sessions, get, puts, removes, change_all, change_all-last_word,
}

-- The times stand above every white space.
abbrev pub simple_encode : Claims → Secret → Result (List ℕ) String
simple_encode claims secret = elim (claims.aud) [
  | some _ ↦ err "audience"
  | none ↦ elim (claims.roles) [
    | _ ∷ _ ↦ err "roles"
    | [] ↦
        if (claims.sub == "ann") && (claims.iss == "wala")
        then ok ((20000 + claims.exp) ∷ (20000 + claims.iat) ∷ [])
        else err "user"
  ]
]

abbrev pub simple_decode : (now : ℕ) → List ℕ → Secret → Validation → Result Claims String
simple_decode now (e ∷ i ∷ []) secret v =
    if leb now ((e - 20000) + 60)
    then ok (record {
      sub = "ann";
      iss = v.issuer;
      aud = none;
      exp = e - 20000;
      iat = i - 20000;
      roles = [];
    })
    else err "expired"
simple_decode now _ secret v = err "malformed"

abbrev pub simple : JsonWebToken
simple = record { encode = simple_encode; decode = simple_decode }

IsBlack-above : (n : ℕ) → IsBlack (20000 + n)
unfolding is_whitespace
IsBlack-above n = ground arith

simple_shape :
    (claims : Claims) (secret : Secret) (token : List ℕ)
    → simple_encode claims secret ≡ ok token
    → token ≡ (20000 + claims.exp) ∷ (20000 + claims.iat) ∷ []
simple_shape claims secret token made = ground (arith, made)

simple_accepts :
    (claims : Claims) (secret : Secret) (token : List ℕ) (now : ℕ) (v : Validation)
    → simple_encode claims secret ≡ ok token
    → claims.iss ≡ v.issuer
    → (v.audience ≡ none) ⊎ (claims.aud ≡ v.audience)
    → now ≤ claims.exp + 60
    → simple_decode now token secret v ≡ ok claims
simple_accepts claims secret token now v made issuer audience soon =
    ground
      (arith, made, issuer, soon, simple_shape claims secret token made, ==_iff claims.sub "ann")

pub simple-IsStandard : IsStandard simple
simple-IsStandard = record {
  shape = λ claims secret token made. (
    20000 + claims.exp,
    (20000 + claims.iat) ∷ [],
    simple_shape claims secret token made,
    (IsBlack-above claims.exp, (IsBlack-above claims.iat, tt)),
  );
  accepts = simple_accepts;
}

abbrev pub wala : JwtConfig
wala = record { issuer = "wala"; audience = none; default_ttl = 3600 }

-- The secrets stand at 1, the settings at 2.
abbrev pub types : AuthTypes
types = record {
  secrets_type = 10;
  secrets_type_name = "dyn SecretsProvider";
  settings_type = 11;
  provider_at = λ _. secrets_provider (with_secret "jwt" (text "s3cret") new_secrets);
  settings_at = λ _. record { key_name = "jwt"; config = wala };
}

abbrev pub auth_builder : RuntimeBuilder
auth_builder = record new_builder { plugins = auth_plugins types 2 1 false }

abbrev pub context : RuntimeContext
context = record Context.empty {
  resources = (built auth_builder).resources;
  capabilities = (built auth_builder).capabilities;
}

-- A request with the token of the claims that are issued at 100.
abbrev pub request : Parts
request = record {
  method = "GET";
  path = b'/' ∷ [];
  query = none;
  headers = ("authorization", some (upper_bearer ++ 23700 ∷ 20100 ∷ [])) ∷ [];
  runtime = some context;
  path_params = none;
}

abbrev pub codec : JwtCodec
codec = record {
  secrets = secrets_provider (with_secret "jwt" (text "s3cret") new_secrets);
  key_name = "jwt";
  config = wala;
}

pub request_encoded : encode simple codec (issue 100 codec "ann" []) ≡ ok (23700 ∷ 20100 ∷ [])
unfolding encode issue secrets_provider with_secret new_secrets lookup insert
request_encoded = refl

pub request_authorized :
    lookup "authorization" request.headers ≡ some (some (upper_bearer ++ 23700 ∷ 20100 ∷ []))
unfolding lookup
request_authorized = refl

-- The provider under the name `vault`.
abbrev vault_builder : RuntimeBuilder
vault_builder = with_named_secrets types 2 1 "vault" new_builder

abbrev vault_context : RuntimeContext
vault_context = record Context.empty {
  resources = (built vault_builder).resources;
  capabilities = (built vault_builder).capabilities;
}

named_secrets_fail_example :
    (build vault_builder ≡ ok (built vault_builder))
    × ((auth_extractor types simple 3700 (record request { runtime = some vault_context })).0
        ≡ err no_secrets_provider)
    × (status no_secrets_provider ≡ 500)
unfolding new_builder Registry.new_registry lookup
named_secrets_fail_example =
    named_secrets_fail types 2 1 simple 3700 new_builder "vault"
      (record request { runtime = some vault_context }) refl refl refl
      (vault_context, refl, refl, refl)

abbrev ann_session : Session
ann_session = record { id = "s1"; user_id = "ann"; «data» = []; expires_at = 5000 }

change_all-last_word_example :
    get "s1" (change_all (puts ann_session ∷ removes "s2" ∷ []) new_sessions) ≡ some ann_session
change_all-last_word_example = change_all-last_word "s1" (puts ann_session ∷ removes "s2" ∷ [])
