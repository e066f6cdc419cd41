-- ===== src/Auth/Issued.antt =====
-- Tokens that crates/walastack-auth/src/lib.rs issues, at its extractor.
use walastack_rs.Base.{
  ℕ, ◌+◌, ◌≤◌, min, String, ◌≡◌, refl, sym, ap, ◌∙◌, ◌⊎◌, inr, true, none, some, List, [], ◌∷◌,
  ◌++◌, arith, leb, if◌then◌else◌, nat_keys, string_keys, All, lookup, ok, ok_or, map_err, bind-ok,
  ok_or-ok, map_err-ok,
}
use mathlib.Core.List.{append-nil}
use walastack_rs.Http.Extract.{Parts}
use walastack_rs.Auth.{
  Secret, Claims, JwtCodec, secret_not_found, jwt, i64_max, Validation, JsonWebToken, encode,
  decode, issue,
}
use walastack_rs.Auth.Extractor.{
  upper_bearer, bearer_token, AuthTypes, request_codec, auth_extractor,
}
use walastack_rs.Auth.Bearer.{IsBlack, bearer_token-header}
use walastack_rs.Auth.Tokens.{bearer_token-request_codec}

-- What jsonwebtoken documents: a token is not empty and has no white space, and one that it made
-- with a secret is accepted with that secret up to 60 seconds after its expiry, if the issuer is the
-- one that is asked for and the audience as well, where one is asked for.
pub record IsStandard (jsonwebtoken : JsonWebToken) : Type 0 where
  pub shape :
      (claims : Claims) (secret : Secret) (token : List ℕ)
      → jsonwebtoken.encode claims secret ≡ ok token
      → (c : ℕ) × (rest : List ℕ) × (token ≡ c ∷ rest) × All IsBlack (c ∷ rest)
  pub accepts :
      (claims : Claims) (secret : Secret) (token : List ℕ) (now : ℕ) (v : Validation)
      → jsonwebtoken.encode claims secret ≡ ok token
      → claims.iss ≡ v.issuer
      → (v.audience ≡ none) ⊎ (claims.aud ≡ v.audience)
      → now ≤ claims.exp + 60
      → jsonwebtoken.decode now token secret v ≡ ok claims

module _ (types : AuthTypes) (jsonwebtoken : JsonWebToken) where
  exp_lem :
      (now ttl later : ℕ)
      → now + ttl ≤ i64_max
      → later ≤ now + ttl + 60
      → later ≤ min (now + (if leb ttl i64_max then ttl else i64_max)) i64_max + 60
  exp_lem now ttl later small soon = ground arith

  encode-secret :
      (codec : JwtCodec) (claims : Claims) (token : List ℕ)
      → encode jsonwebtoken codec claims ≡ ok token
      → (secret : Secret) × (codec.secrets.get codec.key_name ≡ some secret)
        × (jsonwebtoken.encode claims secret ≡ ok token)
  unfolding encode
  encode-secret codec claims token made =
      let (secret, found, signed) =
        bind-ok (ok_or (codec.secrets.get codec.key_name) (secret_not_found codec.key_name))
          (λ secret. map_err jwt (jsonwebtoken.encode claims secret)) token made in
      (secret, ok_or-ok _ _ secret found, map_err-ok jwt _ token signed)

  -- Claims that a codec issues and encodes are the claims that the extractor gives for a request with
  -- that token, up to 60 seconds after the time to live, if the request's runtime has that codec and
  -- the expiry is below i64::MAX.
  pub auth_extractor-issue :
      (standard : IsStandard jsonwebtoken) (parts : Parts) (codec : JwtCodec) (now later : ℕ)
      (subject : String) (roles : List String) (token : List ℕ)
      → (request_codec types parts).0 ≡ ok codec
      → encode jsonwebtoken codec (issue now codec subject roles) ≡ ok token
      → lookup "authorization" parts.headers ≡ some (some (upper_bearer ++ token))
      → now + codec.config.default_ttl ≤ i64_max
      → later ≤ now + codec.config.default_ttl + 60
      → (auth_extractor types jsonwebtoken later parts).0 ≡ ok (issue now codec subject roles)
  unfolding auth_extractor decode issue
  auth_extractor-issue standard parts codec now later subject roles token made encoded header small
        soon =
      let (secret, found, signed) =
        encode-secret codec (issue now codec subject roles) token encoded in
      let (c, rest, split, black) =
        standard.shape (issue now codec subject roles) secret token signed in
      let carried : bearer_token parts ≡ ok token =
        bearer_token-header parts true [] [] rest c tt tt black
          (header ∙ ap (λ t. some (some (upper_bearer ++ t))) (split ∙ sym (append-nil (c ∷ rest))))
        ∙ ap ok (sym split) in
      let decoded =
        standard.accepts (issue now codec subject roles) secret token later
          (record { issuer = codec.config.issuer; audience = codec.config.audience }) signed refl
          (inr refl) (exp_lem now codec.config.default_ttl later small soon) in
      rw (made, bearer_token-request_codec types jsonwebtoken parts, carried, found, decoded) refl
