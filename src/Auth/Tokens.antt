-- ===== src/Auth/Tokens.antt =====
-- What the extractor of crates/walastack-auth/src/lib.rs answers, failures included.
use walastack_rs.Base.{
  ℕ, String, ◌≡◌, refl, ap, ◌∙◌, ◌⊎◌, inl, inr, Option, List, [], ◌∷◌, arith, Option-cases,
  nat_keys, string_keys, or_else, lookup, ok, err, ◌>>=◌, ok_or, Result-cases, bind-err, ok_or-err,
  map_err-err,
}
use walastack_rs.Kernel.Context.{RuntimeContext, resource, capability}
use walastack_rs.Http.{Response, new_response}
use walastack_rs.Http.Extract.{Parts}
use walastack_rs.Auth.{
  SecretsProvider, JwtConfig, Claims, JwtCodec, AuthError, secrets_provider_missing, JsonWebToken,
  decode,
}
use walastack_rs.Auth.Extractor.{
  AuthRejection, status, rejection_response, upper_bearer, lower_bearer, bearer_token, not_empty,
  header_token, missing_authorization_header, malformed_authorization_header, invalid_token,
  AuthTypes, strip_prefix, from_provider, from_runtime, settings_codec, context_codec,
  request_codec, auth_extractor, from_construction_error, trim_end, trim_start, JwtSettings,
}

module _ (types : AuthTypes) (jsonwebtoken : JsonWebToken) where
  request_codec-headers : (parts : Parts) → (request_codec types parts).1.headers ≡ parts.headers
  unfolding request_codec context_codec settings_codec
  request_codec-headers parts = elim (Option-cases parts.runtime) [
    | inl e ↦ ground (arith, e)
    | inr (ctx, e) ↦ elim (Option-cases (resource types.settings_type ctx)) [
      | inl s ↦ ground (arith, e, s)
      | inr (arc, s) ↦ ground (arith, e, s)
    ]
  ]

  from_provider-status :
      (secrets : SecretsProvider) (key_name : String) (config : JwtConfig) (e : AuthError)
      → from_provider secrets key_name config ≡ err e
      → status (from_construction_error e) ≡ 500
  unfolding from_provider status from_construction_error
  from_provider-status secrets key_name config e failed =
      elim (Option-cases (secrets.get key_name)) [
        | inl missing ↦ ground (arith, missing, failed)
        | inr (s, found) ↦ absurd (ground (arith, found, failed))
      ]

  from_runtime-status :
      (ctx : RuntimeContext) (key_name : String) (config : JwtConfig) (e : AuthError)
      → (from_runtime types ctx key_name config).0 ≡ err e
      → status (from_construction_error e) ≡ 500
  unfolding from_runtime status from_construction_error
  from_runtime-status ctx key_name config e failed =
      elim (bind-err (ok_or (capability types.secrets_type ctx).0 secrets_provider_missing) _ e
        failed) [
          | inl absent ↦ rw ((ok_or-err _ _ _ absent).1) refl
          | inr (handle, _, refused) ↦
              from_provider-status (types.provider_at handle) key_name config e refused
        ]

  settings_codec-status :
      (parts : Parts) (ctx : RuntimeContext) (settings : JwtSettings) (r : AuthRejection)
      → (settings_codec types parts ctx settings).0 ≡ err r
      → status r ≡ 500
  unfolding settings_codec
  settings_codec-status parts ctx settings r failed =
      let (e, refused, r-e) = map_err-err from_construction_error _ r failed in
      ap status r-e ∙ from_runtime-status ctx settings.key_name settings.config e refused

  -- A failure before the header is one of the server.
  request_codec-status :
      (parts : Parts) (r : AuthRejection) → (request_codec types parts).0 ≡ err r → status r ≡ 500
  unfolding request_codec context_codec status
  request_codec-status parts r failed = elim (Option-cases parts.runtime) [
    | inl e ↦ ground (arith, e, failed)
    | inr (ctx, e) ↦ elim (Option-cases (resource types.settings_type ctx)) [
      | inl s ↦ ground (arith, e, s, failed)
      | inr (arc, s) ↦
          settings_codec-status parts ctx (types.settings_at arc) r (ground (arith, e, s, failed))
    ]
  ]

  not_empty-status : (t : List ℕ) (r : AuthRejection) → not_empty t ≡ err r → status r ≡ 401
  unfolding not_empty status
  not_empty-status [] r failed = ground (arith, failed)
  not_empty-status (c ∷ t) r failed = absurd (cc failed)

  header_token-status :
      (header : List ℕ) (r : AuthRejection) → header_token header ≡ err r → status r ≡ 401
  unfolding header_token status
  header_token-status header r failed =
      elim (bind-err
        (ok_or (or_else (strip_prefix upper_bearer header) (strip_prefix lower_bearer header))
          malformed_authorization_header)
        (λ rest. not_empty (trim_end (trim_start rest))) r failed) [
          | inl absent ↦ rw ((ok_or-err _ _ _ absent).1) refl
          | inr (rest, _, refused) ↦ not_empty-status _ r refused
        ]

  -- A failure in the header is one of the client.
  bearer_token-status :
      (parts : Parts) (r : AuthRejection) → bearer_token parts ≡ err r → status r ≡ 401
  unfolding bearer_token status
  bearer_token-status parts r failed =
      elim (bind-err (ok_or (lookup "authorization" parts.headers) missing_authorization_header) _ r
        failed) [
          | inl absent ↦ rw ((ok_or-err _ _ _ absent).1) refl
          | inr (value, _, refused) ↦
              elim (bind-err (ok_or value malformed_authorization_header) _ r refused) [
                | inl absent ↦ rw ((ok_or-err _ _ _ absent).1) refl
                | inr (header, _, refused') ↦ header_token-status header r refused'
              ]
        ]

  pub bearer_token-request_codec :
      (parts : Parts) → bearer_token (request_codec types parts).1 ≡ bearer_token parts
  unfolding bearer_token
  bearer_token-request_codec parts =
      ap
        (λ (headers : List (String × Option (List ℕ))).
          ok_or (lookup "authorization" headers) missing_authorization_header >>= λ value.
          ok_or value malformed_authorization_header >>= λ header. header_token header)
        (request_codec-headers parts)

  pub auth_extractor-bearer_token :
      (now : ℕ) (parts : Parts) (codec : JwtCodec) (r : AuthRejection)
      → (request_codec types parts).0 ≡ ok codec
      → bearer_token parts ≡ err r
      → (auth_extractor types jsonwebtoken now parts).0 ≡ err r
  unfolding auth_extractor
  auth_extractor-bearer_token now parts codec r made failed =
      rw (made, bearer_token-request_codec parts, failed) refl

  -- What a client that is not let in gets.
  abbrev pub unauthorized : Response
  unfolding new_response
  unauthorized = record (new_response "Unauthorized") { status = 401 }

  -- Without a codec, the error that prevents it, with 500; with one, the same 401 response for every
  -- error, or the claims that the codec decodes from the token of the header.
  abbrev pub Answers : (now : ℕ) → Parts → Type 0
  Answers now parts =
      ((r : AuthRejection) × ((request_codec types parts).0 ≡ err r)
        × ((auth_extractor types jsonwebtoken now parts).0 ≡ err r)
        × ((rejection_response r).status ≡ 500))
      ⊎ ((codec : JwtCodec) × ((request_codec types parts).0 ≡ ok codec)
          × (((r : AuthRejection) × ((auth_extractor types jsonwebtoken now parts).0 ≡ err r)
                × (rejection_response r ≡ unauthorized))
              ⊎ ((token : List ℕ) × (claims : Claims) × (bearer_token parts ≡ ok token)
                  × (decode jsonwebtoken now codec token ≡ ok claims)
                  × ((auth_extractor types jsonwebtoken now parts).0 ≡ ok claims))))

  -- On every request the extractor does one of three things. Without a context, settings, a provider
  -- or the secret, it gives the error of that, of status 500. Otherwise there is a codec, and either
  -- the answer is 401 with the same response whatever is wrong with the header or the token, or the
  -- header has a token, and the answer is the claims that the codec decodes from it.
  pub auth_extractor-cases : (now : ℕ) (parts : Parts) → Answers now parts
  unfolding auth_extractor rejection_response new_response
  auth_extractor-cases now parts = elim (Result-cases (request_codec types parts).0) [
    | inr (r, e) ↦ inl (r, e, rw e refl, request_codec-status parts r e)
    | inl (codec, made) ↦
        let same = bearer_token-request_codec parts in
        elim (Result-cases (bearer_token parts)) [
          | inr (r, e) ↦ inr (
            codec,
            made,
            inl (r, rw (made, same, e) refl, rw (bearer_token-status parts r e) refl),
          )
          | inl (token, found) ↦ elim (Result-cases (decode jsonwebtoken now codec token)) [
            | inr (x, e) ↦
                inr (codec, made, inl (invalid_token, rw (made, same, found, e) refl, refl))
            | inl (claims, e) ↦
                inr (codec, made, inr (token, claims, found, e, rw (made, same, found, e) refl))
          ]
        ]
  ]
