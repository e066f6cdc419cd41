-- ===== src/App/Protection.antt =====
-- A route of crates/walastack-app/src/lib.rs whose handler takes the extractor `Auth` of
-- crates/walastack-auth/src/lib.rs.
use walastack_rs.Base.{
  ℕ, ◌+◌, ◌≤◌, String, ◌≡◌, refl, ap, ◌∙◌, ◌⊎◌, inl, inr, Bool, none, some, List, ◌++◌, arith,
  nat_keys, string_keys, codes_keys, lookup, ok, err, map_err,
}
use walastack_rs.Router.{Matchit, Router, dispatch}
use walastack_rs.Kernel.Context.{RuntimeContext}
use walastack_rs.Kernel.Runtime.{RuntimeBuilder}
use walastack_rs.Kernel.Phases.{built}
use walastack_rs.Http.{Response}
use walastack_rs.Http.Extract.{Parts, PathParams, Request, FromRequestParts, from_parts}
use walastack_rs.Auth.{Secret, Claims, JwtCodec, JsonWebToken, issue, encode, i64_max}
use walastack_rs.Auth.Extractor.{
  AuthRejection, upper_bearer, rejection_response, bearer_token, AuthTypes, from_provider,
  request_codec, auth_extractor, missing_authorization_header,
}
use walastack_rs.Auth.Tokens.{unauthorized, auth_extractor-cases, auth_extractor-bearer_token}
use walastack_rs.Auth.Issued.{IsStandard, auth_extractor-issue}
use walastack_rs.Auth.Startup.{Serves, auth_plugins, build-with_auth}
use walastack_rs.App.Handlers.{Handler, with_request, call_1}
use walastack_rs.App.{dispatch_request, dispatch_request-found, injected}

module _ (types : AuthTypes) (jsonwebtoken : JsonWebToken) (now : ℕ) where
  -- `Auth` as an argument of a handler.
  unfoldable pub auth_argument : FromRequestParts Claims Response
  auth_argument parts =
      let (answer, parts') = auth_extractor types jsonwebtoken now parts in
      (map_err rejection_response answer, parts')

  -- `async fn(Auth(claims): Auth) -> R`.
  abbrev pub protected : (Claims → Response) → Handler
  protected f = call_1 (from_parts auth_argument) f

  protected-err :
      (f : Claims → Response) (req : Request) (r : AuthRejection)
      → (auth_extractor types jsonwebtoken now req.parts).0 ≡ err r
      → protected f req ≡ rejection_response r
  unfolding call_1 with_request from_parts auth_argument
  protected-err f req r failed = ground (arith, failed)

  protected-ok :
      (f : Claims → Response) (req : Request) (claims : Claims)
      → (auth_extractor types jsonwebtoken now req.parts).0 ≡ ok claims
      → protected f req ≡ f claims
  unfolding call_1 with_request from_parts auth_argument
  protected-ok f req claims done = ground (arith, done)

  module _ (matchit : Matchit Handler) (Value : Type 0) where
    -- A response of status 500 that the lack of a part of the server's configuration decides, the
    -- response for a client that is not let in, or that of the handler's code.
    abbrev pub Protects :
        (Claims → Response) → Router matchit → RuntimeContext → Request → PathParams → Type 0
    Protects f router ctx req params =
        let answer = dispatch_request matchit Value router ctx req in
        let parts = (injected matchit Value ctx params req).parts in
        ((r : AuthRejection) × ((request_codec types parts).0 ≡ err r)
          × (answer ≡ rejection_response r)
          × (answer.status ≡ 500))
        ⊎ ((answer ≡ unauthorized types jsonwebtoken)
            ⊎ ((claims : Claims) × ((auth_extractor types jsonwebtoken now parts).0 ≡ ok claims)
                × (answer ≡ f claims)))

    -- A protected route gives one of three responses: one of status 500 that does not depend on the
    -- handler's code, if the server lacks a part of its configuration; the same 401 for every client
    -- that is not let in; or that of the code, on the claims that the extractor gives.
    pub dispatch_request-protected :
        (f : Claims → Response) (router : Router matchit) (ctx : RuntimeContext) (req : Request)
        (params : PathParams)
        → dispatch matchit req.parts.method req.parts.path router ≡ some (protected f, params)
        → Protects f router ctx req params
    dispatch_request-protected f router ctx req params found =
        let req' = injected matchit Value ctx params req in
        let ran = dispatch_request-found matchit Value router ctx req (protected f) params found in
        elim (auth_extractor-cases types jsonwebtoken now req'.parts) [
          | inl (r, broken, failed, code) ↦
              let answer = ran ∙ protected-err f req' r failed in
              inl (r, broken, answer, ap (λ (a : Response). a.status) answer ∙ code)
          | inr (codec, _, inl (r, failed, same)) ↦
              inr (inl (ran ∙ protected-err f req' r failed ∙ same))
          | inr (codec, _, inr (token, claims, _, _, done)) ↦
              inr (inr (claims, done, ran ∙ protected-ok f req' claims done))
        ]

    module _ (settings_arc provider_arc : ℕ) where
      -- The codec of the settings and the provider.
      abbrev pub built_codec : JwtCodec
      built_codec = record {
        secrets = types.provider_at provider_arc;
        key_name = (types.settings_at settings_arc).key_name;
        config = (types.settings_at settings_arc).config;
      }

      -- A context over what the plugins have registered.
      abbrev pub IsOfRuntime : RuntimeBuilder → (secrets_first : Bool) → RuntimeContext → Type 0
      IsOfRuntime b secrets_first ctx =
          let r =
            built
              (record b { plugins = auth_plugins types settings_arc provider_arc secrets_first }) in
          (ctx.resources ≡ r.resources) × (ctx.capabilities ≡ r.capabilities)

      built_codec-found :
          (b : RuntimeBuilder) (secrets_first : Bool) (secret : Secret) (parts : Parts)
          → lookup types.secrets_type b.capabilities.strategies ≡ none
          → built_codec.secrets.get built_codec.key_name ≡ some secret
          → Serves
              (built
                (record b { plugins = auth_plugins types settings_arc provider_arc secrets_first }))
              parts
          → (request_codec types parts).0 ≡ ok built_codec
      unfolding from_provider
      built_codec-found b secrets_first secret parts no_strategy found serves =
          (build-with_auth types settings_arc provider_arc b secrets_first parts no_strategy
            serves).1
          ∙ (rw found refl)

      -- In a runtime built with the two plugins of the authentication crate, in either order, a
      -- protected route answers a request that carries a token of the runtime's codec, up to 60
      -- seconds after its time to live, with what the handler's code gives for the claims that were
      -- issued. The secret is there, no strategy is set for the secrets, and the expiry is below
      -- i64::MAX.
      pub dispatch_request-issue :
          (standard : IsStandard jsonwebtoken) (b : RuntimeBuilder) (secrets_first : Bool)
          (secret : Secret) (f : Claims → Response) (router : Router matchit) (ctx : RuntimeContext)
          (req : Request) (params : PathParams) (issued : ℕ) (subject : String)
          (roles : List String) (token : List ℕ)
          → lookup types.secrets_type b.capabilities.strategies ≡ none
          → built_codec.secrets.get built_codec.key_name ≡ some secret
          → IsOfRuntime b secrets_first ctx
          → dispatch matchit req.parts.method req.parts.path router ≡ some (protected f, params)
          → encode jsonwebtoken built_codec (issue issued built_codec subject roles) ≡ ok token
          → lookup "authorization" req.parts.headers ≡ some (some (upper_bearer ++ token))
          → issued + built_codec.config.default_ttl ≤ i64_max
          → now ≤ issued + built_codec.config.default_ttl + 60
          → dispatch_request matchit Value router ctx req
            ≡ f (issue issued built_codec subject roles)
      dispatch_request-issue standard b secrets_first secret f router ctx req params issued subject
            roles token no_strategy found of_runtime routed encoded header small soon =
          let req' = injected matchit Value ctx params req in
          let made =
            built_codec-found b secrets_first secret req'.parts no_strategy found
              (ctx, refl, of_runtime.0, of_runtime.1) in
          dispatch_request-found matchit Value router ctx req (protected f) params routed
          ∙ protected-ok f req' (issue issued built_codec subject roles) (
              auth_extractor-issue types jsonwebtoken standard req'.parts built_codec issued now
                subject roles token made encoded header small soon)

      -- In such a runtime a protected route answers a request without the header `Authorization` with
      -- the same 401, whatever the handler's code is.
      pub dispatch_request-unauthorized :
          (b : RuntimeBuilder) (secrets_first : Bool) (secret : Secret) (f : Claims → Response)
          (router : Router matchit) (ctx : RuntimeContext) (req : Request) (params : PathParams)
          → lookup types.secrets_type b.capabilities.strategies ≡ none
          → built_codec.secrets.get built_codec.key_name ≡ some secret
          → IsOfRuntime b secrets_first ctx
          → dispatch matchit req.parts.method req.parts.path router ≡ some (protected f, params)
          → lookup "authorization" req.parts.headers ≡ none
          → dispatch_request matchit Value router ctx req ≡ unauthorized types jsonwebtoken
      dispatch_request-unauthorized b secrets_first secret f router ctx req params no_strategy found
            of_runtime routed absent =
          let req' = injected matchit Value ctx params req in
          let made =
            built_codec-found b secrets_first secret req'.parts no_strategy found
              (ctx, refl, of_runtime.0, of_runtime.1) in
          let missing : bearer_token req'.parts ≡ err missing_authorization_header =
            unfold bearer_token in rw absent refl in
          dispatch_request-found matchit Value router ctx req (protected f) params routed
          ∙ protected-err f req' missing_authorization_header (
              auth_extractor-bearer_token types jsonwebtoken now req'.parts built_codec
                missing_authorization_header made missing)
          ∙ (unfold rejection_response in refl)
