-- ===== src/App/Documents.antt =====
-- crates/walastack-app/src/lib.rs: the endpoint of the OpenAPI document, and the routes in it.
use walastack_rs.Base.{
  ℕ, String, ◌≡◌, refl, sym, ap, ◌∙◌, inl, inr, true, false, Option, none, some, List, [], ◌∷◌,
  arith, Option-cases, nat_keys, string_keys, codes_keys, map_or, and_then, option_map, unwrap_or,
  option_map-some, lookup, insert, lookup-insert_self, Result, ok, err,
}
use walastack_rs.Router.{
  Text, colon, opening, closing, Matchit, Router, translate, translate_path, route, dispatch,
}
use walastack_rs.Router.Translation.{Lacks}
use walastack_rs.Kernel.Context.{RuntimeContext, resource}
use walastack_rs.Http.{Response, new_response, with_content_type}
use walastack_rs.Http.Extract.{Request}
use walastack_rs.Json.{SerdeJson}
use walastack_rs.OpenApi.Routes.{OpenApiConfig, RouteSpec}
use walastack_rs.OpenApi.Paths.{starts_with_slash}
use walastack_rs.OpenApi.Document.{render_document}
use walastack_rs.App.Handlers.{Handler, internal_server_error}
use walastack_rs.App.{App, dispatch_request, dispatch_request-found, injected}

-- What the handler of the document finds: the library and its writer, the texts of statuses and
-- paths, and the type of the configuration with what its handle points to.
pub record DocumentTypes : Type 1 where
  pub json : SerdeJson
  pub to_vec : SerdeJson.Value json → Result String String
  pub status_text : ℕ → String
  pub show_path : Text → String
  pub config_type : ℕ
  pub config_at : ℕ → OpenApiConfig

-- What matchit documents: a pattern with no brace, which is then no parameter and no escape, finds its
-- handler, once it was added, under the path that it is, with no parameters.
abbrev pub FindsLiterals : Matchit Handler → Type 0
FindsLiterals matchit =
    (pattern : Text) (handler : Handler) (tree tree' : Matchit.Tree matchit)
    → starts_with_slash pattern ≡ true
    → Lacks opening pattern
    → Lacks closing pattern
    → matchit.insert_pattern pattern handler tree ≡ some tree'
    → matchit.find_path tree' pattern ≡ some (handler, [])

translate_plain : (t : Text) → Lacks colon t → translate false t ≡ t
unfolding translate
translate_plain [] h = refl
translate_plain (c ∷ t) h = rw (h.0, translate) (ap (◌∷◌ c) (translate_plain t h.1))

module _ (matchit : Matchit Handler) (types : DocumentTypes) where
  open types use {json, to_vec, status_text, show_path, config_type, config_at}

  unfoldable pub document_response : OpenApiConfig → List (RouteSpec json.Value) → Response
  document_response config routes =
      elim (to_vec (render_document json status_text show_path config routes)) [
        | err _ ↦ internal_server_error
        | ok bytes ↦ with_content_type "application/json" (new_response bytes)
      ]

  unfoldable pub openapi_handler : List (RouteSpec json.Value) → Handler
  unfolding document_response
  openapi_handler routes req = elim req.parts.runtime [
    | none ↦ internal_server_error
    | some ctx ↦ elim (resource config_type ctx) [
      | none ↦ internal_server_error
      | some arc ↦ document_response (config_at arc) routes
    ]
  ]

  -- The routes so far go into the document, and the list starts again.
  unfoldable pub openapi_serve_at :
      (path : Text) → App matchit json.Value → Option (App matchit json.Value)
  unfolding openapi_handler
  openapi_serve_at path app =
      option_map (λ router. record app { router = router; openapi_routes = [] })
        (route matchit "GET" path (openapi_handler app.openapi_routes) app.router)

  -- Where a route was added, its pattern finds its handler.
  dispatch-route_literal :
      (finds : FindsLiterals matchit) (method : String) (path : Text) (handler : Handler)
      (router router' : Router matchit)
      → starts_with_slash path ≡ true
      → Lacks colon path
      → Lacks opening path
      → Lacks closing path
      → route matchit method path handler router ≡ some router'
      → dispatch matchit method path router' ≡ some (handler, [])
  unfolding route dispatch
  dispatch-route_literal finds method path handler router router' absolute plain plain' plain''
        added =
      let (tree, inserted, here) =
        option_map-some (λ tree. insert method tree router)
          (matchit.insert_pattern (translate_path path) handler
            (unwrap_or (lookup method router) matchit.default_tree))
          router' added in
      let same : translate_path path ≡ path = unfold translate_path in translate_plain path plain in
      let old = unwrap_or (lookup method router) matchit.default_tree in
      let inserted' : matchit.insert_pattern path handler old ≡ some tree =
        ap (λ pattern. matchit.insert_pattern pattern handler old) (sym same) ∙ inserted in
      ap (λ (r : Router matchit). and_then (lookup method r) (λ tree. matchit.find_path tree path))
        here
      ∙ rw (lookup-insert_self method tree router)
          (finds path handler old tree absolute plain' plain'' inserted')

  openapi_handler-injected :
      (routes : List (RouteSpec json.Value)) (ctx : RuntimeContext) (req : Request)
      → openapi_handler routes (injected matchit json.Value ctx [] req)
        ≡ map_or internal_server_error
            (λ arc. document_response (config_at arc) routes)
            (resource config_type ctx)
  unfolding openapi_handler
  openapi_handler-injected routes ctx req = elim (Option-cases (resource config_type ctx)) [
    | inl e ↦ ground (arith, e)
    | inr (arc, e) ↦ ground (arith, e)
  ]

  -- A GET of an absolute path with no colon and no brace, at which the document was served, gives the
  -- routes that were
  -- declared until then, under the configuration of the context, and 500 without a configuration; the
  -- list of routes starts again.
  pub dispatch_request-openapi_serve_at :
      (finds : FindsLiterals matchit) (path : Text) (app app' : App matchit json.Value)
      (req : Request) (ctx : RuntimeContext)
      → starts_with_slash path ≡ true
      → Lacks colon path
      → Lacks opening path
      → Lacks closing path
      → openapi_serve_at path app ≡ some app'
      → req.parts.method ≡ "GET"
      → req.parts.path ≡ path
      → (dispatch_request matchit json.Value app'.router ctx req
          ≡ map_or internal_server_error
              (λ arc. document_response (config_at arc) app.openapi_routes)
              (resource config_type ctx))
        × (app'.openapi_routes ≡ [])
  unfolding openapi_serve_at
  dispatch_request-openapi_serve_at finds path app app' req ctx absolute plain plain' plain'' served
        gets here =
      let (router, added, made) =
        option_map-some
          (λ (router : Router matchit). record app { router = router; openapi_routes = [] })
          (route matchit "GET" path (openapi_handler app.openapi_routes) app.router) app' served in
      let found =
        dispatch-route_literal finds "GET" path (openapi_handler app.openapi_routes) app.router
          router absolute plain plain' plain'' added in
      let routed =
        ap (λ m. dispatch matchit m req.parts.path app'.router) gets
        ∙ ap (λ p. dispatch matchit "GET" p app'.router) here
        ∙ ap (λ (a : App matchit json.Value). dispatch matchit "GET" path a.router) made
        ∙ found in
      (
        dispatch_request-found matchit json.Value app'.router ctx req
              (openapi_handler app.openapi_routes) [] routed
            ∙ openapi_handler-injected app.openapi_routes ctx req,
        ap (λ (a : App matchit json.Value). a.openapi_routes) made,
      )
