-- ===== src/App.antt =====
-- crates/walastack-app/src/lib.rs: handlers, the application builder and the dispatch of a request.
pub mod Handlers
pub mod Documents
pub mod Declarations
pub mod Protection
pub mod Server
pub mod Examples
use walastack_rs.Base.{
  ◌+◌, ◌-◌, ◌/◌, String, ◌≡◌, Option, none, some, List, [], ◌∷◌, ◌++◌, arith, option_map, ok, err,
}
use walastack_rs.App.Handlers.{Handler, internal_server_error}
use walastack_rs.Router.{Text, Matchit, Router, new_router, route, dispatch}
use walastack_rs.Kernel.Context.{RuntimeContext, capability, resource}
use walastack_rs.Kernel.Plugins.{Plugin}
use walastack_rs.Http.{Response, new_response, with_content_type}
use walastack_rs.Http.Extract.{
  Parts, PathParams, Request, FromRequestParts, FromRequest, from_parts,
}
use walastack_rs.Json.{SerdeJson}
use walastack_rs.OpenApi.Routes.{
  OpenApiConfig, RouteSpec, Method, get, post, put, delete, patch, options, head, trace,
}

unfoldable pub not_found : Response
unfolding new_response
not_found = record (new_response "Not Found") { status = 404 }

unfoldable pub bad_request : String → Response
unfolding new_response
bad_request message = record (new_response message) { status = 400 }

-- `http::Method`, by its name.
unfoldable pub method_from_openapi : Method → String
method_from_openapi get = "GET"
method_from_openapi post = "POST"
method_from_openapi put = "PUT"
method_from_openapi delete = "DELETE"
method_from_openapi patch = "PATCH"
method_from_openapi options = "OPTIONS"
method_from_openapi head = "HEAD"
method_from_openapi trace = "TRACE"

module _ (matchit : Matchit Handler) (Value : Type 0) where
  pub record App : Type 0 where
    pub router : Router matchit
    pub plugins : List Plugin
    pub openapi_routes : List (RouteSpec Value)

  unfoldable pub new_app : App
  unfolding new_router
  new_app = record { router = new_router matchit; plugins = []; openapi_routes = [] }

  unfoldable pub with_plugin : Plugin → App → App
  with_plugin plugin app = record app { plugins = app.plugins ++ plugin ∷ [] }

  -- `add_route`, and `get`, `post`, `put` and `delete` by the name of the method; there is no result
  -- where the router panics.
  unfoldable pub add_route : (method : String) → (path : Text) → Handler → App → Option App
  unfolding route
  add_route method path handler app =
      option_map (λ router. record app { router = router })
        (route matchit method path handler app.router)

  unfoldable pub openapi_route : Handler → RouteSpec Value → App → Option App
  unfolding method_from_openapi add_route
  openapi_route handler spec app =
      add_route (method_from_openapi spec.method) spec.path handler
        (record app { openapi_routes = app.openapi_routes ++ spec ∷ [] })

  -- `dispatch_request`.
  unfoldable pub dispatch_request : Router matchit → RuntimeContext → Request → Response
  unfolding dispatch not_found
  dispatch_request router runtime req =
      let parts = record req.parts { runtime = some runtime } in
      elim (dispatch matchit req.parts.method req.parts.path router) [
        | none ↦ not_found
        | some (handler, params) ↦
            handler (record req { parts = record parts { path_params = some params } })
      ]

  -- The request as the handler gets it.
  abbrev pub injected : RuntimeContext → PathParams → Request → Request
  injected runtime params req = record req {
    parts = record (record req.parts { runtime = some runtime }) { path_params = some params };
  }

  pub dispatch_request-found :
      (router : Router matchit) (runtime : RuntimeContext) (req : Request) (handler : Handler)
      (params : PathParams)
      → dispatch matchit req.parts.method req.parts.path router ≡ some (handler, params)
      → dispatch_request router runtime req ≡ handler (injected runtime params req)
  unfolding dispatch_request
  dispatch_request-found router runtime req handler params found = ground (arith, found)

  -- `serve_request`, with the body as it was read.
  unfoldable pub serve_request : Router matchit → RuntimeContext → Request → Response
  unfolding dispatch_request bad_request
  serve_request router runtime req = elim req.body [
    | err _ ↦ bad_request "failed to read request body"
    | ok _ ↦ dispatch_request router runtime req
  ]
