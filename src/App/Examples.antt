-- ===== src/App/Examples.antt =====
-- Runs of the model of crates/walastack-app/src/lib.rs on small inputs, with a router that knows
-- paths without parameters only.
use walastack_rs.Base.{
  String, ◌≡◌, refl, false, none, some, List, [], ◌∷◌, arith, if◌then◌else◌, nat_keys, string_keys,
  codes_keys, codes_eq, is_some, option_map, lookup, insert, lookup-insert_self, ok,
}
use walastack_rs.Capabilities.Registry
use walastack_rs.Router.{Text, Matchit, Router, route, dispatch, translate_path, translate}
use walastack_rs.Kernel.Context.{RuntimeContext, resource}
use walastack_rs.Kernel.Context
use walastack_rs.Kernel.Resources
use walastack_rs.Kernel.Runtime.{new_builder}
use walastack_rs.Http.{Response}
use walastack_rs.Http.Extract.{Request}
use walastack_rs.Auth.{text, Claims, new_secrets, with_secret, secrets_provider, issue}
use walastack_rs.Auth.Examples.{
  simple, simple-IsStandard, types, context, request, codec, request_encoded, request_authorized,
}
use walastack_rs.OpenApi.Routes.{RouteSpec, new_route, get}
use walastack_rs.OpenApi.Examples.{texts, health}
use walastack_rs.App.Handlers.{Handler}
use walastack_rs.App.{App, dispatch_request}
use walastack_rs.App.Documents.{
  DocumentTypes, FindsLiterals, openapi_serve_at, openapi_handler, document_response,
  dispatch_request-openapi_serve_at,
}
use walastack_rs.App.Protection.{
  protected, Protects, dispatch_request-protected, dispatch_request-issue,
}

-- A pattern that is there already conflicts.
abbrev literal_matchit : Matchit Handler
literal_matchit = record {
  Tree = List (Text × Handler);
  default_tree = [];
  insert_pattern = λ pattern handler tree.
      if is_some (lookup pattern tree) then none else some (insert pattern handler tree);
  find_path = λ tree path. option_map (λ handler. (handler, [])) (lookup path tree);
}

literal_matchit-FindsLiterals : FindsLiterals literal_matchit
literal_matchit-FindsLiterals pattern handler tree tree' absolute plain plain' added =
    ground (arith, added, lookup-insert_self pattern handler tree)

-- The code of a handler, which answers with the subject.
abbrev greet : Claims → Response
greet claims = record { status = 200; headers = []; body = claims.sub }

abbrev home : Text
home = b'/' ∷ []

abbrev greeting : Handler
greeting = protected types simple 3700 greet

-- The route of a GET at `/`.
abbrev greeting_router : Router literal_matchit
greeting_router = ("GET", (home, greeting) ∷ []) ∷ []

abbrev anonymous : Request
anonymous = record { parts = record request { headers = [] }; body = ok "" }

abbrev authorized : Request
authorized = record { parts = request; body = ok "" }

dispatch_request-protected_example :
    Protects types simple 3700 literal_matchit String greet greeting_router context authorized []
unfolding lookup codes_eq
dispatch_request-protected_example =
    dispatch_request-protected types simple 3700 literal_matchit String greet greeting_router
      context authorized [] (unfold dispatch in refl)

dispatch_request-issue_example :
    dispatch_request literal_matchit String greeting_router context authorized
    ≡ greet (issue 100 codec "ann" [])
unfolding lookup codes_eq insert new_builder Registry.new_registry secrets_provider with_secret
    new_secrets
dispatch_request-issue_example =
    dispatch_request-issue types simple 3700 literal_matchit String 2 1 simple-IsStandard
      new_builder false (text "s3cret") greet greeting_router context authorized [] 100 "ann" []
      (23700 ∷ 20100 ∷ []) refl refl (refl, refl) (unfold dispatch in refl) request_encoded
      request_authorized (omega arith) (omega arith)

abbrev documents : DocumentTypes
documents = record {
  json = texts;
  to_vec = ok;
  status_text = λ _. "s";
  show_path = λ _. "p";
  config_type = 11;
  config_at = λ _. record {
    title = "t";
    version = "1";
    description = none;
    servers = [];
    contact = none;
    license = none;
  };
}

abbrev health_route : RouteSpec String
health_route = new_route get health

-- An application with the route of a GET at `/h` in its document, and then with the document at `/`.
abbrev health_app : App literal_matchit String
health_app = record {
  router = ("GET", (health, greeting) ∷ []) ∷ [];
  plugins = [];
  openapi_routes = health_route ∷ [];
}

abbrev served_app : App literal_matchit String
served_app = record {
  router =
      (
        "GET",
        (health, greeting)
            ∷ (home, openapi_handler literal_matchit documents (health_route ∷ []))
            ∷ [],
      )
      ∷ [];
  plugins = [];
  openapi_routes = [];
}

abbrev config_context : RuntimeContext
config_context = record Context.empty {
  resources = record { entries = (11, record { type_id = 11; value = 2 }) ∷ [] };
}

dispatch_request-openapi_serve_at_example :
    (dispatch_request literal_matchit String served_app.router config_context anonymous
      ≡ document_response literal_matchit documents (documents.config_at 2) (health_route ∷ []))
    × (served_app.openapi_routes ≡ [])
unfolding insert lookup codes_eq openapi_serve_at route translate_path translate resource
    Resources.get
dispatch_request-openapi_serve_at_example =
    dispatch_request-openapi_serve_at literal_matchit documents literal_matchit-FindsLiterals home
      health_app served_app anonymous config_context refl (refl, tt) (refl, tt) (refl, tt) refl refl
      refl
