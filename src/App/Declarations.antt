-- ===== src/App/Declarations.antt =====
-- crates/walastack-app/src/lib.rs: a declared route in the router and in the document.
use walastack_rs.Base.{
  String, ◌≡◌, refl, sym, ap, ◌∙◌, true, none, some, List, [], ◌∷◌, ◌++◌, if◌then◌else◌, ==_refl,
  nat_keys, string_keys, codes_keys, All, option_map, unwrap_or, or_else, option_map-some, lookup,
  insert, lookup-insert_self,
}
use walastack_rs.Router.{Text, Matchit, Router, translate_path, route}
use walastack_rs.Router.Translation.{Segment, IsProper, in_source, path_of}
use walastack_rs.OpenApi.Routes.{RouteSpec, as_str}
use walastack_rs.OpenApi.Paths.{normalize_path}
use walastack_rs.OpenApi.Agreement.{IsWhole, normalize_path-translate_path}
use walastack_rs.OpenApi.Document.{
  collect_paths, operation, operation-collect_paths, render_operation, declares, last_declared,
}
use walastack_rs.App.Handlers.{Handler}
use walastack_rs.App.{App, add_route, openapi_route, method_from_openapi}
use walastack_rs.App.Documents.{DocumentTypes}

module _ (matchit : Matchit Handler) (types : DocumentTypes) where
  open types use {json, to_vec, status_text, show_path, config_type, config_at}

  declares_self :
      (spec : RouteSpec json.Value)
      → declares json status_text show_path (normalize_path spec.path) (as_str spec.method) spec
        ≡ true
  declares_self spec = rw (==_refl (normalize_path spec.path), ==_refl (as_str spec.method)) refl

  last_declared-append :
      (path : Text) (method : String) (routes : List (RouteSpec json.Value))
      (route : RouteSpec json.Value)
      → declares json status_text show_path path method route ≡ true
      → last_declared json status_text show_path path method (routes ++ route ∷ []) ≡ some route
  last_declared-append path method [] route here = rw here refl
  last_declared-append path method (r ∷ routes) route here =
      let later = last_declared-append path method routes route here in
      ap
        (λ o.
          or_else o (if declares json status_text show_path path method r then some r else none))
        later

  -- A route that is declared for the document, with parameters that take whole segments, is routed
  -- under the path and the method that the document writes for it: the router has its handler under
  -- that pattern, and the document of the routes so far has its operation there.
  pub openapi_route-operation :
      (handler : Handler) (spec : RouteSpec json.Value) (app app' : App matchit json.Value)
      (segments : List Segment)
      → All IsProper segments
      → All IsWhole segments
      → spec.path ≡ path_of in_source segments
      → openapi_route matchit json.Value handler spec app ≡ some app'
      → let method = method_from_openapi spec.method in
        let written = normalize_path spec.path in
        (tree : matchit.Tree) × (matchit.insert_pattern written handler
            (unwrap_or (lookup method app.router) matchit.default_tree)
          ≡ some tree)
        × (lookup method app'.router ≡ some tree)
        × (operation json status_text show_path written
              (as_str spec.method)
              (collect_paths json status_text show_path app'.openapi_routes [])
            ≡ some (render_operation json status_text show_path spec))
  unfolding openapi_route add_route route
  openapi_route-operation handler spec app app' segments proper whole from declared =
      let method = method_from_openapi spec.method in
      let declared_app = record app { openapi_routes = app.openapi_routes ++ spec ∷ [] } in
      let (router, added, made) =
        option_map-some (λ (router : Router matchit). record declared_app { router = router })
          (route matchit method spec.path handler app.router) app' declared in
      let (tree, inserted, here) =
        option_map-some (λ tree. insert method tree app.router)
          (matchit.insert_pattern (translate_path spec.path) handler
            (unwrap_or (lookup method app.router) matchit.default_tree))
          router added in
      let same : translate_path spec.path ≡ normalize_path spec.path =
        ap translate_path from
        ∙ sym (normalize_path-translate_path segments proper whole)
        ∙ ap normalize_path (sym from) in
      (
        tree,
        ap
              (λ pattern.
                matchit.insert_pattern pattern handler
                  (unwrap_or (lookup method app.router) matchit.default_tree))
              (sym same)
            ∙ inserted,
        ap (λ (a : App matchit json.Value). lookup method a.router) made
            ∙ ap (lookup method) here
            ∙ lookup-insert_self method tree app.router,
        ap
              (λ (a : App matchit json.Value).
                operation json status_text show_path (normalize_path spec.path) (as_str spec.method)
                  (collect_paths json status_text show_path a.openapi_routes []))
              made
            ∙ operation-collect_paths json status_text show_path (normalize_path spec.path)
                (as_str spec.method) (app.openapi_routes ++ spec ∷ [])
            ∙ ap (option_map (render_operation json status_text show_path)) (
                last_declared-append (normalize_path spec.path) (as_str spec.method)
                  app.openapi_routes spec (declares_self spec)),
      )
