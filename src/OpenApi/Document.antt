-- ===== src/OpenApi/Document.antt =====
-- crates/walastack-openapi/src/lib.rs: `render_document`, `render_operation` and the plugin.
use walastack_rs.Base.{
  ℕ, String, ◌≡◌, refl, ap, ◌∙◌, Bool, true, false, ◌&&◌, Option, none, some, List, [], ◌∷◌, ◌++◌,
  map, if◌then◌else◌, ◌==◌, nat_keys, string_keys, codes_keys, and_then, option_map, unwrap_or,
  or_else, lookup, insert, lookup-insert_nested, lookup-nil,
}
use walastack_rs.Json.{SerdeJson}
use walastack_rs.Router.{Text}
use walastack_rs.Kernel.Plugins.{Plugin}
use walastack_rs.Kernel.Resources.{insert_arc}
use walastack_rs.OpenApi.Schema.{Schema, schema_value, entry_of, entry_of_all}
use walastack_rs.OpenApi.Routes.{
  ServerSpec, ContactSpec, LicenseSpec, OpenApiConfig, as_str, ParameterLocation, in_path, in_query,
  in_header, in_cookie, ParameterSpec, RequestBodySpec, ResponseSpec, RouteSpec,
}
use walastack_rs.OpenApi.Paths.{normalize_path}

unfoldable pub location_name : ParameterLocation → String
location_name in_path = "path"
location_name in_query = "query"
location_name in_header = "header"
location_name in_cookie = "cookie"

or_else_lem {ℓ κ} :
    {R : Type ℓ} {V : Type κ} (f : R → V) (o : Option R) (d : Bool) (r : R) (x : Option V)
    → or_else (option_map f o) (if d then some (f r) else x)
      ≡ or_else (option_map f (or_else o (if d then some r else none))) x
or_else_lem f (some a) d r x = refl
or_else_lem f none true r x = refl
or_else_lem f none false r x = refl

or_else-none {ℓ} : {A : Type ℓ} (o : Option A) → or_else o none ≡ o
or_else-none none = refl
or_else-none (some a) = refl

-- The library, the text of a status, and the text of a list of codes.
module _ (json : SerdeJson) (status_text : ℕ → String) (show_path : Text → String) where
  open json use {Value, boolean, text, object}

  -- What `Serialize` gives for the content of a body or a response.
  abbrev pub content_value : List (String × Schema Value) → Value
  content_value content =
      object (map (λ e. (e.0, object (("schema", schema_value json e.1) ∷ []))) content)

  -- An empty content is skipped.
  abbrev pub content_entry : List (String × Schema Value) → List (String × Value)
  content_entry [] = []
  content_entry (e ∷ content) = ("content", content_value (e ∷ content)) ∷ []

  unfoldable pub parameter_value : ParameterSpec Value → Value
  unfolding location_name
  parameter_value p = object (
      (("name", text p.name)
        ∷ ("in", text (location_name p.location))
        ∷ ("required", boolean p.required)
        ∷ [])
      ++ entry_of "description" text p.description
      ++ ("schema", schema_value json p.schema) ∷ [])

  unfoldable pub body_value : RequestBodySpec Value → Value
  body_value b = object (
      entry_of "description" text b.description
      ++ ("required", boolean b.required) ∷ ("content", content_value b.content) ∷ [])

  unfoldable pub response_value : ResponseSpec Value → Value
  response_value r = object (("description", text r.description) ∷ content_entry r.content)

  -- The responses by the text of the status, or one by default.
  unfoldable pub responses_entries : List (ℕ × ResponseSpec Value) → List (String × Value)
  unfolding response_value
  responses_entries [] =
      ("default", response_value (record { description = "Default response"; content = [] })) ∷ []
  responses_entries (r ∷ rs) = map (λ e. (status_text e.0, response_value e.1)) (r ∷ rs)

  unfoldable pub render_operation : RouteSpec Value → Value
  unfolding parameter_value body_value responses_entries
  render_operation route = object (
      entry_of "summary" text route.summary
      ++ entry_of "description" text route.description
      ++ entry_of_all "tags" json.array (map text route.tags)
      ++ entry_of_all "parameters" json.array (map parameter_value route.parameters)
      ++ entry_of "requestBody" body_value route.request_body
      ++ ("responses", object (responses_entries route.responses)) ∷ [])

  -- The operations by path and method.
  abbrev pub Paths : Type 0
  Paths = List (Text × List (String × Value))

  -- The body of the loop over the routes, and the loop.
  unfoldable pub add_operation : RouteSpec Value → Paths → Paths
  unfolding normalize_path render_operation
  add_operation route paths =
      let normalized = normalize_path route.path in
      let path_item = unwrap_or (lookup normalized paths) [] in
      insert normalized (insert (as_str route.method) (render_operation route) path_item) paths

  unfoldable pub collect_paths : List (RouteSpec Value) → Paths → Paths
  unfolding add_operation
  collect_paths [] paths = paths
  collect_paths (route ∷ routes) paths = collect_paths routes (add_operation route paths)

  unfoldable pub server_value : ServerSpec → Value
  server_value s = object (("url", text s.url) ∷ entry_of "description" text s.description)

  unfoldable pub contact_value : ContactSpec → Value
  contact_value c =
      object
        (entry_of "name" text c.name ++ entry_of "url" text c.url ++ entry_of "email" text c.email)

  unfoldable pub license_value : LicenseSpec → Value
  license_value l = object (("name", text l.name) ∷ entry_of "url" text l.url)

  unfoldable pub render_document : OpenApiConfig → List (RouteSpec Value) → Value
  unfolding collect_paths server_value contact_value license_value
  render_document config routes = object (
      ("openapi", text "3.0.3")
        ∷ (
          "info",
          object (
              ("title", text config.title)
                ∷ ("version", text config.version)
                ∷ entry_of "description" text config.description
              ++ entry_of "contact" contact_value config.contact
              ++ entry_of "license" license_value config.license),
        )
        ∷ entry_of_all "servers" json.array (map server_value config.servers)
      ++ (
        "paths",
        object (map (λ item. (show_path item.0, object item.1)) (collect_paths routes [])),
      )
        ∷ [])

  -- What the collected paths have for a path and a method, and the last route of a list that is
  -- declared for them.
  abbrev pub operation : Text → (method : String) → Paths → Option Value
  operation path method paths = and_then (lookup path paths) (lookup method)

  abbrev pub declares : Text → (method : String) → RouteSpec Value → Bool
  declares path method route =
      (normalize_path route.path == path) && (as_str route.method == method)

  abbrev pub last_declared :
      Text → (method : String) → List (RouteSpec Value) → Option (RouteSpec Value)
  last_declared path method [] = none
  last_declared path method (route ∷ routes) =
      or_else (last_declared path method routes)
        (if declares path method route then some route else none)

  operation-add_operation :
      (path : Text) (method : String) (route : RouteSpec Value) (paths : Paths)
      → operation path method (add_operation route paths) ≡ (
          if declares path method route
          then some (render_operation route)
          else operation path method paths)
  unfolding add_operation
  operation-add_operation path method route paths =
      lookup-insert_nested (normalize_path route.path) path (as_str route.method) method
        (render_operation route) paths

  operation-collect_paths_from :
      (path : Text) (method : String) (routes : List (RouteSpec Value)) (paths : Paths)
      → operation path method (collect_paths routes paths)
        ≡ or_else
            (option_map render_operation (last_declared path method routes))
            (operation path method paths)
  unfolding collect_paths
  operation-collect_paths_from path method [] paths = refl
  operation-collect_paths_from path method (route ∷ routes) paths =
      operation-collect_paths_from path method routes (add_operation route paths)
      ∙ ap (or_else (option_map render_operation (last_declared path method routes)))
          (operation-add_operation path method route paths)
      ∙ or_else_lem render_operation (last_declared path method routes) (declares path method route)
          route (operation path method paths)

  -- In the document a path and a method have the operation of the last route that is declared with
  -- that method and a path that is written so, and none if there is no such route.
  pub operation-collect_paths :
      (path : Text) (method : String) (routes : List (RouteSpec Value))
      → operation path method (collect_paths routes [])
        ≡ option_map render_operation (last_declared path method routes)
  operation-collect_paths path method routes =
      operation-collect_paths_from path method routes []
      ∙ ap
          (λ (o : Option (List (String × Value))).
            or_else (option_map render_operation (last_declared path method routes))
              (and_then o (lookup method)))
          (lookup-nil path)
      ∙ or_else-none (option_map render_operation (last_declared path method routes))

-- `OpenApiPlugin`, with the type of its configuration and the handle that is made for it.
unfoldable pub openapi_plugin : (config_type config_arc : ℕ) → Plugin
unfolding insert_arc
openapi_plugin config_type config_arc = record {
  name = "openapi";
  register_resources = λ r. (insert_arc config_type config_arc r).1;
  register_capabilities = λ c. c;
  register_services = λ p. p;
  required_capabilities = [];
}
