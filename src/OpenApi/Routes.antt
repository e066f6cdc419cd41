-- ===== src/OpenApi/Routes.antt =====
-- crates/walastack-openapi/src/lib.rs: `OpenApiConfig`, `RouteSpec` and their builders.
use walastack_rs.Base.{
  ℕ, String, Bool, true, Option, none, some, List, [], ◌∷◌, ◌++◌, nat_keys, string_keys, unwrap_or,
  lookup, insert,
}
use walastack_rs.Router.{Text}
use walastack_rs.OpenApi.Schema.{Schema}

pub record ServerSpec : Type 0 where
  pub url : String
  pub description : Option String

pub record ContactSpec : Type 0 where
  pub name : Option String
  pub url : Option String
  pub email : Option String

pub record LicenseSpec : Type 0 where
  pub name : String
  pub url : Option String

pub record OpenApiConfig : Type 0 where
  pub title : String
  pub version : String
  pub description : Option String
  pub servers : List ServerSpec
  pub contact : Option ContactSpec
  pub license : Option LicenseSpec

unfoldable pub new_config : (title version : String) → OpenApiConfig
new_config title version = record {
  title = title;
  version = version;
  description = none;
  servers = [];
  contact = none;
  license = none;
}

unfoldable pub with_description : String → OpenApiConfig → OpenApiConfig
with_description description c = record c { description = some description }

unfoldable pub with_server : (url : String) → OpenApiConfig → OpenApiConfig
with_server url c = record c {
  servers = c.servers ++ (record { url = url; description = none }) ∷ [];
}

unfoldable pub with_contact : ContactSpec → OpenApiConfig → OpenApiConfig
with_contact contact c = record c { contact = some contact }

unfoldable pub with_license : LicenseSpec → OpenApiConfig → OpenApiConfig
with_license license c = record c { license = some license }

pub data Method : Type 0 where
  get post put delete patch options head trace : Method

unfoldable pub as_str : Method → String
as_str get = "get"
as_str post = "post"
as_str put = "put"
as_str delete = "delete"
as_str patch = "patch"
as_str options = "options"
as_str head = "head"
as_str trace = "trace"

pub data ParameterLocation : Type 0 where
  in_path in_query in_header in_cookie : ParameterLocation

module _ (Value : Type 0) where
  pub record ParameterSpec : Type 0 where
    pub name : String
    pub location : ParameterLocation
    pub required : Bool
    pub description : Option String
    pub schema : Schema Value

  pub record RequestBodySpec : Type 0 where
    pub description : Option String
    pub required : Bool
    pub content : List (String × Schema Value)  -- `MediaTypeSpec` is a schema

  pub record ResponseSpec : Type 0 where
    pub description : String
    pub content : List (String × Schema Value)

  pub record RouteSpec : Type 0 where
    pub method : Method
    pub path : Text
    pub summary : Option String
    pub description : Option String
    pub tags : List String
    pub parameters : List ParameterSpec
    pub request_body : Option RequestBodySpec
    pub responses : List (ℕ × ResponseSpec)  -- by the number of the status, whose text is the key

abbrev pub status_descriptions : List (ℕ × String)
status_descriptions =
    (200, "OK")
    ∷ (201, "Created")
    ∷ (202, "Accepted")
    ∷ (204, "No Content")
    ∷ (301, "Moved Permanently")
    ∷ (302, "Found")
    ∷ (400, "Bad Request")
    ∷ (401, "Unauthorized")
    ∷ (403, "Forbidden")
    ∷ (404, "Not Found")
    ∷ (409, "Conflict")
    ∷ (422, "Unprocessable Entity")
    ∷ (500, "Internal Server Error")
    ∷ []

unfoldable pub default_status_description : (status : ℕ) → String
default_status_description status = unwrap_or (lookup status status_descriptions) "Response"

module _ {Value : Type 0} where
  unfoldable pub new_route : Method → (path : Text) → RouteSpec Value
  new_route method path = record {
    method = method;
    path = path;
    summary = none;
    description = none;
    tags = [];
    parameters = [];
    request_body = none;
    responses = [];
  }

  unfoldable pub with_summary : String → RouteSpec Value → RouteSpec Value
  with_summary summary r = record r { summary = some summary }

  unfoldable pub describe : String → RouteSpec Value → RouteSpec Value
  describe description r = record r { description = some description }

  unfoldable pub tag : String → RouteSpec Value → RouteSpec Value
  tag name r = record r { tags = r.tags ++ name ∷ [] }

  unfoldable pub path_param : String → Schema Value → RouteSpec Value → RouteSpec Value
  path_param name s r = record r {
    parameters =
        r.parameters
        ++ (record {
          name = name;
          location = in_path;
          required = true;
          description = none;
          schema = s;
        })
          ∷ [];
  }

  unfoldable pub query_param :
      String → (required : Bool) → Schema Value → RouteSpec Value → RouteSpec Value
  query_param name required s r = record r {
    parameters =
        r.parameters
        ++ (record {
          name = name;
          location = in_query;
          required = required;
          description = none;
          schema = s;
        })
          ∷ [];
  }

  -- `json_body::<T>` with the schema of `T`.
  unfoldable pub json_body : Schema Value → RouteSpec Value → RouteSpec Value
  json_body s r = record r {
    request_body =
        some
          (record { description = none; required = true; content = ("application/json", s) ∷ [] });
  }

  -- `response::<T>` with the schema of `T`.
  unfoldable pub response : Schema Value → (status : ℕ) → RouteSpec Value → RouteSpec Value
  unfolding default_status_description
  response s status r = record r {
    responses =
        insert status
          (record {
            description = default_status_description status;
            content = ("application/json", s) ∷ [];
          })
          r.responses;
  }

  unfoldable pub empty_response : (status : ℕ) → String → RouteSpec Value → RouteSpec Value
  empty_response status description r = record r {
    responses = insert status (record { description = description; content = [] }) r.responses;
  }
