-- ===== src/OpenApi/Schema.antt =====
-- crates/walastack-openapi/src/lib.rs: `Schema`, its builders, `ToSchema` and what serde derives for
-- it: a field that is skipped when empty has no entry.
use walastack_rs.Base.{
  String, Bool, true, Option, none, some, List, [], ◌∷◌, ◌++◌, map, if◌then◌else◌, ◌==◌, nat_keys,
  string_keys,
}
use walastack_rs.Json.{SerdeJson}

-- `String`, `Integer`, `Number`, `Boolean`, `Object` and `Array`.
pub data SchemaType : Type 0 where
  string_type integer_type number_type boolean_type object_type array_type : SchemaType

unfoldable pub type_name : SchemaType → String
type_name string_type = "string"
type_name integer_type = "integer"
type_name number_type = "number"
type_name boolean_type = "boolean"
type_name object_type = "object"
type_name array_type = "array"

-- The fields beside those that hold schemas.
pub record Keywords (Value : Type 0) : Type 0 where
  pub ty : Option SchemaType
  pub format : Option String
  pub description : Option String
  pub required : List String
  pub nullable : Option Bool
  pub enum_values : List Value
  pub example : Option Value

-- A schema: its other fields, `properties` by name and `items`.
mutual
  pub data Schema (Value : Type 0) : Type 0 where
    schema : Keywords Value → Properties Value → Items Value → Schema Value

  pub data Properties (Value : Type 0) : Type 0 where
    no_properties : Properties Value
    property_of : String → Schema Value → Properties Value → Properties Value

  pub data Items (Value : Type 0) : Type 0 where
    no_items : Items Value
    items_of : Schema Value → Items Value

-- A schema without a type becomes an object.
abbrev pub or_object : Option SchemaType → Option SchemaType
or_object none = some object_type
or_object (some ty) = some ty

module _ {Value : Type 0} where
  abbrev pub no_keywords : Keywords Value
  no_keywords = record {
    ty = none;
    format = none;
    description = none;
    required = [];
    nullable = none;
    enum_values = [];
    example = none;
  }

  unfoldable pub default_schema : Schema Value
  default_schema = schema no_keywords no_properties no_items

  -- `string`, `integer`, `number`, `boolean` and `object`.
  unfoldable pub of_type : SchemaType → Schema Value
  of_type ty = schema (record no_keywords { ty = some ty }) no_properties no_items

  unfoldable pub array : Schema Value → Schema Value
  array items = schema (record no_keywords { ty = some array_type }) no_properties (items_of items)

  unfoldable pub with_format : String → Schema Value → Schema Value
  with_format format (schema k ps items) = schema (record k { format = some format }) ps items

  unfoldable pub with_description : String → Schema Value → Schema Value
  with_description description (schema k ps items) =
      schema (record k { description = some description }) ps items

  unfoldable pub nullable : Schema Value → Schema Value
  nullable (schema k ps items) = schema (record k { nullable = some true }) ps items

  unfoldable pub with_example : Value → Schema Value → Schema Value
  with_example example (schema k ps items) = schema (record k { example = some example }) ps items

  unfoldable pub insert_property : String → Schema Value → Properties Value → Properties Value
  insert_property name s no_properties = property_of name s no_properties
  insert_property name s (property_of other t ps) =
      let rest = insert_property name s ps in
      if other == name then property_of name s ps else property_of other t rest

  unfoldable pub property : String → Schema Value → Schema Value → Schema Value
  unfolding insert_property
  property name s (schema k ps items) =
      schema (record k { ty = or_object k.ty }) (insert_property name s ps) items

  unfoldable pub require : String → Schema Value → Schema Value
  require name (schema k ps items) =
      schema (record k { ty = or_object k.ty; required = k.required ++ name ∷ [] }) ps items

  -- The `ToSchema` of an option and of a vector, from that of the type in it.
  unfoldable pub option_schema : Schema Value → Schema Value
  unfolding nullable
  option_schema s = nullable s

  unfoldable pub vec_schema : Schema Value → Schema Value
  unfolding array
  vec_schema s = array s

-- `impl_to_schema_primitive!`, by the type's name.
pub data Primitive : Type 0 where
  string_like bool_like i32_like i64_like f32_like f64_like json_like : Primitive

unfoldable pub primitive_schema : {Value : Type 0} → Primitive → Schema Value
unfolding of_type with_format default_schema
primitive_schema string_like = of_type string_type
primitive_schema bool_like = of_type boolean_type
primitive_schema i32_like = with_format "int32" (of_type integer_type)
primitive_schema i64_like = with_format "int64" (of_type integer_type)
primitive_schema f32_like = with_format "float" (of_type number_type)
primitive_schema f64_like = with_format "double" (of_type number_type)
primitive_schema json_like = default_schema

-- An entry for a value that is there.
abbrev pub entry_of {ℓ} :
    {A : Type ℓ} {Value : Type 0} → String → (A → Value) → Option A → List (String × Value)
entry_of key f none = []
entry_of key f (some a) = (key, f a) ∷ []

-- An entry for a vector or a map that is not empty.
abbrev pub entry_of_all :
    {Value : Type 0} → String → (List Value → Value) → List Value → List (String × Value)
entry_of_all key f [] = []
entry_of_all key f (v ∷ vs) = (key, f (v ∷ vs)) ∷ []

abbrev pub entry_of_map :
    {Value : Type 0}
    → String
    → (List (String × Value) → Value)
    → List (String × Value)
    → List (String × Value)
entry_of_map key f [] = []
entry_of_map key f (v ∷ vs) = (key, f (v ∷ vs)) ∷ []

module _ (json : SerdeJson) where
  open json use {Value, boolean, text, object}

  mutual
    -- What `Serialize` gives for a schema.
    pub schema_value : Schema Value → Value
    schema_value (schema k ps items) = object (
        entry_of "type" (λ ty. text (type_name ty)) k.ty
        ++ entry_of "format" text k.format
        ++ entry_of "description" text k.description
        ++ entry_of_map "properties" object (properties_value ps)
        ++ entry_of_all "required" json.array (map text k.required)
        ++ items_value items
        ++ entry_of "nullable" boolean k.nullable
        ++ entry_of_all "enum" json.array k.enum_values
        ++ entry_of "example" (λ v. v) k.example)

    pub properties_value : Properties Value → List (String × Value)
    properties_value no_properties = []
    properties_value (property_of name s ps) = (name, schema_value s) ∷ properties_value ps

    pub items_value : Items Value → List (String × Value)
    items_value no_items = []
    items_value (items_of s) = ("items", schema_value s) ∷ []
