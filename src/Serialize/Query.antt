-- ===== src/Serialize/Query.antt =====
-- botocore/serialize.py: `QuerySerializer` and `EC2Serializer`, which put the parameters into one flat
-- dictionary. `convert_timestamp` is _convert_timestamp_to_str, which rests on datetime, and `base64` is that
-- of the standard library, of the text's UTF-8. `format` is str.format for the prefix of a map that has a brace. Behind the validator, a structure and a map are
-- dictionaries and a list is a list; another value raises a TypeError here.
pub mod Total
use jcsapitest.Prelude.{
  ℕ, suc, String, Bool, true, false, Dict, item, str_eq, if◌then◌else◌, Exception, type_error,
  Result, ok, raise, ◌>>=◌,
}
use jcsapitest.Value.{Value, Items, Fields, str, set_field, is_true}
use jcsapitest.Model.{TypeName, Shape, ShapeMap, members_of, member_of, key_of, value_of}
use jcsapitest.Serialize.Names.{
  Protocol, query, ec2, get_serialized_name, is_shape_flattened, list_prefix, map_prefix,
  member_prefix, numbered, dot_join, entry_name,
}

abbrev pub no_iteration : Exception
no_iteration = type_error "object is not iterable"

abbrev pub boolean_text : Bool → String
boolean_text true = "true"
boolean_text false = "false"

-- An empty list leaves a mark in the query protocol only.
abbrev pub empty_list : Protocol → Fields → String → Fields
empty_list query body prefix = set_field prefix (str "") body
empty_list ec2 body prefix = body

module _ (shapes : ShapeMap) (convert_timestamp : Value → Result String) (base64 : String → String)
    (format : String → ℕ → String → Result String) (p : Protocol) where
  -- _get_base64
  unfoldable pub get_base64 : Value → Result String
  get_base64 (Value.str t) = ok (base64 t)
  get_base64 (Value.bytes t) = ok (base64 t)
  get_base64 v = raise (type_error "must be convertible to a buffer")

  -- What is set under the prefix for a value that is not taken apart.
  unfoldable pub scalar_value : Value → Shape → Result Value
  unfolding get_base64 is_true
  scalar_value v s = elim s.type_name [
    | TypeName.structure ↦ raise no_iteration
    | TypeName.list ↦ raise no_iteration
    | TypeName.map ↦ raise no_iteration
    | TypeName.blob ↦ get_base64 v >>= λ t. ok (str t)
    | TypeName.timestamp ↦ convert_timestamp v >>= λ t. ok (str t)
    | TypeName.boolean ↦ ok (str (boolean_text (is_true v)))
    | other_type ↦ ok v
  ]

  unfoldable pub serialize_scalar : Fields → Value → Shape → String → Result Fields
  unfolding scalar_value set_field
  serialize_scalar body v s prefix = scalar_value v s >>= λ w. ok (set_field prefix w body)

  -- _serialize
  unfoldable mutual
    unfolding serialize_scalar get_serialized_name list_prefix numbered members_of member_of key_of
        value_of set_field item is_shape_flattened dot_join entry_name

    pub serialize : Fields → Value → Shape → String → Result Fields
    serialize body (Value.dict fs) s prefix = elim s.type_name [
      | TypeName.structure ↦
          members_of shapes s >>= λ members. serialize_members body fs members prefix
      | TypeName.map ↦ key_of shapes s >>= λ key_shape. value_of shapes s >>= λ value_shape.
          get_serialized_name p key_shape "key" >>= λ key_suffix.
          get_serialized_name p value_shape "value" >>= λ value_suffix.
          serialize_entries body fs key_shape value_shape key_suffix value_suffix
            (map_prefix s prefix) 1
      | other_type ↦ serialize_scalar body (Value.dict fs) s prefix
    ]
    serialize body (Value.list Items.nil) s prefix = elim s.type_name [
      | TypeName.list ↦ ok (empty_list p body prefix)
      | other_type ↦ serialize_scalar body (Value.list Items.nil) s prefix
    ]
    serialize body (Value.list (Items.cons v vs)) s prefix = elim s.type_name [
      | TypeName.list ↦ member_of shapes s >>= λ member.
          serialize_elements body (Items.cons v vs) member (list_prefix p s member prefix) 1
      | other_type ↦ serialize_scalar body (Value.list (Items.cons v vs)) s prefix
    ]
    serialize body v s prefix = serialize_scalar body v s prefix

    pub serialize_members : Fields → Fields → Dict Shape → String → Result Fields
    serialize_members body Fields.end members prefix = ok body
    serialize_members body (Fields.field k v fs) members prefix = item k members >>= λ member.
        get_serialized_name p member k >>= λ name.
        serialize body v member (member_prefix prefix name) >>= λ more.
        serialize_members more fs members prefix

    pub serialize_elements : Fields → Items → Shape → String → ℕ → Result Fields
    serialize_elements body Items.nil member prefix i = ok body
    serialize_elements body (Items.cons v vs) member prefix i =
        serialize body v member (numbered prefix i) >>= λ more.
        serialize_elements more vs member prefix (suc i)

    pub serialize_entries :
        Fields → Fields → Shape → Shape → String → String → String → ℕ → Result Fields
    serialize_entries body Fields.end key_shape value_shape key_suffix value_suffix prefix i =
        ok body
    serialize_entries body (Fields.field k v fs) key_shape value_shape key_suffix value_suffix
          prefix i =
        entry_name format prefix i key_suffix >>= λ key_prefix.
        entry_name format prefix i value_suffix >>= λ value_prefix.
        serialize_scalar body (str k) key_shape key_prefix >>= λ keyed.
        serialize keyed v value_shape value_prefix >>= λ more.
        serialize_entries more fs key_shape value_shape key_suffix value_suffix prefix (suc i)
