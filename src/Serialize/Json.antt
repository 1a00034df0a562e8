-- ===== src/Serialize/Json.antt =====
-- botocore/serialize.py: `JSONSerializer`. What is put under a key is the value of `serialize`; without a
-- key, the body is that of the structure itself. `convert_timestamp` is _convert_timestamp_to_str, for the
-- format unixtimestamp a number, `base64` that of the standard library and `dumps` json.dumps. As for
-- the query serializers, another value than the shape's kind raises a TypeError.
pub mod Total
use jcsapitest.Prelude.{
  String, Option, none, some, List, [], ◌∷◌, Dict, item, type_error, Result, ok, raise, ◌>>=◌,
}
use jcsapitest.Value.{Value, Items, Fields, str, dict, list, end, nil, cons, set_field}
use jcsapitest.Text.{concat}
use jcsapitest.Model.{TypeName, Shape, ShapeMap, members_of, member_of, value_of}
use jcsapitest.Serialize.Query.{no_iteration}
use jcsapitest.Serialize.Request.{OperationModel, method_of}

pub record JsonRequest : Type 0 where
  pub url_path : String
  pub query_string : String
  pub method : String
  pub headers : Dict String
  pub body : String

module _ (shapes : ShapeMap) (convert_timestamp : Value → Result Value)
    (base64 : String → String) where
  -- _get_base64
  unfoldable pub encoded : Value → Result Value
  encoded (Value.str t) = ok (str (base64 t))
  encoded (Value.bytes t) = ok (str (base64 t))
  encoded v = raise (type_error "must be convertible to a buffer")

  unfoldable pub scalar : Value → Shape → Result Value
  unfolding encoded
  scalar v s = elim s.type_name [
    | TypeName.structure ↦ raise no_iteration
    | TypeName.list ↦ raise no_iteration
    | TypeName.map ↦ raise no_iteration
    | TypeName.blob ↦ encoded v
    | TypeName.timestamp ↦ convert_timestamp v
    | other_type ↦ ok v
  ]

  -- _serialize
  unfoldable mutual
    unfolding scalar members_of member_of value_of item set_field

    pub serialize : Value → Shape → Result Value
    serialize (Value.dict fs) s = elim s.type_name [
      | TypeName.structure ↦ members_of shapes s >>= λ members.
          serialize_members fs members end >>= λ out. ok (dict out)
      | TypeName.map ↦ serialize_entries fs (value_of shapes s) end >>= λ out. ok (dict out)
      | other_type ↦ scalar (Value.dict fs) s
    ]
    serialize (Value.list vs) s = elim s.type_name [
      | TypeName.list ↦ serialize_items vs (member_of shapes s) >>= λ out. ok (list out)
      | other_type ↦ scalar (Value.list vs) s
    ]
    serialize v s = scalar v s

    pub serialize_members : Fields → Dict Shape → Fields → Result Fields
    serialize_members Fields.end members out = ok out
    serialize_members (Fields.field k v fs) members out = item k members >>= λ member.
        serialize v member >>= λ w. serialize_members fs members (set_field k w out)

    -- The shape of the values is asked for with each value, and so is that of the items.
    pub serialize_entries : Fields → Result Shape → Fields → Result Fields
    serialize_entries Fields.end value_shape out = ok out
    serialize_entries (Fields.field k v fs) value_shape out = value_shape >>= λ s.
        serialize v s >>= λ w. serialize_entries fs value_shape (set_field k w out)

    pub serialize_items : Items → Result Shape → Result Items
    serialize_items Items.nil member = ok nil
    serialize_items (Items.cons v vs) member =
        let rest = serialize_items vs member in
        member >>= λ s. serialize v s >>= λ w. rest >>= λ ws. ok (cons w ws)

  unfoldable pub json_body : Option Shape → Value → Result Value
  unfolding serialize
  json_body none parameters = ok (dict end)
  json_body (some s) parameters = serialize parameters s

  abbrev pub json_request : OperationModel → (prefix json_version body : String) → JsonRequest
  json_request op prefix json_version body = record {
    url_path = "/";
    query_string = "";
    method = method_of op;
    headers =
        ("X-Amz-Target", concat prefix (concat "." op.name))
        ∷ ("Content-Type", concat "application/x-amz-json-" json_version)
        ∷ [];
    body = body;
  }

  -- JSONSerializer.serialize_to_request
  unfoldable pub serialize_to_request :
      (Value → String) → OperationModel → Value → Result JsonRequest
  unfolding json_body item concat
  serialize_to_request dumps op parameters = item "targetPrefix" op.metadata >>= λ prefix.
      item "jsonVersion" op.metadata >>= λ json_version.
      json_body op.input_shape parameters >>= λ body.
      ok (json_request op prefix json_version (dumps body))
