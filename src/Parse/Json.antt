-- ===== src/Parse/Json.antt =====
-- botocore/parsers.py: `BaseJSONParser` and `JSONParser`. `loads` decodes the body and reads it as JSON;
-- `parse_timestamp` and `parse_blob` are the timestamp parser and the blob parser. For the shape of a list, the
-- characters of a text and the keys of a dictionary are iterated, as Python does; since a character is the
-- first of its own characters, there is fuel for it, the depth of calls that the interpreter allows.
pub mod Members
pub mod Errors
pub mod Samples
use jcsapitest.Prelude.{
  ℕ, zero, suc, String, Bool, true, false, ◌||◌, Option, none, some, List, [], ◌∷◌, Dict, get,
  if◌then◌else◌, ◌==◌, type_error, attribute_error, Result, ok, raise, ◌>>=◌,
}
use Prim.Native.Char.{code}
use jcsapitest.Value.{
  Value, Items, Fields, null, str, dict, list, nil, cons, field, end, find_field, has_field,
  set_field, get_or, value_eq,
}
use jcsapitest.Model.{TypeName, Shape, ShapeMap, members_of, member_of, key_of, value_of}
use jcsapitest.Serialize.Names.{attribute}
use jcsapitest.Parse.Texts.{characters, parse_texts}
use jcsapitest.Parse.Xml.Shapes.{recursion_error}
use jcsapitest.Parse.Response.{Response, Parser, header, set_item}

-- A value with its parser for any shape, which the loop over the members applies
abbrev pub Entry : Type 0
Entry = Value × (Shape → Result Value)

-- shape.serialization.get('name', member_name)
abbrev pub json_name : String → Shape → String
json_name member_name s = elim (attribute "locationName" s) [
  | none ↦ member_name
  | some name ↦ name
]

-- if raw_value is not None
abbrev pub present : Option Entry → Option (Shape → Result Value)
present none = none
present (some (Value.null, p)) = none
present (some (v, p)) = some p

-- The loop of _handle_structure
unfoldable pub parse_members : Dict Shape → Dict Entry → Result Fields
unfolding get
parse_members [] entries = ok end
parse_members ((name, m) ∷ members) entries =
    let rest = parse_members members entries in
    elim (present (get (json_name name m) entries)) [
      | none ↦ rest
      | some p ↦ p m >>= λ v. rest >>= λ fs. ok (field name v fs)
    ]

-- parsed[actual_key] = actual_value, for a key that is a text
abbrev pub put_key : Value → Value → Fields → Result Fields
put_key (Value.str k) v fs = ok (set_field k v fs)
put_key k v fs = raise (type_error "unhashable type")

-- for item in node, for a dictionary
unfoldable pub keys_of : Fields → List String
keys_of Fields.end = []
keys_of (Fields.field k v fs) = k ∷ keys_of fs

module _ (shapes : ShapeMap) (parse_timestamp parse_blob : Value → Result Value) (depth : ℕ) where
  -- The handlers of a value that is no list or dictionary of the shape's kind
  unfoldable pub handle_scalar : Value → Shape → Result Value
  handle_scalar v s = elim s.type_name [
    | TypeName.structure ↦ raise (attribute_error "get")
    | TypeName.list ↦ raise (type_error "object is not iterable")
    | TypeName.map ↦ raise (attribute_error "items")
    | TypeName.blob ↦ parse_blob v
    | TypeName.timestamp ↦ parse_timestamp v
    | other_type ↦ ok v
  ]

  -- _parse_shape for a character or a key
  unfoldable pub parse_text : ℕ → Shape → String → Result Value
  unfolding handle_scalar member_of characters parse_texts
  parse_text zero s t = raise recursion_error
  parse_text (suc fuel) s t = elim s.type_name [
    | TypeName.list ↦ member_of shapes s >>= λ member.
        parse_texts (parse_text fuel member) (characters t) >>= λ out. ok (list out)
    | other_type ↦ handle_scalar (str t) s
  ]

  unfoldable pub parse_texts_of : Shape → List String → Result Value
  unfolding parse_text parse_texts member_of
  parse_texts_of s ts = member_of shapes s >>= λ member.
      parse_texts (parse_text depth member) ts >>= λ out. ok (list out)

  -- _parse_shape
  unfoldable mutual
    unfolding parse_texts_of characters handle_scalar parse_members members_of member_of key_of
        value_of set_field keys_of parse_text

    pub parse_shape : Value → Shape → Result Value
    parse_shape (Value.dict fs) s = elim s.type_name [
      | TypeName.structure ↦ members_of shapes s >>= λ members.
          parse_members members (entries_of fs) >>= λ out. ok (dict out)
      | TypeName.map ↦ key_of shapes s >>= λ key_shape. value_of shapes s >>= λ value_shape.
          parse_map fs key_shape value_shape end >>= λ out. ok (dict out)
      | TypeName.list ↦ parse_texts_of s (keys_of fs)
      | other_type ↦ handle_scalar (dict fs) s
    ]
    parse_shape (Value.list vs) s = elim s.type_name [
      | TypeName.list ↦
          member_of shapes s >>= λ member. parse_items vs member >>= λ out. ok (list out)
      | other_type ↦ handle_scalar (list vs) s
    ]
    parse_shape (Value.str t) s = elim s.type_name [
      | TypeName.list ↦ parse_texts_of s (characters t)
      | other_type ↦ handle_scalar (str t) s
    ]
    parse_shape v s = handle_scalar v s

    pub entries_of : Fields → Dict Entry
    entries_of Fields.end = []
    entries_of (Fields.field k v fs) = (k, (v, λ s. parse_shape v s)) ∷ entries_of fs

    pub parse_items : Items → Shape → Result Items
    parse_items Items.nil member = ok nil
    parse_items (Items.cons v vs) member =
        let rest = parse_items vs member in
        parse_shape v member >>= λ w. rest >>= λ ws. ok (cons w ws)

    pub parse_map : Fields → Shape → Shape → Fields → Result Fields
    parse_map Fields.end key_shape value_shape out = ok out
    parse_map (Fields.field k v fs) key_shape value_shape out =
        parse_text depth key_shape k >>= λ actual_key. parse_shape v value_shape >>= λ actual_value.
        put_key actual_key actual_value out >>= λ more. parse_map fs key_shape value_shape more

-- What stands behind the last '#'
unfoldable pub after_hash : String → Option String
after_hash String.[] = none
after_hash (String.◌∷◌ c s) = elim (after_hash s) [
  | some rest ↦ some rest
  | none ↦ if code c == b'#' then some s else none
]

-- if '#' in code: code = code.rsplit('#', 1)[1]
unfoldable pub short_code : String → String
unfolding after_hash
short_code t = elim (after_hash t) [ none ↦ t | some rest ↦ rest ]

-- '#' in vs
unfoldable pub has_hash : Items → Bool
unfolding value_eq
has_hash Items.nil = false
has_hash (Items.cons v vs) = value_eq v (str "#") || has_hash vs

abbrev pub set_code : Bool → Value → Fields → Result Fields
set_code true code error = raise (attribute_error "rsplit")
set_code false code error = ok (set_field "Code" code error)

-- The code of an error, if there is one. What is no text has a '#' as an element or as a key.
unfoldable pub code_fields : Value → Fields → Result Fields
unfolding short_code set_field has_hash has_field
code_fields Value.null error = ok error
code_fields (Value.str t) error = ok (set_field "Code" (str (short_code t)) error)
code_fields (Value.list vs) error = set_code (has_hash vs) (list vs) error
code_fields (Value.dict fs) error = set_code (has_field "#" fs) (dict fs) error
code_fields code error = raise (type_error "argument is not iterable")

-- parsed.setdefault('ResponseMetadata', {})['RequestId'] = id
unfoldable pub set_request_id : String → Value → Result Value
unfolding find_field set_field set_item
set_request_id id (Value.dict fs) = elim (find_field "ResponseMetadata" fs) [
  | none ↦ ok (dict (set_field "ResponseMetadata" (dict (field "RequestId" (str id) end)) fs))
  | some metadata ↦ set_item "RequestId" (str id) metadata >>= λ filled.
      ok (dict (set_field "ResponseMetadata" filled fs))
]
set_request_id id v = raise (attribute_error "setdefault")

-- JSONParser._inject_response_metadata
unfoldable pub inject_response_metadata : Value → Dict String → Result Value
unfolding header set_request_id
inject_response_metadata parsed headers = elim (header "x-amzn-requestid" headers) [
  | none ↦ ok parsed
  | some id ↦ set_request_id id parsed
]

-- body.get('message', body.get('Message'))
unfoldable pub message_of : Value → Value → Result Value
unfolding get_or
message_of default body = get_or "Message" default body >>= λ other. get_or "message" other body

module _ (loads : String → Result Value) (shapes : ShapeMap)
    (parse_timestamp parse_blob : Value → Result Value) (depth : ℕ) where
  -- JSONParser._do_parse
  unfoldable pub do_parse : Response → Option Shape → Result Value
  unfolding parse_shape inject_response_metadata
  do_parse r none = inject_response_metadata (dict end) r.headers
  do_parse r (some s) = loads r.body >>= λ original_parsed.
      parse_shape shapes parse_timestamp parse_blob depth original_parsed s >>= λ parsed.
      inject_response_metadata parsed r.headers

  -- JSONParser._do_error_parse
  unfoldable pub do_error_parse : Response → Option Shape → Result Value
  unfolding message_of get_or inject_response_metadata code_fields
  do_error_parse r s = loads r.body >>= λ body. message_of null body >>= λ message.
      get_or "__type" null body >>= λ code.
      code_fields code (field "Message" message end) >>= λ error.
      inject_response_metadata
        (dict (field "Error" (dict error) (field "ResponseMetadata" (dict end) end))) r.headers

  unfoldable pub json_parser : Parser
  unfolding do_parse do_error_parse
  json_parser = record { do_parse = do_parse; do_error_parse = do_error_parse }
