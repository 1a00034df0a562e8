-- ===== src/Parse/Xml/Shapes.antt =====
-- botocore/parsers.py: `_parse_shape` and the handlers of `BaseXMLResponseParser` and `QueryParser`. A shape
-- may contain itself and the elements of one name may stand for their own parent, so the fuel is the
-- depth of calls that the interpreter allows: behind it there is a RuntimeError. The key of a map is a
-- text; another one raises a TypeError, and so does a list of elements in place of a scalar. `float_of`,
-- `parse_timestamp` and `parse_blob` are float(), the timestamp parser and the blob parser, for a text.
pub mod Flattened
pub mod Shallow
pub mod Enough
use jcsapitest.Prelude.{
  ℕ, zero, suc, String, Bool, true, false, Option, none, some, List, [], ◌∷◌, Dict, get, has,
  str_eq, if◌then◌else◌, Exception, exception, type_error, attribute_error, Result, ok, raise,
  ◌>>=◌,
}
use jcsapitest.Value.{Value, Items, Fields, str, bool, int, other, list, dict, set_field}
use jcsapitest.Text.{int_of}
use jcsapitest.Model.{TypeName, Shape, ShapeMap, members_of, member_of, key_of, value_of}
use jcsapitest.Serialize.Names.{attribute, is_shape_flattened}
use jcsapitest.Parse.Xml.{
  Node, Found, one, many, children, text_of, text_value, node_tag, build_name_to_xml_node,
}

-- How _handle_string is defined: in QueryParser it returns node.text.
pub data Flavour : Type 0 where
  query rest_xml : Flavour

abbrev pub recursion_error : Exception
recursion_error = record {
  classes = "RuntimeError" ∷ "StandardError" ∷ "Exception" ∷ "BaseException" ∷ [];
  message = "maximum recursion depth exceeded";
}

abbrev pub parser_error : String → Exception
parser_error text = exception "ResponseParserError" text

abbrev pub unbound : String → Exception
unbound name = record {
  classes =
      "UnboundLocalError" ∷ "NameError" ∷ "StandardError" ∷ "Exception" ∷ "BaseException" ∷ [];
  message = name;
}

-- for item in node
unfoldable pub iterate : Found Node → List Node
iterate (one n) = children n
iterate (many ns) = ns

-- if shape.serialization.get('flattened') and not isinstance(node, list): node = [node]
unfoldable pub as_list : Shape → Found Node → Found Node
unfolding is_shape_flattened
as_list s (many ns) = many ns
as_list s (one n) = if is_shape_flattened s then many (n ∷ []) else one n

-- shape.serialization.get('name') or default
abbrev pub name_or : String → Shape → String
name_or default s = elim (attribute "locationName" s) [
  | none ↦ default
  | some name ↦ if str_eq name "" then default else name
]

abbrev name_of : String → Shape → String
name_of default s = elim (attribute "locationName" s) [ none ↦ default | some name ↦ name ]

-- _member_key_name; a list has its member's shape.
unfoldable pub member_key_name : ShapeMap → Shape → String → Result String
unfolding get is_shape_flattened member_of
member_key_name shapes s default = elim s.type_name [
  | TypeName.list ↦
      if is_shape_flattened s
      then (member_of shapes s >>= λ member. elim (attribute "locationName" member) [
        | none ↦ ok (name_of default s)
        | some name ↦ ok name
      ])
      else ok (name_of default s)
  | other_type ↦ ok (name_of default s)
]

-- _text_content: the text of an empty element is empty.
abbrev pub text_content : Option String → String
text_content none = ""
text_content (some t) = t

module _ (float_of : String → Result Value)
    (parse_timestamp parse_blob : String → Result Value) where
  abbrev pub handle_boolean : String → Value
  handle_boolean t = if str_eq t "true" then bool true else bool false

  -- The handlers of scalars for a text. The other shapes have handlers of their own, in front of it.
  unfoldable pub handle_text : Shape → String → Result Value
  unfolding int_of
  handle_text s t = elim s.type_name [
    | TypeName.structure ↦ raise (attribute_error "tag")
    | TypeName.list ↦ raise (attribute_error "tag")
    | TypeName.map ↦ raise (attribute_error "tag")
    | TypeName.string ↦ ok (str t)
    | TypeName.integer ↦ int_of t >>= λ n. ok (int n)
    | TypeName.long ↦ int_of t >>= λ n. ok (int n)
    | TypeName.double ↦ float_of t
    | TypeName.float ↦ float_of t
    | TypeName.boolean ↦ ok (handle_boolean t)
    | TypeName.blob ↦ parse_blob t
    | TypeName.timestamp ↦ parse_timestamp t
    | TypeName.unknown name ↦ ok (str t)
  ]

  -- The handlers of scalars for an element
  unfoldable pub handle_node : Flavour → Shape → Node → Result Value
  unfolding handle_text
  handle_node rest_xml s n = elim s.type_name [
    | TypeName.unknown name ↦
        if str_eq name "character"
        then ok (str (text_content (text_of n)))
        else ok (other "Element")
    | other_type ↦ handle_text s (text_content (text_of n))
  ]
  handle_node query s n = elim s.type_name [
    | TypeName.string ↦ ok (text_value (text_of n))
    | TypeName.unknown name ↦
        if str_eq name "character" then ok (text_value (text_of n)) else ok (other "Element")
    | other_type ↦ handle_text s (text_content (text_of n))
  ]

  -- The handlers of scalars for a list of elements: only a boolean and a text of rest-xml take it.
  unfoldable pub handle_nodes : Flavour → Shape → Result Value
  handle_nodes f s = elim s.type_name [
    | TypeName.boolean ↦ ok (bool false)
    | TypeName.string ↦ elim f [
      | query ↦ raise (attribute_error "text")
      | rest_xml ↦ ok (other "list")
    ]
    | TypeName.unknown name ↦ elim f [
      | query ↦
          if str_eq name "character" then raise (attribute_error "text") else ok (other "list")
      | rest_xml ↦ ok (other "list")
    ]
    | other_type ↦ raise (type_error "argument must be a string")
  ]

  unfoldable pub handle_scalar : Flavour → Shape → Found Node → Result Value
  unfolding handle_node handle_nodes
  handle_scalar f s (one n) = handle_node f s n
  handle_scalar f s (many ns) = handle_nodes f s

-- One level of calls, where `parse` is _parse_shape.
module _ (shapes : ShapeMap) (parse : Shape → Found Node → Result Value) where
  unfoldable pub parse_items : Shape → List Node → Result Items
  parse_items member [] = ok Items.nil
  parse_items member (n ∷ ns) =
      let rest = parse_items member ns in
      parse member (one n) >>= λ v. rest >>= λ vs. ok (Items.cons v vs)

  -- _handle_list
  unfoldable pub handle_list : Shape → Found Node → Result Value
  unfolding parse_items member_of as_list iterate
  handle_list s f = member_of shapes s >>= λ member.
      parse_items member (iterate (as_list s f)) >>= λ vs. ok (list vs)

  -- The inner loop of _handle_map, with the key and the value that are bound so far
  unfoldable pub parse_pairs :
      (key_shape value_shape : Shape)
      → Option Value
      → Option Value
      → List Node
      → Result (Option Value × Option Value)
  unfolding node_tag get
  parse_pairs key_shape value_shape key_name val_name [] = ok (key_name, val_name)
  parse_pairs key_shape value_shape key_name val_name (n ∷ ns) =
      elim (str_eq (node_tag n) (name_or "key" key_shape)) [
        | true ↦
            parse key_shape (one n) >>= λ k. parse_pairs key_shape value_shape (some k) val_name ns
        | false ↦ elim (str_eq (node_tag n) (name_or "value" value_shape)) [
          | true ↦ parse value_shape (one n) >>= λ v.
              parse_pairs key_shape value_shape key_name (some v) ns
          | false ↦ raise (parser_error "Unknown tag")
        ]
      ]

  -- parsed[key_name] = val_name, for a key that is a text
  abbrev pub put_pair : Option Value → Option Value → Fields → Result Fields
  put_pair key none done = raise (unbound "val_name")
  put_pair none (some v) done = raise (unbound "key_name")
  put_pair (some (Value.str k)) (some v) done = ok (set_field k v done)
  put_pair (some k) (some v) done = raise (type_error "unhashable type")

  -- The outer loop; what one entry bound is still there for the next one.
  unfoldable pub parse_entries :
      (key_shape value_shape : Shape)
      → Option Value
      → Option Value
      → Fields
      → List Node
      → Result Fields
  unfolding parse_pairs set_field
  parse_entries key_shape value_shape key_name val_name done [] = ok done
  parse_entries key_shape value_shape key_name val_name done (n ∷ ns) =
      parse_pairs key_shape value_shape key_name val_name (children n) >>= λ bound.
      put_pair bound.0 bound.1 done >>= λ more.
      parse_entries key_shape value_shape bound.0 bound.1 more ns

  -- _handle_map
  unfoldable pub handle_map : Shape → Found Node → Result Value
  unfolding parse_entries key_of value_of as_list iterate
  handle_map s f = key_of shapes s >>= λ key_shape. value_of shapes s >>= λ value_shape.
      parse_entries key_shape value_shape none none Fields.end (iterate (as_list s f)) >>= λ fs.
      ok (dict fs)

  -- The loop of _handle_structure; a member with a location is skipped.
  unfoldable pub parse_members : Dict Shape → Dict (Found Node) → Result Fields
  unfolding has get member_key_name
  parse_members [] xml_dict = ok Fields.end
  parse_members ((name, m) ∷ members) xml_dict =
      let rest = parse_members members xml_dict in
      if has "location" m.model.traits.serialization
      then rest
      else member_key_name shapes m name >>= λ xml_name. elim (get xml_name xml_dict) [
        | none ↦ rest
        | some f ↦ parse m f >>= λ v. rest >>= λ fs. ok (Fields.field name v fs)
      ]

  -- _handle_structure
  unfoldable pub handle_structure : Shape → Found Node → Result Value
  unfolding parse_members members_of build_name_to_xml_node iterate
  handle_structure s f = members_of shapes s >>= λ members.
      parse_members members (build_name_to_xml_node (iterate f)) >>= λ fs. ok (dict fs)

module _ (shapes : ShapeMap) (float_of : String → Result Value)
    (parse_timestamp parse_blob : String → Result Value) (flavour : Flavour) where
  -- The handler that getattr finds by the name of the type
  unfoldable pub handler_of :
      (Shape → Found Node → Result Value) → TypeName → Shape → Found Node → Result Value
  unfolding handle_structure handle_list handle_map handle_scalar
  handler_of parse TypeName.structure s f = handle_structure shapes parse s f
  handler_of parse TypeName.list s f = handle_list shapes parse s f
  handler_of parse TypeName.map s f = handle_map shapes parse s f
  handler_of parse other_type s f = handle_scalar float_of parse_timestamp parse_blob flavour s f

  -- _parse_shape
  unfoldable pub parse_shape : ℕ → Shape → Found Node → Result Value
  unfolding handler_of
  parse_shape zero s f = raise recursion_error
  parse_shape (suc depth) s f = handler_of (parse_shape depth) s.type_name s f
