-- ===== src/Parse/Rest/Header.antt =====
-- botocore/parsers.py: `_parse_shape` of `RestXMLParser` for the text of a header. The handlers of structures,
-- lists and maps are written for elements; on a text they iterate its characters. The fuel is the depth of
-- calls that the interpreter allows.
use jcsapitest.Prelude.{
  ℕ, zero, suc, String, List, [], ◌∷◌, Dict, str_eq, if◌then◌else◌, attribute_error, Result, ok,
  raise, ◌>>=◌,
}
use jcsapitest.Value.{Value, Fields, list, dict}
use jcsapitest.Model.{TypeName, Shape, ShapeMap, members_of, member_of, key_of, value_of}
use jcsapitest.Serialize.Names.{is_shape_flattened}
use jcsapitest.Parse.Texts.{characters, parse_texts}
use jcsapitest.Parse.Xml.Shapes.{
  rest_xml, recursion_error, unbound, handle_text, parse_members, parse_shape,
}

-- for item in node, where a flattened shape makes one item of the text
unfoldable pub header_items : Shape → String → List String
unfolding is_shape_flattened characters
header_items s t = if is_shape_flattened s then t ∷ [] else characters t

-- The loops of _handle_map: the first character has no tag, and an empty item binds no value.
unfoldable pub header_entries : List String → Result Fields
header_entries [] = ok Fields.end
header_entries (t ∷ ts) =
    if str_eq t "" then raise (unbound "val_name") else raise (attribute_error "tag")

module _ (shapes : ShapeMap) (float_of parse_timestamp parse_blob : String → Result Value) where
  -- _handle_structure: the first character has no tag, and an empty text has no children.
  unfoldable pub header_structure : ℕ → Dict Shape → String → Result Value
  unfolding parse_members parse_shape
  header_structure depth members t =
      if str_eq t ""
      then (parse_members shapes
            (parse_shape shapes float_of parse_timestamp parse_blob rest_xml depth) members []
          >>= λ fs. ok (dict fs))
      else raise (attribute_error "tag")

  unfoldable pub handle_header : ℕ → Shape → String → Result Value
  unfolding members_of member_of key_of value_of header_structure header_items parse_texts
      header_entries handle_text
  handle_header zero s t = raise recursion_error
  handle_header (suc depth) s t = elim s.type_name [
    | TypeName.structure ↦ members_of shapes s >>= λ members. header_structure depth members t
    | TypeName.list ↦ member_of shapes s >>= λ member.
        parse_texts (handle_header depth member) (header_items s t) >>= λ vs. ok (list vs)
    | TypeName.map ↦ key_of shapes s >>= λ key_shape. value_of shapes s >>= λ value_shape.
        header_entries (header_items s t) >>= λ fs. ok (dict fs)
    | other_type ↦ handle_text float_of parse_timestamp parse_blob s t
  ]
