-- ===== src/Parse/Query.antt =====
-- botocore/parsers.py: `QueryParser` and `EC2QueryParser`. `feed` is the XML parser of the standard
-- library: it raises a ParseError for what is not XML.
pub mod Errors
pub mod Samples
use jcsapitest.Prelude.{
  ℕ, String, Option, none, some, [], ◌∷◌, Dict, get, item, if◌then◌else◌, attribute_error,
  key_error, isinstance, Result, ok, raise, ◌>>=◌,
}
use jcsapitest.Value.{Value, Fields, dict, field, end, find_field, set_field}
use jcsapitest.Model.{Shape, ShapeMap}
use jcsapitest.Serialize.Names.{attribute}
use jcsapitest.Parse.Response.{Response, Parser, set_item, remove_field, update_with}
use jcsapitest.Parse.Xml.{
  Node, Found, one, many, children, text_of, text_value, build_name_to_xml_node, replaced_root,
}
use jcsapitest.Parse.Xml.Shapes.{query, iterate, parse_shape, parser_error}

-- _parse_xml_string_to_dom
unfoldable pub parse_xml_string_to_dom : (String → Result Node) → String → Result Node
unfolding isinstance
parse_xml_string_to_dom feed text = elim (feed text) [
  | ok root ↦ ok root
  | raise e ↦
      if isinstance e "ParseError" then raise (parser_error "Unable to parse response") else raise e
]

-- node.text
abbrev pub found_text : Found Node → Result Value
found_text (one n) = ok (text_value (text_of n))
found_text (many ns) = raise (attribute_error "text")

unfoldable pub sub_texts : Dict (Found Node) → Result Fields
sub_texts [] = ok end
sub_texts ((k, f) ∷ d) =
    let rest = sub_texts d in found_text f >>= λ v. rest >>= λ fs. ok (field k v fs)

-- QueryParser._inject_response_metadata
unfoldable pub inject_response_metadata : Node → Value → Result Value
unfolding build_name_to_xml_node get iterate sub_texts set_item
inject_response_metadata root parsed =
    elim (get "ResponseMetadata" (build_name_to_xml_node (children root))) [
      | none ↦ ok parsed
      | some f ↦ sub_texts (build_name_to_xml_node (iterate f)) >>= λ fs.
          set_item "ResponseMetadata" (dict fs) parsed
    ]

-- EC2QueryParser._inject_response_metadata
unfoldable pub inject_request_id : Node → Value → Result Value
unfolding build_name_to_xml_node get set_item
inject_request_id root parsed = elim (get "requestId" (build_name_to_xml_node (children root))) [
  | none ↦ ok parsed
  | some f ↦
      found_text f >>= λ id. set_item "ResponseMetadata" (dict (field "RequestId" id end)) parsed
]

-- _find_result_wrapped_shape, where the shape names a wrapper
unfoldable pub start_node : Shape → Node → Result (Found Node)
unfolding get item build_name_to_xml_node
start_node s root = elim (attribute "resultWrapper" s) [
  | none ↦ ok (one root)
  | some name ↦ item name (build_name_to_xml_node (children root))
]

-- {"Errors": {"Error": ...}} becomes {"Error": ...}.
unfoldable pub lift_errors : Fields → Result Fields
unfolding find_field remove_field update_with
lift_errors fs = elim (find_field "Errors" fs) [
  | none ↦ ok fs
  | some errors ↦ update_with errors (remove_field "Errors" fs)
]

-- {"RequestId": id} becomes {"ResponseMetadata": {"RequestId": id}}.
unfoldable pub move_request_id : Fields → Fields
unfolding find_field remove_field set_field
move_request_id fs = elim (find_field "RequestId" fs) [
  | none ↦ fs
  | some id ↦
      set_field "ResponseMetadata" (dict (field "RequestId" id end)) (remove_field "RequestId" fs)
]

-- original['ResponseMetadata'] = {'RequestId': original.pop('RequestID')}
unfoldable pub require_request_id : Fields → Result Fields
unfolding find_field remove_field set_field
require_request_id fs = elim (find_field "RequestID" fs) [
  | none ↦ raise (key_error "RequestID")
  | some id ↦
      ok (
        set_field "ResponseMetadata" (dict (field "RequestId" id end))
          (remove_field "RequestID" fs))
]

module _ (feed : String → Result Node) where
  -- QueryParser._do_error_parse
  unfoldable pub query_error_fields : String → Result Fields
  unfolding parse_xml_string_to_dom replaced_root lift_errors move_request_id
  query_error_fields body = parse_xml_string_to_dom feed body >>= λ root.
      replaced_root root >>= λ parsed. lift_errors parsed >>= λ lifted. ok (move_request_id lifted)

  -- EC2QueryParser._do_error_parse
  unfoldable pub ec2_error_fields : String → Result Fields
  unfolding query_error_fields require_request_id
  ec2_error_fields body = query_error_fields body >>= require_request_id

  module _ (shapes : ShapeMap) (float_of : String → Result Value)
      (parse_timestamp parse_blob : String → Result Value) (depth : ℕ) where
    -- QueryParser._do_parse, with the method that injects the metadata
    unfoldable pub do_parse : (Node → Value → Result Value) → Response → Option Shape → Result Value
    unfolding parse_xml_string_to_dom start_node parse_shape
    do_parse inject r none = parse_xml_string_to_dom feed r.body >>= λ root. inject root (dict end)
    do_parse inject r (some s) = parse_xml_string_to_dom feed r.body >>= λ root.
        start_node s root >>= λ start.
        parse_shape shapes float_of parse_timestamp parse_blob query depth s start >>= λ parsed.
        inject root parsed

    unfoldable pub query_parser : Parser
    unfolding do_parse inject_response_metadata query_error_fields
    query_parser = record {
      do_parse = do_parse inject_response_metadata;
      do_error_parse = λ r s. query_error_fields r.body >>= λ fs. ok (dict fs);
    }

    unfoldable pub ec2_query_parser : Parser
    unfolding do_parse inject_request_id ec2_error_fields
    ec2_query_parser = record {
      do_parse = do_parse inject_request_id;
      do_error_parse = λ r s. ec2_error_fields r.body >>= λ fs. ok (dict fs);
    }
