-- ===== src/Parse/Rest/Xml.antt =====
-- botocore/parsers.py: `RestXMLParser` and the table of parsers. `feed` and the parsers of scalars are those
-- of the query parsers; `time_of` is the timestamp parser for a number, and `responses` the table of
-- reasons in the HTTP library.
use jcsapitest.Prelude.{
  ℕ, String, Option, none, [], ◌∷◌, Dict, item, str_eq, if◌then◌else◌, type_error, Result, ok,
  raise, ◌>>=◌,
}
use jcsapitest.Value.Int.{pos, scale}
use jcsapitest.Value.{Value, Fields, str, int, float, bool, dict, field, end}
use jcsapitest.Prelude.{false}
use jcsapitest.Text.{show_int}
use jcsapitest.Model.{TypeName, Shape, ShapeMap}
use jcsapitest.Parse.Response.{Response, Parser, header, remove_field}
use jcsapitest.Parse.Xml.{Node, element, nil, one, replaced_root}
use jcsapitest.Parse.Xml.Shapes.{rest_xml, parse_shape}
use jcsapitest.Parse.Rest.Header.{handle_header}
use jcsapitest.Parse.Query.{
  parse_xml_string_to_dom, move_request_id, query_parser, ec2_query_parser,
}
use jcsapitest.Parse.Json as Json
use jcsapitest.Parse.Rest.{Format, populate_response_metadata, text_or}
use jcsapitest.Parse.Rest as Rest
use jcsapitest.Parse.Rest.Json as RestJson

-- The handlers of scalars for a status code
unfoldable pub handle_number : (ℕ → Result Value) → Shape → ℕ → Result Value
unfolding scale
handle_number time_of s n = elim s.type_name [
  | TypeName.structure ↦ raise (type_error "object is not iterable")
  | TypeName.list ↦ raise (type_error "object is not iterable")
  | TypeName.map ↦ raise (type_error "object is not iterable")
  | TypeName.blob ↦ raise (type_error "must be convertible to a buffer")
  | TypeName.double ↦ ok (float (scale (pos n)))
  | TypeName.float ↦ ok (float (scale (pos n)))
  | TypeName.boolean ↦ ok (bool false)
  | TypeName.timestamp ↦ time_of n
  | other_type ↦ ok (int (pos n))
]

abbrev pub tag_of : Node → String
tag_of (element tag text ns) = tag

-- _parse_error_from_http_status
unfoldable pub parse_error_from_http_status : (ℕ → Option String) → Response → Value
unfolding show_int header
parse_error_from_http_status responses r = dict (
    field "Error"
      (dict (
        field "Code" (str (show_int (pos r.status_code)))
          (field "Message" (str (text_or "" (responses r.status_code))) end)))
      (field "ResponseMetadata"
        (dict (
          field "RequestId" (str (text_or "" (header "x-amz-request-id" r.headers)))
            (field "HostId" (str (text_or "" (header "x-amz-id-2" r.headers))) end)))
        end))

-- An S3 error under its root Error, or one of the other services
unfoldable pub error_fields : String → Dict String → Fields → Value
unfolding populate_response_metadata remove_field move_request_id
error_fields tag headers parsed =
    if str_eq tag "Error"
    then dict (
        field "Error" (dict (remove_field "HostId" (remove_field "RequestId" parsed)))
          (field "ResponseMetadata" (dict (populate_response_metadata headers)) end))
    else dict (move_request_id parsed)

module _ (feed : String → Result Node) (decode : String → Result String) (shapes : ShapeMap)
    (float_of parse_timestamp parse_blob : String → Result Value) (time_of : ℕ → Result Value)
    (responses : ℕ → Option String) (depth : ℕ) where
  -- RestXMLParser._initial_body_parse
  unfoldable pub initial_body_parse : String → Result Node
  unfolding parse_xml_string_to_dom
  initial_body_parse body =
      if str_eq body "" then ok (element "" none nil) else parse_xml_string_to_dom feed body

  unfoldable pub format : Format Node
  unfolding initial_body_parse handle_number handle_header parse_shape
  format = record {
    parse_status = handle_number time_of;
    parse_header = handle_header shapes float_of parse_timestamp parse_blob depth;
    initial_body_parse = initial_body_parse;
    parse_body =
        λ s n. parse_shape shapes float_of parse_timestamp parse_blob rest_xml depth s (one n);
  }

  -- _parse_error_from_body
  unfoldable pub parse_error_from_body : Response → Result Value
  unfolding parse_xml_string_to_dom replaced_root error_fields
  parse_error_from_body r = parse_xml_string_to_dom feed r.body >>= λ root.
      replaced_root root >>= λ parsed. ok (error_fields (tag_of root) r.headers parsed)

  -- RestXMLParser._do_error_parse
  unfoldable pub do_error_parse : Response → Option Shape → Result Value
  unfolding parse_error_from_http_status parse_error_from_body
  do_error_parse r s =
      if str_eq r.body ""
      then ok (parse_error_from_http_status responses r)
      else parse_error_from_body r

  unfoldable pub rest_xml_parser : Parser
  unfolding format Rest.do_parse do_error_parse
  rest_xml_parser = record {
    do_parse = λ r s. Rest.do_parse format r decode shapes s;
    do_error_parse = do_error_parse;
  }

  -- create_parser, with the functions of JSON
  unfoldable pub create_parser :
      (String → Result Value)
      → (json_timestamp json_blob : Value → Result Value) → String
      → Result Parser
  unfolding item query_parser ec2_query_parser Json.json_parser RestJson.rest_json_parser
      rest_xml_parser
  create_parser loads json_timestamp json_blob protocol_name = item protocol_name (
      ("ec2", ec2_query_parser feed shapes float_of parse_timestamp parse_blob depth)
      ∷ ("query", query_parser feed shapes float_of parse_timestamp parse_blob depth)
      ∷ ("json", Json.json_parser loads shapes json_timestamp json_blob depth)
      ∷ ("rest-json", RestJson.rest_json_parser loads decode shapes json_timestamp json_blob depth)
      ∷ ("rest-xml", rest_xml_parser)
      ∷ [])
