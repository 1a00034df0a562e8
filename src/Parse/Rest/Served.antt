-- ===== src/Parse/Rest/Served.antt =====
-- The metadata of a REST response, for the parsers that `create_parser` gives.
use jcsapitest.Prelude.{
  ℕ, ◌<◌, String, ◌≡◌, ◌⊎◌, inl, inr, false, Option, none, some, Dict, get, Result, ok, arith, leb,
  >>=-eq-ok, ok-inj,
}
use jcsapitest.Value.Int.{pos}
use jcsapitest.Value.{Value, Fields, int, dict, find_field, set_field}
use jcsapitest.Model.{TypeName, Shape, ShapeMap, members_of}
use jcsapitest.Parse.Response.{Response, Parser, parse}
use jcsapitest.Parse.Xml.{Node, one}
use jcsapitest.Parse.Xml.Shapes.{rest_xml}
use jcsapitest.Parse.Xml.Shapes.Flattened as Flattened
use jcsapitest.Parse.Json.Members as Members
use jcsapitest.Parse.Rest.{Format, do_parse, populate_response_metadata}
use jcsapitest.Parse.Rest.Metadata.{do_parse-keeps, inject_status-metadata}
use jcsapitest.Parse.Rest.Json as Json
use jcsapitest.Parse.Rest.Xml as Xml
use jcsapitest.Parse.Rest.Xml.{create_parser}

-- The metadata that a response without an error has in the result
abbrev pub metadata_of : Response → Fields
metadata_of r =
    set_field "HTTPStatusCode" (int (pos r.status_code)) (populate_response_metadata r.headers)

abbrev pub HasMetadata : Response → Value → Type 0
HasMetadata r v =
    (fs : Fields) × (v ≡ dict fs) × (find_field "ResponseMetadata" fs ≡ some (dict (metadata_of r)))

below : (n : ℕ) → n < 301 → leb 301 n ≡ false
below n h = ground arith

module _ {ℓ} {Body : Type ℓ} (format : Format Body) (decode : String → Result String)
    (shapes : ShapeMap) (error : Response → Option Shape → Result Value) (r : Response) (s : Shape)
    (members : Dict Shape) (of_members : members_of shapes s ≡ ok members)
    (absent : get "ResponseMetadata" members ≡ none) (succeeded : r.status_code < 301)
    (body_absent : (b : Body) (w : Value)
      → format.parse_body s b ≡ ok w
      → (fs : Fields) × (w ≡ dict fs) × (find_field "ResponseMetadata" fs ≡ none)) where
  abbrev rest_parser : Parser
  rest_parser = record {
    do_parse = λ r s. do_parse format r decode shapes s;
    do_error_parse = error;
  }

  served_metadata : {v : Value} → parse rest_parser r (some s) ≡ ok v → HasMetadata r v
  unfolding parse find_field
  served_metadata returned =
      let (w, parsed, injected) =
        >>=-eq-ok (do_parse format r decode shapes (some s)) _
          (rw (below r.status_code succeeded, parse) at returned) in
      let (fs, e, kept) =
        do_parse-keeps format r "ResponseMetadata" decode s body_absent shapes members of_members
          absent parsed in
      inject_status-metadata r.status_code fs (populate_response_metadata r.headers) kept
        (rw e at injected)

module _ (feed : String → Result Node) (decode : String → Result String) (shapes : ShapeMap)
    (float_of parse_timestamp parse_blob : String → Result Value) (time_of : ℕ → Result Value)
    (responses : ℕ → Option String) (depth : ℕ) (loads : String → Result Value)
    (json_timestamp json_blob : Value → Result Value) (r : Response) (s : Shape)
    (members : Dict Shape) (is_structure : s.type_name ≡ TypeName.structure)
    (of_members : members_of shapes s ≡ ok members) (absent : get "ResponseMetadata" members ≡ none)
    (succeeded : r.status_code < 301) where
  rest_json-metadata :
      {v : Value}
      → parse (Json.rest_json_parser loads decode shapes json_timestamp json_blob depth) r (some s)
        ≡ ok v
      → HasMetadata r v
  unfolding Json.rest_json_parser Json.format
  rest_json-metadata returned =
      served_metadata (Json.format loads decode shapes json_timestamp json_blob depth) decode shapes
        (Json.do_error_parse loads decode shapes json_timestamp json_blob depth) r s members
        of_members absent succeeded
        (λ b w parsed.
          Members.parse_structure-absent shapes json_timestamp json_blob depth s b members
            "ResponseMetadata" is_structure of_members absent parsed)
        returned

  rest_xml-metadata :
      {v : Value}
      → parse
          (Xml.rest_xml_parser feed decode shapes float_of parse_timestamp parse_blob time_of
            responses depth)
          r
          (some s)
        ≡ ok v
      → HasMetadata r v
  unfolding Xml.rest_xml_parser Xml.format
  rest_xml-metadata returned =
      served_metadata
        (Xml.format feed decode shapes float_of parse_timestamp parse_blob time_of responses depth)
        decode shapes
        (Xml.do_error_parse feed decode shapes float_of parse_timestamp parse_blob time_of responses
          depth)
        r s members of_members absent succeeded
        (λ b w parsed.
          Flattened.parse_structure-absent shapes float_of parse_timestamp parse_blob rest_xml depth
            s (one b) members "ResponseMetadata" is_structure of_members absent parsed)
        returned

  -- Let the output be a structure with no member named ResponseMetadata. If the parser of a REST protocol
  -- returns for a response with a status below 301, then the result is a dictionary whose
  -- ResponseMetadata are the identifiers of the request in the headers and the status code: no
  -- member from the headers, the status or the body replaces them.
  pub create_parser-HasMetadata :
      (protocol_name : String) (p : Parser) (v : Value)
      → (protocol_name ≡ "rest-json") ⊎ (protocol_name ≡ "rest-xml")
      → create_parser feed decode shapes float_of parse_timestamp parse_blob time_of responses depth
          loads json_timestamp json_blob protocol_name
        ≡ ok p
      → parse p r (some s) ≡ ok v
      → HasMetadata r v
  unfolding create_parser
  create_parser-HasMetadata protocol_name p v (inl e) created returned =
      let made = rw e at created in rest_json-metadata (rw (← ok-inj made) at returned)
  create_parser-HasMetadata protocol_name p v (inr e) created returned =
      let made = rw e at created in rest_xml-metadata (rw (← ok-inj made) at returned)
