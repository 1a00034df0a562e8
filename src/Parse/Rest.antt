-- ===== src/Parse/Rest.antt =====
-- botocore/parsers.py: `BaseRestParser`. What its subclasses add is a `Format`: how a status code and a
-- header are parsed under a shape, how a body is read, and how it is parsed. `decode` decodes UTF-8.
pub mod Json
pub mod Header
pub mod Xml
pub mod Metadata
pub mod Served
pub mod Samples
use jcsapitest.Prelude.{
  ℕ, String, Bool, true, false, ◌||◌, Option, none, some, [], ◌∷◌, Dict, get, item, str_eq,
  if◌then◌else◌, Result, ok, ◌>>=◌,
}
use Prim.Native.Char.{code}
use jcsapitest.Prelude.{◌==◌}
use jcsapitest.Value.{Value, Fields, str, dict, field, end, set_field}
use jcsapitest.Model.{TypeName, Shape, ShapeMap, members_of}
use jcsapitest.Serialize.Names.{attribute}
use jcsapitest.Parse.Response.{Response, header, update_with}
use jcsapitest.Text.Case.{lower}

-- name[len(prefix):], for a name that begins with the prefix in lower case
unfoldable pub strip_prefix : String → String → Option String
unfolding lower
strip_prefix String.[] name = some name
strip_prefix (String.◌∷◌ c prefix) String.[] = none
strip_prefix (String.◌∷◌ c prefix) (String.◌∷◌ d name) =
    let rest = strip_prefix prefix name in
    if str_eq (lower (String.◌∷◌ d String.[])) (String.◌∷◌ c String.[]) then rest else none

abbrev pub text_or : String → Option String → String
text_or default none = default
text_or default (some t) = t

unfoldable pub header_entries : String → Dict String → Fields → Fields
unfolding strip_prefix set_field
header_entries prefix [] parsed = parsed
header_entries prefix ((k, v) ∷ headers) parsed = elim (strip_prefix prefix k) [
  | none ↦ header_entries prefix headers parsed
  | some name ↦ header_entries prefix headers (set_field name (str v) parsed)
]

-- _parse_header_map
unfoldable pub parse_header_map : Shape → Dict String → Value
unfolding get lower header_entries
parse_header_map s headers =
    dict (header_entries (lower (text_or "" (attribute "locationName" s))) headers end)

-- _populate_response_metadata
unfoldable pub populate_response_metadata : Dict String → Fields
unfolding header
populate_response_metadata headers = elim (header "x-amzn-requestid" headers) [
  | some id ↦ field "RequestId" (str id) end
  | none ↦ elim (header "x-amz-request-id" headers) [
    | none ↦ end
    | some id ↦
        field "RequestId" (str id)
          (field "HostId" (str (text_or "" (header "x-amz-id-2" headers))) end)
  ]
]

pub record Format {ℓ} (Body : Type ℓ) : Type ℓ where
  pub parse_status : Shape → ℕ → Result Value
  pub parse_header : Shape → String → Result Value
  pub initial_body_parse : String → Result Body
  pub parse_body : Shape → Body → Result Value

abbrev pub is_stream : TypeName → Bool
is_stream TypeName.string = true
is_stream TypeName.blob = true
is_stream t = false

module _ {ℓ} {Body : Type ℓ} (format : Format Body) (r : Response) where
  -- final_parsed[name] = v
  abbrev pub assign : String → Fields → Result Value → Result Fields
  assign name parsed v = v >>= λ w. ok (set_field name w parsed)

  -- One round of _parse_non_payload_attrs, for a location
  unfoldable pub parse_attr : String → String → Shape → Fields → Result Fields
  unfolding parse_header_map header lower get set_field
  parse_attr location name m parsed =
      if str_eq location "statusCode"
      then assign name parsed (format.parse_status m r.status_code)
      else if str_eq location "headers"
      then ok (set_field name (parse_header_map m r.headers) parsed)
      else if str_eq location "header"
      then elim (header (lower (text_or name (attribute "locationName" m))) r.headers) [
        | none ↦ ok parsed
        | some t ↦ assign name parsed (format.parse_header m t)
      ]
      else ok parsed

  -- _parse_non_payload_attrs
  unfoldable pub parse_non_payload_attrs : Dict Shape → Fields → Result Fields
  unfolding get parse_attr
  parse_non_payload_attrs [] parsed = ok parsed
  parse_non_payload_attrs ((name, m) ∷ members) parsed = elim (attribute "location" m) [
    | none ↦ parse_non_payload_attrs members parsed
    | some location ↦ parse_attr location name m parsed >>= parse_non_payload_attrs members
  ]

  module _ (decode : String → Result String) where
    abbrev payload_value : Shape → Result Value
    payload_value body_shape =
        if is_stream body_shape.type_name
        then (decode r.body >>= λ text. ok (str text))
        else (format.initial_body_parse r.body >>= format.parse_body body_shape)

    -- _parse_payload
    unfoldable pub parse_payload : Shape → Dict Shape → Fields → Result Fields
    unfolding get item set_field update_with
    parse_payload s members parsed = elim (attribute "payload" s) [
      | some name ↦
          item name members >>= λ body_shape. assign name parsed (payload_value body_shape)
      | none ↦ format.initial_body_parse r.body >>= format.parse_body s >>= λ body_parsed.
          update_with body_parsed parsed
    ]

    -- BaseRestParser._do_parse
    unfoldable pub do_parse : ShapeMap → Option Shape → Result Value
    unfolding populate_response_metadata members_of parse_non_payload_attrs parse_payload
    do_parse shapes none =
        ok (dict (field "ResponseMetadata" (dict (populate_response_metadata r.headers)) end))
    do_parse shapes (some s) = members_of shapes s >>= λ members.
        parse_non_payload_attrs members
          (field "ResponseMetadata" (dict (populate_response_metadata r.headers)) end)
        >>= λ parsed. parse_payload s members parsed >>= λ final_parsed. ok (dict final_parsed)
