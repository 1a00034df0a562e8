-- ===== src/Parse/Json/Errors.antt =====
-- The code of a failed response in the JSON protocol.
use jcsapitest.Prelude.{
  ℕ, ◌≤◌, String, ◌≡◌, refl, inl, inr, true, Option, none, some, Dict, Result, ok, arith, leb,
  Option-cases,
}
use jcsapitest.Value.Int.{pos}
use jcsapitest.Value.{
  Value, Fields, null, str, int, dict, field, end, find_field, set_field, get_or,
}
use jcsapitest.Text.{concat}
use jcsapitest.Model.{Shape, ShapeMap}
use jcsapitest.Parse.Response.{Response, parse, header, inject_status, set_item}
use jcsapitest.Parse.Rest.Metadata.{find_field-set_self}
use jcsapitest.Parse.Json.{
  after_hash, short_code, code_fields, message_of, set_request_id, inject_response_metadata,
  do_error_parse, json_parser,
}

after_hash-concat :
    (prefix rest : String)
    → after_hash rest ≡ none
    → after_hash (concat prefix (concat "#" rest)) ≡ some rest
unfolding after_hash concat
after_hash-concat String.[] rest h = rw h refl
after_hash-concat (String.◌∷◌ c prefix) rest h = rw (after_hash-concat prefix rest h) refl

short_code-concat :
    (prefix rest : String)
    → after_hash rest ≡ none
    → short_code (concat prefix (concat "#" rest)) ≡ rest
unfolding short_code
short_code-concat prefix rest h = rw (short_code, after_hash-concat prefix rest h) refl

above : (n : ℕ) → 301 ≤ n → leb 301 n ≡ true
above n h = ground arith

-- What the result of a failed response holds
abbrev pub Reports : Value → String → ℕ → Type 0
Reports v error_code status =
    (out : Fields) × (error : Fields) × (metadata : Fields) × (v ≡ dict out)
    × (find_field "Error" out ≡ some (dict error))
    × (find_field "Code" error ≡ some (str error_code))
    × (find_field "ResponseMetadata" out ≡ some (dict metadata))
    × (find_field "HTTPStatusCode" metadata ≡ some (int (pos status)))

abbrev error_result : Value → String → Fields → Value
error_result message error_code metadata = dict (
    field "Error" (dict (field "Message" message (field "Code" (str error_code) end)))
      (field "ResponseMetadata" (dict metadata) end))

injected :
    (message : Value) (error_code : String) (metadata : Fields) (status : ℕ)
    → (v : Value) × (inject_status status (error_result message error_code metadata) ≡ ok v)
      × Reports v error_code status
unfolding inject_status find_field set_field set_item
injected message error_code metadata status = (
  error_result message error_code (set_field "HTTPStatusCode" (int (pos status)) metadata),
  refl,
  (_, _, _, refl, refl, refl, refl, find_field-set_self "HTTPStatusCode" _ metadata),
)

get_or-dict :
    (k : String) (default : Value) (fs : Fields) → (v : Value) × (get_or k default (dict fs) ≡ ok v)
unfolding get_or
get_or-dict k default fs = elim (Option-cases (find_field k fs)) [
  | inl missing ↦ (default, rw (get_or, missing) refl)
  | inr (v, there) ↦ (v, rw (get_or, there) refl)
]

message_of-dict :
    (default : Value) (fs : Fields) → (v : Value) × (message_of default (dict fs) ≡ ok v)
unfolding message_of
message_of-dict default fs =
    let (default', e) = get_or-dict "Message" default fs in
    let (v, e') = get_or-dict "message" default' fs in (v, rw (e, e') refl)

inject_response_metadata-error :
    (message : Value) (error_code : String) (headers : Dict String)
    → (metadata : Fields) × (inject_response_metadata (error_result message error_code end) headers
        ≡ ok (error_result message error_code metadata))
unfolding inject_response_metadata set_request_id find_field set_field set_item
inject_response_metadata-error message error_code headers =
    elim (Option-cases (header "x-amzn-requestid" headers)) [
      | inl missing ↦ (end, rw (inject_response_metadata, missing) refl)
      | inr (id, there) ↦
          (field "RequestId" (str id) end, rw (inject_response_metadata, there) refl)
    ]

module _ (loads : String → Result Value) (shapes : ShapeMap)
    (parse_timestamp parse_blob : Value → Result Value) (depth : ℕ) where
  -- If the body of a response with a status of 301 or more is a JSON object whose __type is a name, '#'
  -- and a code that has no '#', then the parser of the JSON protocol returns, the error's code is what
  -- stands behind the '#', and the metadata hold the status code.
  pub json_error-Reports :
      (r : Response) (s : Option Shape) (fs : Fields) (prefix error_code : String)
      → 301 ≤ r.status_code
      → loads r.body ≡ ok (dict fs)
      → find_field "__type" fs ≡ some (str (concat prefix (concat "#" error_code)))
      → after_hash error_code ≡ none
      → (v : Value) × (parse (json_parser loads shapes parse_timestamp parse_blob depth) r s ≡ ok v)
        × Reports v error_code r.status_code
  unfolding parse json_parser do_error_parse
  json_error-Reports r s fs prefix error_code failed loaded typed hashless =
      let (message, is_message) = message_of-dict null fs in
      let (metadata, filled) = inject_response_metadata-error message error_code r.headers in
      let (v, done, reports) = injected message error_code metadata r.status_code in
      let coded : get_or "__type" null (dict fs)
          ≡ ok (str (concat prefix (concat "#" error_code))) =
        unfold get_or in rw (get_or, typed) refl in
      (
        v,
        rw (above r.status_code failed, loaded, is_message, coded)
            (unfold code_fields set_field in
              rw (short_code-concat prefix error_code hashless, filled, done) refl),
        reports,
      )
