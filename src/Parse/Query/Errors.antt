-- ===== src/Parse/Query/Errors.antt =====
-- The metadata of a failed response in the EC2 protocol.
use jcsapitest.Prelude.{
  ℕ, ◌≤◌, String, ◌≡◌, inl, inr, true, Option, some, Result, ok, ◌>>=◌, arith, leb, Option-cases,
  >>=-eq-ok, ok-inj,
}
use jcsapitest.Value.Int.{pos}
use jcsapitest.Value.{Value, Fields, int, dict, field, end, find_field, set_field}
use jcsapitest.Model.{Shape, ShapeMap}
use jcsapitest.Parse.Response.{Response, parse, remove_field}
use jcsapitest.Parse.Xml.{Node}
use jcsapitest.Parse.Query.{
  query_error_fields, require_request_id, ec2_error_fields, ec2_query_parser,
}
use jcsapitest.Parse.Rest.Metadata.{inject_status-metadata, find_field-set_self}

above : (n : ℕ) → 301 ≤ n → leb 301 n ≡ true
above n h = ground arith

require_request_id-RequestId :
    (fs : Fields) {out : Fields}
    → require_request_id fs ≡ ok out
    → (id : Value) × (find_field "RequestID" fs ≡ some id)
      × (find_field "ResponseMetadata" out ≡ some (dict (field "RequestId" id end)))
unfolding require_request_id
require_request_id-RequestId fs returned = elim (Option-cases (find_field "RequestID" fs)) [
  | inl missing ↦ let raised = rw (missing, require_request_id) at returned in cc
  | inr (id, there) ↦
      let done = rw (there, require_request_id) at returned in
      (
        id,
        there,
        rw (← ok-inj done) (find_field-set_self "ResponseMetadata" _ (remove_field "RequestID" fs)),
      )
]

module _ (feed : String → Result Node) (shapes : ShapeMap) (float_of : String → Result Value)
    (parse_timestamp parse_blob : String → Result Value) (depth : ℕ) where
  -- If the parser of the EC2 protocol returns for a status of 301 or more, then the error's document has a
  -- RequestID, and the result is a dictionary whose ResponseMetadata are that identifier, under the name
  -- RequestId, and the status code, and nothing else.
  pub ec2_error-metadata :
      (r : Response) (s : Option Shape) {v : Value}
      → 301 ≤ r.status_code
      → parse (ec2_query_parser feed shapes float_of parse_timestamp parse_blob depth) r s ≡ ok v
      → (fs : Fields) × (out : Fields) × (id : Value) × (query_error_fields feed r.body ≡ ok fs)
        × (find_field "RequestID" fs ≡ some id)
        × (v ≡ dict out)
        × (find_field "ResponseMetadata" out
            ≡ some (
                dict (field "RequestId" id (field "HTTPStatusCode" (int (pos r.status_code)) end))))
  unfolding parse ec2_query_parser ec2_error_fields
  ec2_error-metadata r s failed returned =
      let (w, parsed, injected) =
        >>=-eq-ok (ec2_error_fields feed r.body >>= λ fs. ok (dict fs)) _
          (rw (above r.status_code failed, parse) at returned) in
      let (required, parts, e) = >>=-eq-ok (ec2_error_fields feed r.body) _ parsed in
      let (fs, original, moved) = >>=-eq-ok (query_error_fields feed r.body) _ parts in
      let (id, there, metadata) = require_request_id-RequestId fs moved in
      let (out, e', final) =
        inject_status-metadata r.status_code required _ metadata (rw (← ok-inj e) at injected) in
      (fs, out, id, original, there, e', unfold set_field in final)
