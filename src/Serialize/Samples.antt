-- ===== src/Serialize/Samples.antt =====
-- A request to tag instances, as botocore/serialize.py writes it for the protocols ec2 and query.
use jcsapitest.Prelude.{
  ℕ, value_error, String, ◌≡◌, refl, true, false, none, some, [], ◌∷◌, item, Result, ok, raise,
}
use jcsapitest.Value.Int.{pos}
use jcsapitest.Value.{Value, str, int, bool, dict, list, end, field, nil, cons}
use jcsapitest.Model.{TypeName, ShapeRef, ShapeModel, Shape, ShapeMap, Traits}
use jcsapitest.Serialize.Names.{query, ec2}
use jcsapitest.Serialize.Query.{serialize}
use jcsapitest.Serialize.Request.{OperationModel, request_with, validated_request}
use jcsapitest.Serialize.Json as Json
use jcsapitest.Serialize.Json.{json_request}
use jcsapitest.Validate.{validate}

abbrev plain : Traits
plain = record { required = none; minimum = none; maximum = none; serialization = [] }

abbrev refer : String → String → ShapeRef
refer name location = record {
  shape = some name;
  traits = some (record plain { serialization = ("locationName", location) ∷ [] });
}

abbrev model : TypeName → ShapeModel
model t = record {
  type_name = some t;
  members = none;
  member = none;
  key = none;
  value = none;
  traits = plain;
}

abbrev tag_model : ShapeModel
tag_model = record (model TypeName.structure) {
  members = some (("Ids", refer "Ids" "instanceId") ∷ ("DryRun", refer "Boolean" "dryRun") ∷ []);
}

abbrev shapes : ShapeMap
shapes =
    ("Tag", tag_model)
    ∷ ("String", model TypeName.string)
    ∷ ("Boolean", model TypeName.boolean)
    ∷ ("Ids", record (model TypeName.list) { member = some (refer "String" "item") })
    ∷ []

abbrev tag_shape : Shape
tag_shape = record { name = "Tag"; type_name = TypeName.structure; model = tag_model }

abbrev tag : OperationModel
tag = record {
  name = "CreateTags";
  http_method = none;
  metadata = ("apiVersion", "2014-10-01") ∷ [];
  input_shape = some tag_shape;
}

abbrev parameters : Value
parameters =
    dict (
      field "Ids" (list (cons (str "i-1") (cons (str "i-2") nil))) (field "DryRun" (bool true) end))

abbrev convert_timestamp : Value → Result String
convert_timestamp v = ok "2015-01-01T00:00:00Z"

abbrev to_datetime : Value → Result (Unit {0})
to_datetime v = ok tt

abbrev base64 : String → String
base64 t = t

-- str.format for a prefix with an opening brace that is not closed
abbrev format : String → ℕ → String → Result String
format prefix i suffix = raise (value_error "unmatched '{' in format")

program : Unit {0}
unfolding serialize validated_request item validate Json.serialize Json.serialize_to_request
program = tt

request-ec2 :
    validated_request shapes convert_timestamp base64 format ec2 to_datetime
      (λ class. false)
      tag
      parameters
    ≡ ok (
        request_with tag (
          field "Action" (str "CreateTags") (
            field "Version" (str "2014-10-01") (
              field "InstanceId.1"
                (str "i-1")
                (field "InstanceId.2" (str "i-2") (field "DryRun" (str "true") end))))))
unfolding program
request-ec2 = refl

request-query :
    validated_request shapes convert_timestamp base64 format query to_datetime
      (λ class. false)
      tag
      parameters
    ≡ ok (
        request_with tag (
          field "Action" (str "CreateTags") (
            field "Version" (str "2014-10-01") (
              field "instanceId.member.1"
                (str "i-1")
                (field "instanceId.member.2" (str "i-2") (field "dryRun" (str "true") end))))))
unfolding program
request-query = refl

-- A map under a name with a brace: the validator accepts it, and str.format does not.
abbrev map_shape : Shape
map_shape = record {
  name = "Map";
  type_name = TypeName.map;
  model = record (model TypeName.map) {
    key = some (refer "String" "key");
    value = some (refer "String" "value");
  };
}

abbrev one_entry : Value
one_entry = dict (field "k" (str "v") end)

map-brace :
    serialize shapes convert_timestamp base64 format query end one_entry map_shape "a{b"
    ≡ raise (value_error "unmatched '{' in format")
unfolding program
map-brace = refl

map-plain :
    serialize shapes convert_timestamp base64 format query end one_entry map_shape "ab"
    ≡ ok (field "ab.entry.1.key" (str "k") (field "ab.entry.1.value" (str "v") end))
unfolding program
map-plain = refl

-- The same request for the protocol json
abbrev json_tag : OperationModel
json_tag = record tag { metadata = ("targetPrefix", "Tags_20141001") ∷ ("jsonVersion", "1.1") ∷ [] }

abbrev json_time : Value → Result Value
json_time v = ok (int (pos 1420070400))

abbrev dumps : Value → String
dumps (dict (field k v fs)) = k
dumps v = "{}"

-- The parameters keep their form; their own names count, not the location names.
serialize-json : Json.serialize shapes json_time base64 parameters tag_shape ≡ ok parameters
unfolding program
serialize-json = refl
