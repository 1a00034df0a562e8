-- ===== src/Parse/Rest/Samples.antt =====
-- Responses in the REST protocols, as botocore/parsers.py reads them.
use jcsapitest.Prelude.{
  ℕ, ◌≡◌, inl, refl, arith, String, Option, none, some, [], ◌∷◌, Dict, get, item, key_error, Result,
  ok, raise,
}
use jcsapitest.Value.Int.{pos}
use jcsapitest.Value.{Value, Items, list, cons, str, int, dict, field, end}
use jcsapitest.Model.{TypeName, Traits, ShapeRef, ShapeModel, Shape, ShapeMap}
use jcsapitest.Parse.Response.{Response, Parser, parse}
use jcsapitest.Parse.Xml.{Node, element, nil}
use jcsapitest.Parse.Rest.{populate_response_metadata}
use jcsapitest.Parse.Rest.Header.{handle_header}
use jcsapitest.Parse.Rest.Json.{rest_json_parser}
use jcsapitest.Parse.Rest.Xml.{rest_xml_parser, create_parser}
use jcsapitest.Parse.Rest.Served.{HasMetadata, create_parser-HasMetadata}

abbrev located : Dict String → Traits
located attributes = record {
  required = none;
  minimum = none;
  maximum = none;
  serialization = attributes;
}

abbrev model : TypeName → ShapeModel
model t = record {
  type_name = some t;
  members = none;
  member = none;
  key = none;
  value = none;
  traits = located [];
}

abbrev in_header : ShapeRef
in_header = record {
  shape = some "String";
  traits = some (located (("location", "header") ∷ ("locationName", "X-Job-Id") ∷ []));
}

abbrev in_body : ShapeRef
in_body = record { shape = some "String"; traits = none }

abbrev job_model : ShapeModel
job_model = record (model TypeName.structure) {
  members = some (("Id", in_header) ∷ ("State", in_body) ∷ []);
}

abbrev shapes : ShapeMap
shapes = ("Job", job_model) ∷ ("String", model TypeName.string) ∷ []

abbrev job_shape : Shape
job_shape = record { name = "Job"; type_name = TypeName.structure; model = job_model }

abbrev header_shape : Shape
header_shape = record {
  name = "String";
  type_name = TypeName.string;
  model = record (model TypeName.string) {
    traits = located (("location", "header") ∷ ("locationName", "X-Job-Id") ∷ []);
  };
}

abbrev body_shape : Shape
body_shape = record { name = "String"; type_name = TypeName.string; model = model TypeName.string }

abbrev feed : String → Result Node
feed text = ok (element "Job" none nil)

abbrev decode : String → Result String
decode text = ok text

abbrev no_text : String → Result Value
no_text t = raise (key_error t)

abbrev no_number : ℕ → Result Value
no_number n = raise (key_error "time")

abbrev no_value : Value → Result Value
no_value v = raise (key_error "time")

abbrev no_reason : ℕ → Option String
no_reason n = none

abbrev loads : String → Result Value
loads text = ok (dict (field "State" (str "done") (field "ResponseMetadata" (str "x") end)))

abbrev served : Response
served = record {
  status_code = 200;
  headers = ("x-amzn-RequestId", "r-1") ∷ ("x-job-id", "j-1") ∷ [];
  body = "{}";
}

abbrev parser : Parser
parser = rest_json_parser loads decode shapes no_value no_value 9

abbrev result : Value
result = dict (
    field "ResponseMetadata"
      (dict (field "RequestId" (str "r-1") (field "HTTPStatusCode" (int (pos 200)) end)))
      (field "Id" (str "j-1") (field "State" (str "done") end)))

program : Unit {0}
unfolding handle_header parse rest_json_parser rest_xml_parser create_parser get item
    populate_response_metadata
program = tt

-- What the body has under the name ResponseMetadata is not taken over.
job-parsed : parse parser served (some job_shape) ≡ ok result
unfolding program
job-parsed = refl

create_parser-HasMetadata_example : HasMetadata served result
unfolding program
create_parser-HasMetadata_example =
    create_parser-HasMetadata feed decode shapes no_text no_text no_text no_number no_reason 9 loads
      no_value no_value served job_shape (("Id", header_shape) ∷ ("State", body_shape) ∷ []) refl
      refl refl (omega arith) "rest-json" parser result (inl refl) refl refl

-- The list of texts in a header of rest-xml
abbrev texts_shape : Shape
texts_shape = record {
  name = "Texts";
  type_name = TypeName.list;
  model = record (model TypeName.list) {
    member = some (record { shape = some "String"; traits = none });
  };
}

abbrev text_shapes : ShapeMap
text_shapes = ("String", model TypeName.string) ∷ []

header-iterated :
    handle_header text_shapes no_text no_text no_text 9 texts_shape "ab"
    ≡ ok (list (cons (str "a") (cons (str "b") Items.nil)))
unfolding program
header-iterated = refl

header-empty :
    handle_header text_shapes no_text no_text no_text 9 texts_shape "" ≡ ok (list Items.nil)
unfolding program
header-empty = refl
