-- ===== src/Parse/Json/Samples.antt =====
-- Documents in the JSON protocols, as botocore/parsers.py reads them.
use jcsapitest.Prelude.{
  ◌≡◌, ◌≢◌, ◌⊎◌, refl, arith, String, none, some, [], ◌∷◌, Dict, get, key_error, Result, ok, raise,
}
use jcsapitest.Value.{list, cons, nil, Value, Fields, null, str, dict, field, end, find_field}
use jcsapitest.Text.{concat}
use jcsapitest.Model.{TypeName, Traits, ShapeRef, ShapeModel, Shape, ShapeMap}
use jcsapitest.Parse.Response.{Response, parse}
use jcsapitest.Parse.Json.{parse_shape, json_parser}
use jcsapitest.Parse.Json.Members.{parse_structure}
use jcsapitest.Parse.Json.Errors.{Reports, json_error-Reports}

abbrev located : Dict String → Traits
located attributes = record {
  required = none;
  minimum = none;
  maximum = none;
  serialization = attributes;
}

abbrev refer : String → String → ShapeRef
refer name location = record {
  shape = some name;
  traits = some (located (("locationName", location) ∷ []));
}

abbrev model : TypeName → Dict String → ShapeModel
model t attributes = record {
  type_name = some t;
  members = none;
  member = none;
  key = none;
  value = none;
  traits = located attributes;
}

abbrev table_model : ShapeModel
table_model = record (model TypeName.structure []) {
  members =
      some (("Name", refer "String" "TableName") ∷ ("Status", refer "String" "TableStatus") ∷ []);
}

abbrev shapes : ShapeMap
shapes = ("Table", table_model) ∷ ("String", model TypeName.string []) ∷ []

abbrev table_shape : Shape
table_shape = record { name = "Table"; type_name = TypeName.structure; model = table_model }

abbrev string_at : String → Shape
string_at location = record {
  name = "String";
  type_name = TypeName.string;
  model = model TypeName.string (("locationName", location) ∷ []);
}

abbrev no_time : Value → Result Value
no_time v = raise (key_error "time")

abbrev document : Fields
document = field "TableName" (str "users") (field "TableStatus" null (field "Extra" (str "x") end))

program : Unit {0}
unfolding parse json_parser parse_shape get find_field concat
program = tt

-- A null and what the shape does not know are left out.
table-parsed :
    parse_shape shapes no_time no_time 9 (dict document) table_shape
    ≡ ok (dict (field "Name" (str "users") end))
unfolding program
table-parsed = refl

-- A list of texts, which a document has a text or a dictionary for
abbrev texts_shape : Shape
texts_shape = record {
  name = "Texts";
  type_name = TypeName.list;
  model = record (model TypeName.list []) { member = some (refer "String" "member") };
}

text-iterated :
    parse_shape shapes no_time no_time 9 (str "ab") texts_shape
    ≡ ok (list (cons (str "a") (cons (str "b") nil)))
unfolding program
text-iterated = refl

keys-iterated :
    parse_shape shapes no_time no_time 9 (dict (field "ab" null end)) texts_shape
    ≡ ok (list (cons (str "ab") nil))
unfolding program
keys-iterated = refl

parse_structure_example :
    (out : Fields) × (dict (field "Name" (str "users") end) ≡ dict out)
    × (find_field "Extra" out ≡ none)
    × ((((find_field "TableName" document ≡ none) ⊎ (find_field "TableName" document ≡ some null))
          × (find_field "Name" out ≡ none))
        ⊎ ((raw : Value) × (w : Value) × (find_field "TableName" document ≡ some raw)
            × (raw ≢ null)
            × (parse_shape shapes no_time no_time 9 raw (string_at "TableName") ≡ ok w)
            × (find_field "Name" out ≡ some w)))
unfolding program
parse_structure_example =
    parse_structure shapes no_time no_time 9 table_shape document
      (("Name", string_at "TableName") ∷ ("Status", string_at "TableStatus") ∷ []) "Name" "Extra"
      (string_at "TableName") refl refl (refl, (refl, tt)) refl refl refl

abbrev failed : Response
failed = record { status_code = 400; headers = ("X-Amzn-RequestId", "r-1") ∷ []; body = "{}" }

abbrev error_body : Fields
error_body = field "__type" (str "com.aws.v1#TableNotFound") (field "Message" (str "m") end)

abbrev loads : String → Result Value
loads text = ok (dict error_body)

json_error-Reports_example :
    (v : Value) × (parse (json_parser loads shapes no_time no_time 9) failed none ≡ ok v)
    × Reports v "TableNotFound" 400
unfolding program
json_error-Reports_example =
    json_error-Reports loads shapes no_time no_time 9 failed none error_body "com.aws.v1"
      "TableNotFound" (omega arith) refl refl refl
