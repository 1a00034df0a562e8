-- ===== src/Parse/Query/Samples.antt =====
-- Responses in the EC2 protocol, as botocore/parsers.py reads them.
use jcsapitest.Prelude.{
  ℕ, ◌<◌, ◌≡◌, ◌≢◌, ◌⊎◌, inl, inr, refl, arith, String, none, some, [], ◌∷◌, Dict, get,
  attribute_error, isinstance, key_error, Result, ok, raise, ok-inj, str_eq, if◌then◌else◌,
}
use jcsapitest.Value.Int.{pos}
use jcsapitest.Value.{Value, Items, Fields, str, int, dict, list, find_field}
use jcsapitest.Text.{concat}
use jcsapitest.Model.{
  TypeName, Traits, ShapeRef, ShapeModel, Shape, ShapeMap, members_of, member_of, key_of, value_of,
}
use jcsapitest.Parse.Response.{Response, parse}
use jcsapitest.Parse.Xml.{
  Node, Nodes, element, nil, cons, Found, one, many, children, nodes_of, named,
  build_name_to_xml_node, node_tag,
}
use jcsapitest.Parse.Xml.Children.{items_named, found, get-build_name_to_xml_node}
use jcsapitest.Parse.Xml.Shapes.Shallow.{raise-IsShallow}
use jcsapitest.Parse.Xml.Shapes.{recursion_error, query, parse_shape, parse_items}
use jcsapitest.Parse.Xml.Shapes.Enough.{Below, IsRanked, parse_shape-enough}
use jcsapitest.Parse.Xml.Shapes.Flattened.{flattened_list}
use jcsapitest.Parse.Query.{query_error_fields, ec2_query_parser}
use jcsapitest.Parse.Query.Errors.{ec2_error-metadata}

abbrev leaf : String → String → Node
leaf tag text = element (concat "{http://ec2/doc}" tag) (some text) nil

abbrev branch : String → Nodes → Node
branch tag ns = element (concat "{http://ec2/doc}" tag) none ns

abbrev plain : Traits
plain = record { required = none; minimum = none; maximum = none; serialization = [] }

abbrev refer : String → ShapeRef
refer name = record { shape = some name; traits = none }

abbrev model : TypeName → ShapeModel
model t = record {
  type_name = some t;
  members = none;
  member = none;
  key = none;
  value = none;
  traits = plain;
}

abbrev ids_model : ShapeModel
ids_model = record (model TypeName.list) {
  member = some (refer "String");
  traits = record plain { serialization = ("flattened", "true") ∷ [] };
}

abbrev result_model : ShapeModel
result_model = record (model TypeName.structure) { members = some (("Id", refer "Ids") ∷ []) }

abbrev shapes : ShapeMap
shapes = ("Result", result_model) ∷ ("Ids", ids_model) ∷ ("String", model TypeName.string) ∷ []

abbrev string_shape : Shape
string_shape = record {
  name = "String";
  type_name = TypeName.string;
  model = model TypeName.string;
}

abbrev ids_shape : Shape
ids_shape = record { name = "Ids"; type_name = TypeName.list; model = ids_model }

abbrev result_shape : Shape
result_shape = record { name = "Result"; type_name = TypeName.structure; model = result_model }

abbrev two_ids : Node
two_ids =
    branch "Result" (cons (leaf "Id" "a") (cons (leaf "requestId" "r") (cons (leaf "Id" "b") nil)))

program : Unit {0}
unfolding parse ec2_query_parser build_name_to_xml_node node_tag items_named concat parse_shape
    members_of member_of key_of value_of get find_field query_error_fields nodes_of
program = tt

get-build_name_to_xml_node_example :
    get "Id" (build_name_to_xml_node (children two_ids))
    ≡ found (items_named "Id" (named (children two_ids)))
get-build_name_to_xml_node_example = get-build_name_to_xml_node "Id" (children two_ids)

build-many :
    get "Id" (build_name_to_xml_node (children two_ids))
    ≡ some (many (leaf "Id" "a" ∷ leaf "Id" "b" ∷ []))
unfolding program
build-many = refl

abbrev no_text : String → Result Value
no_text t = raise (key_error t)

abbrev parse_at : ℕ → Shape → Found Node → Result Value
parse_at = parse_shape shapes no_text no_text no_text query

abbrev ids : String → String → Value
ids a b = list (Items.cons (str a) (Items.cons (str b) Items.nil))

result-two :
    parse_at 3 result_shape (one two_ids) ≡ ok (dict (Fields.field "Id" (ids "a" "b") Fields.end))
unfolding program
result-two = refl

-- The shapes of this service, and how deep they are nested
abbrev Known : Shape → Type 0
Known s = (s ≡ string_shape) ⊎ ((s ≡ ids_shape) ⊎ (s ≡ result_shape))

abbrev rank : Shape → ℕ
rank s = if str_eq s.name "Result" then 2 else if str_eq s.name "Ids" then 1 else 0

members_of-Known :
    (s : Shape) (ms : Dict Shape) → Known s → members_of shapes s ≡ ok ms → Below Known rank s ms
unfolding program
members_of-Known s ms (inl e) h = let raised = rw e at h in cc
members_of-Known s ms (inr (inl e)) h = let raised = rw e at h in cc
members_of-Known s ms (inr (inr e)) h =
    let same = rw e at h in rw (← ok-inj same, e) (inr (inl refl), omega arith, tt)

member_of-Known : (s m : Shape) → Known s → member_of shapes s ≡ ok m → Known m × (rank m < rank s)
unfolding program
member_of-Known s m (inl e) h = let raised = rw e at h in cc
member_of-Known s m (inr (inl e)) h =
    let same = rw e at h in rw (← ok-inj same, e) (inl refl, omega arith)
member_of-Known s m (inr (inr e)) h = let raised = rw e at h in cc

key_of-Known : (s m : Shape) → Known s → key_of shapes s ≡ ok m → Known m × (rank m < rank s)
unfolding program
key_of-Known s m (inl e) h = let raised = rw e at h in cc
key_of-Known s m (inr (inl e)) h = let raised = rw e at h in cc
key_of-Known s m (inr (inr e)) h = let raised = rw e at h in cc

value_of-Known : (s m : Shape) → Known s → value_of shapes s ≡ ok m → Known m × (rank m < rank s)
unfolding program
value_of-Known s m (inl e) h = let raised = rw e at h in cc
value_of-Known s m (inr (inl e)) h = let raised = rw e at h in cc
value_of-Known s m (inr (inr e)) h = let raised = rw e at h in cc

shapes-IsRanked : IsRanked shapes Known rank
shapes-IsRanked = record {
  members = members_of-Known;
  member = member_of-Known;
  key = key_of-Known;
  value = value_of-Known;
}

no_text-IsShallow : (t : String) → no_text t ≢ raise recursion_error
unfolding isinstance
no_text-IsShallow t = raise-IsShallow (key_error t) refl

parse_shape-enough_example :
    (parse_at 3 result_shape (one two_ids) ≢ raise recursion_error)
    × (parse_at 3 result_shape (one two_ids) ≡ parse_at 900 result_shape (one two_ids))
parse_shape-enough_example =
    parse_shape-enough shapes no_text no_text no_text query Known rank shapes-IsRanked
      no_text-IsShallow no_text-IsShallow no_text-IsShallow 3 900 result_shape (one two_ids)
      (inr (inr refl)) (omega arith) (omega arith)

flattened_list_example :
    (fs : Fields) × (dict (Fields.field "Id" (ids "a" "b") Fields.end) ≡ dict fs)
    × (((items_named "Id" (named (children two_ids)) ≡ []) × (find_field "Id" fs ≡ none))
        ⊎ ((vs : Items) × (parse_items shapes
                (parse_at 1)
                string_shape
                (items_named "Id" (named (children two_ids)))
              ≡ ok vs)
            × (find_field "Id" fs ≡ some (list vs))))
unfolding program
flattened_list_example =
    flattened_list shapes no_text no_text no_text query 1 result_shape two_ids "Id" "Id" ids_shape
      string_shape (("Id", ids_shape) ∷ []) refl refl (refl, tt) refl refl refl refl refl refl refl

abbrev error_document : Node
error_document = branch "Response" (
    cons
      (branch "Errors" (
        cons
          (branch "Error"
            (cons (leaf "Code" "InvalidVpcID.NotFound") (cons (leaf "Message" "m") nil)))
          nil))
      (cons (leaf "RequestID" "r-1") nil))

abbrev two_errors : Node
two_errors = branch "Response" (
    cons (branch "Errors" (cons (leaf "Error" "a") (cons (leaf "Error" "b") nil)))
      (cons (leaf "RequestID" "r-1") nil))

abbrev failed : Response
failed = record { status_code = 400; headers = []; body = "<Response/>" }

abbrev parser_for : Node → String → Result Node
parser_for n body = ok n

abbrev error_result : Value
error_result = dict (
    Fields.field "Error"
      (dict (
        Fields.field "Code" (str "InvalidVpcID.NotFound")
          (Fields.field "Message" (str "m") Fields.end)))
      (Fields.field "ResponseMetadata"
        (dict (
          Fields.field "RequestId" (str "r-1")
            (Fields.field "HTTPStatusCode" (int (pos 400)) Fields.end)))
        Fields.end))

error-parsed :
    parse
      (ec2_query_parser (parser_for error_document) shapes no_text no_text no_text 3)
      failed
      none
    ≡ ok error_result
unfolding program
error-parsed = refl

-- Two errors in one response: neither is reported.
errors-raise :
    parse (ec2_query_parser (parser_for two_errors) shapes no_text no_text no_text 3) failed none
    ≡ raise (attribute_error "getchildren")
unfolding program
errors-raise = refl

ec2_error-metadata_example :
    (fs : Fields) × (out : Fields) × (id : Value) × (query_error_fields
        (parser_for error_document)
        "<Response/>"
      ≡ ok fs)
    × (find_field "RequestID" fs ≡ some id)
    × (error_result ≡ dict out)
    × (find_field "ResponseMetadata" out
        ≡ some (
            dict (
              Fields.field "RequestId" id
                (Fields.field "HTTPStatusCode" (int (pos 400)) Fields.end))))
unfolding program
ec2_error-metadata_example =
    ec2_error-metadata (parser_for error_document) shapes no_text no_text no_text 3 failed none
      (omega arith) refl
