-- ===== src/Validate/Samples.antt =====
-- The shapes of a request to run instances, and what botocore/validate.py says of some parameters.
use jcsapitest.Prelude.{
  ℕ, String, ◌≡◌, ◌⊎◌, ◌↔◌, refl, Bool, none, some, [], ◌∷◌, Exception, str_eq, if◌then◌else◌,
  exception, Result, ok, raise,
}
use jcsapitest.Value.Int.{pos}
use jcsapitest.Value.{Value, str, int, end, field, nil, cons}
use jcsapitest.Model.{TypeName, ShapeRef, ShapeModel, Shape, ShapeMap, Traits, get_shape_by_name}
use jcsapitest.Validate.{
  dot, index, validate, serialize_to_request, missing_required_field, unknown_field, invalid_range,
  invalid_type, param_validation_error,
}
use jcsapitest.Validate.Typed.{HasType}
use jcsapitest.Validate.Typed.Decides.{validate_iff, serialize-HasType, Rejects}

abbrev no_traits : Traits
no_traits = record { required = none; minimum = none; maximum = none; serialization = [] }

abbrev refer : String → ShapeRef
refer name = record { shape = some name; traits = none }

abbrev scalar : TypeName → Traits → ShapeModel
scalar t traits = record {
  type_name = some t;
  members = none;
  member = none;
  key = none;
  value = none;
  traits = traits;
}

abbrev run_model : ShapeModel
run_model = record {
  type_name = some TypeName.structure;
  members =
      some (("ImageId", refer "String") ∷ ("Count", refer "Count") ∷ ("Names", refer "Names") ∷ []);
  member = none;
  key = none;
  value = none;
  traits = record no_traits { required = some ("ImageId" ∷ []) };
}

abbrev names_model : ShapeModel
names_model = record {
  type_name = some TypeName.list;
  members = none;
  member = some (refer "String");
  key = none;
  value = none;
  traits = no_traits;
}

abbrev shapes : ShapeMap
shapes =
    ("Run", run_model)
    ∷ ("String", scalar TypeName.string no_traits)
    ∷ ("Count", scalar TypeName.integer (record no_traits { minimum = some (pos 1000) }))
    ∷ ("Names", names_model)
    ∷ []

abbrev run : Shape
run = record { name = "Run"; type_name = TypeName.structure; model = run_model }

-- A text is a time when it is this one.
abbrev to_datetime : Value → Result (Unit {0})
to_datetime (str t) =
    if str_eq t "2015-01-01" then ok tt else raise (exception "ValueError" "Invalid timestamp")
to_datetime v = raise (exception "ValueError" "Invalid timestamp")

abbrev has_read : String → Bool
has_read class = str_eq class "file"

abbrev good : Value
good = Value.dict (
    field "ImageId" (str "jmi-1")
      (field "Count" (int (pos 2)) (field "Names" (Value.list (cons (str "a") nil)) end)))

abbrev bad : Value
bad = Value.dict (
    field "Image" (str "jmi-1") (
      field "Count" (int (pos 0))
        (field "Names" (Value.list (cons (str "a") (cons (int (pos 1)) nil))) end)))

abbrev serializer : Value → Result ℕ
serializer v = ok 7

program : Unit {0}
unfolding get_shape_by_name validate serialize_to_request
program = tt

run-shape : get_shape_by_name shapes "Run" none ≡ ok run
unfolding program
run-shape = refl

validate-good : validate shapes to_datetime has_read [] good run ≡ ok []
unfolding program
validate-good = refl

-- All errors are reported, in the order of the loops.
validate-bad :
    validate shapes to_datetime has_read [] bad run
    ≡ ok (
        missing_required_field [] "ImageId"
        ∷ unknown_field [] "Image"
        ∷ invalid_range (dot "Count" ∷ [])
        ∷ invalid_type (dot "Names" ∷ index 1 ∷ [])
        ∷ [])
unfolding program
validate-bad = refl

serialize-bad :
    serialize_to_request shapes to_datetime has_read serializer bad (some run)
    ≡ raise (param_validation_error shapes to_datetime has_read)
unfolding program
serialize-bad = refl

validate_iff_example :
    (validate shapes to_datetime has_read [] bad run ≡ ok [])
    ↔ HasType shapes to_datetime has_read bad run
validate_iff_example = validate_iff shapes to_datetime has_read [] bad run

serialize-HasType_example :
    (HasType shapes to_datetime has_read good run
      × (serialize_to_request shapes to_datetime has_read serializer good (some run) ≡ ok 7))
    ⊎ (¬ HasType shapes to_datetime has_read good run
        × ((e : Exception) × Rejects shapes to_datetime has_read good run e
            × (serialize_to_request shapes to_datetime has_read serializer good (some run)
                ≡ raise e)))
serialize-HasType_example = serialize-HasType shapes to_datetime has_read serializer good run
