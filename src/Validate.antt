-- ===== src/Validate.antt =====
-- botocore/validate.py: `ParamValidator`, `validate_parameters` and `ParamValidationDecorator`. An error
-- is its reason with the path of the parameter; the text of the report is left out. A `bytes` value is a
-- bytearray; a `float` is a float or a Decimal. `to_datetime` stands for `parse_to_aware_datetime`,
-- which rests on datetime and dateutil, and `has_read` says which objects have a method `read`.
pub mod Typed
pub mod Samples
use jcsapitest.Prelude.{
  ℕ, zero, suc, ◌+◌, String, Bool, true, false, not, ◌||◌, Option, none, some, List, [], ◌∷◌, ◌++◌,
  if◌then◌else◌, Dict, get, has, Exception, exception, attribute_error, boto_error, isinstance,
  Result, ok, raise, ◌>>=◌, ◌>>◌,
}
use jcsapitest.Value.Int.{ℤ, pos, scale, ltb_ℤ}
use jcsapitest.Value.{Value, Items, Fields, has_field, count_items}
use jcsapitest.Model.{
  TypeName, Shape, ShapeMap, members_of, member_of, key_of, value_of, required_members,
}

-- One part of a parameter's name: '.field', '[index]' or ' (key: key)'.
pub data Step : Type 0 where
  dot : String → Step
  index : ℕ → Step
  key : String → Step

abbrev pub Path_ : Type 0
Path_ = List Step

pub data Error : Type 0 where
  missing_required_field : (name : Path_) (required_name : String) → Error
  unknown_field : (name : Path_) (unknown_param : String) → Error
  invalid_type : (name : Path_) → Error
  invalid_range : (name : Path_) → Error
  invalid_length : (name : Path_) → Error

-- What a check reports, unless an exception ends it.
abbrev pub Report : Type 0
Report = Result (List Error)

-- Both checks report.
abbrev pub both : Report → Report → Report
both first second = first >>= λ es. second >>= λ fs. ok (es ++ fs)

-- len(param)
unfoldable pub str_length : String → ℕ
str_length String.[] = 0
str_length (String.◌∷◌ c s) = suc (str_length s)

abbrev pub is_below : ℤ → Option ℤ → Bool
is_below v none = false
is_below v (some low) = ltb_ℤ v low

abbrev pub is_above : ℤ → Option ℤ → Bool
is_above v none = false
is_above v (some high) = ltb_ℤ high v

-- range_check, for a number of thousandths
unfoldable pub out_of_range : ℤ → Shape → Bool
out_of_range v s = is_below v s.model.traits.minimum || is_above v s.model.traits.maximum

abbrev pub report_if : Bool → Error → Report
report_if true e = ok (e ∷ [])
report_if false e = ok []

abbrev pub check_length : Path_ → ℕ → Shape → Report
check_length name n s = report_if (out_of_range (scale (pos n)) s) (invalid_length name)

abbrev pub check_number : Path_ → ℤ → Shape → Report
check_number name v s = report_if (out_of_range v s) (invalid_range name)

abbrev pub wrong_type : Path_ → Report
wrong_type name = ok (invalid_type name ∷ [])

-- getattr(self, '_validate_' + type_name)
abbrev pub no_validator : Report
no_validator = raise (attribute_error "_validate_")

abbrev pub one : ℤ
one = pos 1

-- A bool is an int in Python.
unfoldable pub validate_integer : Path_ → Value → Shape → Report
unfolding out_of_range scale
validate_integer name (Value.int n) s = check_number name (scale n) s
validate_integer name (Value.bool true) s = check_number name (scale one) s
validate_integer name (Value.bool false) s = check_number name (pos 0) s
validate_integer name v s = wrong_type name

unfoldable pub validate_double : Path_ → Value → Shape → Report
unfolding out_of_range validate_integer
validate_double name (Value.float f) s = check_number name f s
validate_double name v s = validate_integer name v s

unfoldable pub validate_string : Path_ → Value → Shape → Report
unfolding out_of_range str_length scale
validate_string name (Value.str t) s = check_length name (str_length t) s
validate_string name v s = wrong_type name

unfoldable pub validate_boolean : Path_ → Value → Report
validate_boolean name (Value.bool b) = ok []
validate_boolean name v = wrong_type name

-- The first loop of _validate_structure
unfoldable pub missing_fields : Path_ → List String → Fields → List Error
unfolding has_field
missing_fields name [] fs = []
missing_fields name (r ∷ rs) fs =
    let rest = missing_fields name rs fs in
    if has_field r fs then rest else missing_required_field name r ∷ rest

-- The second loop of _validate_structure
unfoldable pub unknown_fields : Path_ → Dict Shape → Fields → List Error
unfolding has
unknown_fields name members Fields.end = []
unknown_fields name members (Fields.field k v fs) =
    let rest = unknown_fields name members fs in
    if has k members then rest else unknown_field name k ∷ rest

module _ (shapes : ShapeMap) (to_datetime : Value → Result (Unit {0}))
    (has_read : String → Bool) where
  -- A file, as any object with a method `read`, is a blob too.
  unfoldable pub validate_blob : Path_ → Value → Report
  validate_blob name (Value.str t) = ok []
  validate_blob name (Value.bytes t) = ok []
  validate_blob name (Value.other class) = if has_read class then ok [] else wrong_type name
  validate_blob name v = wrong_type name

  -- except (TypeError, ValueError)
  unfoldable pub validate_timestamp : Path_ → Value → Report
  unfolding isinstance
  validate_timestamp name v = elim (to_datetime v) [
    | ok done ↦ ok []
    | raise e ↦
        if isinstance e "TypeError" || isinstance e "ValueError" then wrong_type name else raise e
  ]

  -- The validation of a value that is no dictionary or list of the shape's kind: for a structure, a list
  -- or a map it is of the wrong type.
  unfoldable pub validate_scalar : Path_ → Value → Shape → Report
  unfolding validate_integer validate_double validate_string validate_boolean validate_blob
      validate_timestamp
  validate_scalar name v s = elim s.type_name [
    | TypeName.structure ↦ wrong_type name
    | TypeName.list ↦ wrong_type name
    | TypeName.map ↦ wrong_type name
    | TypeName.string ↦ validate_string name v s
    | TypeName.integer ↦ validate_integer name v s
    | TypeName.long ↦ validate_integer name v s
    | TypeName.double ↦ validate_double name v s
    | TypeName.float ↦ validate_double name v s
    | TypeName.boolean ↦ validate_boolean name v
    | TypeName.blob ↦ validate_blob name v
    | TypeName.timestamp ↦ validate_timestamp name v
    | TypeName.unknown type_name ↦ no_validator
  ]

  -- _validate
  unfoldable mutual
    unfolding validate_scalar missing_fields unknown_fields required_members count_items
        out_of_range members_of member_of key_of value_of get scale

    pub validate : Path_ → Value → Shape → Report
    validate name (Value.dict fs) s = elim s.type_name [
      | TypeName.structure ↦ members_of shapes s >>= λ members.
          both (ok (missing_fields name (required_members s) fs ++ unknown_fields name members fs))
            (validate_known name fs members)
      | TypeName.map ↦ key_of shapes s >>= λ key_shape.
          value_of shapes s >>= λ value_shape. validate_map name fs key_shape value_shape
      | other_type ↦ validate_scalar name (Value.dict fs) s
    ]
    validate name (Value.list vs) s = elim s.type_name [
      | TypeName.list ↦ member_of shapes s >>= λ member.
          both (check_length name (count_items vs) s) (validate_items name 0 vs member)
      | other_type ↦ validate_scalar name (Value.list vs) s
    ]
    validate name v s = validate_scalar name v s

    -- The third loop of _validate_structure, over the fields that are known.
    pub validate_known : Path_ → Fields → Dict Shape → Report
    validate_known name Fields.end members = ok []
    validate_known name (Fields.field k v fs) members = elim (get k members) [
      | none ↦ validate_known name fs members
      | some m ↦ both (validate (name ++ dot k ∷ []) v m) (validate_known name fs members)
    ]

    pub validate_items : Path_ → ℕ → Items → Shape → Report
    validate_items name i Items.nil member = ok []
    validate_items name i (Items.cons v vs) member =
        both (validate (name ++ index i ∷ []) v member) (validate_items name (suc i) vs member)

    pub validate_map : Path_ → Fields → Shape → Shape → Report
    validate_map name Fields.end key_shape value_shape = ok []
    validate_map name (Fields.field k v fs) key_shape value_shape =
        both (validate_scalar (name ++ key k ∷ []) (Value.str k) key_shape) (
          both (validate (name ++ dot k ∷ []) v value_shape)
            (validate_map name fs key_shape value_shape))

  abbrev pub param_validation_error : Exception
  param_validation_error = boto_error "ParamValidationError" "report"

  -- validate_parameters
  unfoldable pub validate_parameters : Value → Shape → Result (Unit {0})
  unfolding validate
  validate_parameters params s = validate [] params s >>= λ errors. elim errors [
    | [] ↦ ok tt
    | e ∷ es ↦ raise param_validation_error
  ]

  -- ParamValidationDecorator.serialize_to_request, in front of a serializer; without an input shape
  -- nothing is validated.
  unfoldable pub serialize_to_request {ℓ} :
      {R : Type ℓ} → (Value → Result R) → Value → Option Shape → Result R
  unfolding validate_parameters
  serialize_to_request serializer params none = serializer params
  serialize_to_request serializer params (some s) =
      validate_parameters params s >>= λ done. serializer params
