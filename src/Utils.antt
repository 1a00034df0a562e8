-- ===== src/Utils.antt =====
-- botocore/utils.py: `set_value_from_jmespath` and `merge_dicts`. What they do to a dictionary in place is
-- here a new value; the changes that an exception leaves behind are not kept.
pub mod Dotted
pub mod Path
pub mod Samples
use Prim.Native.Char.{code}
use jcsapitest.Prelude.{
  String, Bool, true, false, ◌||◌, Option, none, some, List, [], ◌∷◌, ◌==◌, str_eq, if◌then◌else◌,
  Exception, boto_error, type_error, Result, ok, raise, ◌>>=◌,
}
use jcsapitest.Value.{Value, Fields, dict, end, field, find_field, set_field}

abbrev pub invalid_expression : String → Exception
invalid_expression e = boto_error "InvalidExpressionError" e

unfoldable pub has_bracket : String → Bool
has_bracket String.[] = false
has_bracket (String.◌∷◌ c s) = code c == b'[' || code c == b']' || code c == b'*' || has_bracket s

unfoldable pub validate_jmespath_for_set : String → Result (Unit {0})
unfolding has_bracket
validate_jmespath_for_set e =
    if str_eq e "" || str_eq e "." || has_bracket e then raise (invalid_expression e) else ok tt

abbrev pub push_letter : Prim.Native.Char.Char → List String → List String
push_letter c [] = (String.◌∷◌ c String.[]) ∷ []
push_letter c (p ∷ ps) = (String.◌∷◌ c p) ∷ ps

-- The keys that repeated splits at the first dot give.
unfoldable pub split_dot : String → List String
split_dot String.[] = "" ∷ []
split_dot (String.◌∷◌ c s) =
    let rest = split_dot s in if code c == b'.' then "" ∷ rest else push_letter c rest

-- `not remainder`, for the keys behind the current one
abbrev pub is_last : List String → Bool
is_last [] = true
is_last (k ∷ []) = str_eq k ""
is_last (k ∷ j ∷ ks) = false

-- source[key], where a key that is missing gets an empty dictionary first
unfoldable pub child : String → Value → Result Value
unfolding find_field
child k (Value.dict fs) = elim (find_field k fs) [ none ↦ ok (dict end) | some v ↦ ok v ]
child k v = raise (type_error "object does not support item assignment")

-- source[key] = value
unfoldable pub set_key : String → Value → Value → Result Value
unfolding set_field
set_key k value (Value.dict fs) = ok (dict (set_field k value fs))
set_key k value v = raise (type_error "object does not support item assignment")

unfoldable pub set_path : List String → Value → Value → Result Value
unfolding child set_key
set_path [] value source = raise (invalid_expression "")
set_path (k ∷ ks) value source =
    if str_eq k "" then raise (invalid_expression k) else elim (is_last ks) [
      | true ↦ set_key k value source
      | false ↦ child k source >>= λ below.
          set_path ks value below >>= λ changed. set_key k changed source
    ]

unfoldable pub set_value_from_jmespath : Value → String → Value → Result Value
unfolding validate_jmespath_for_set split_dot set_path
set_value_from_jmespath source expression value =
    validate_jmespath_for_set expression >>= λ done. set_path (split_dot expression) value source

-- merge_dicts(dict1, dict2): what is no dictionary has no keys to set.
unfoldable mutual
  unfolding find_field set_field

  pub merge_dicts : Value → Fields → Result Value
  merge_dicts dict1 Fields.end = ok dict1
  merge_dicts (Value.dict fs) (Fields.field k v gs) =
      merged_value k v fs >>= λ w. merge_dicts (dict (set_field k w fs)) gs
  merge_dicts dict1 (Fields.field k v gs) =
      raise (type_error "object does not support item assignment")

  pub merged_value : String → Value → Fields → Result Value
  merged_value k (Value.dict gs) fs = elim (find_field k fs) [
    | none ↦ ok (dict gs)
    | some w ↦ merge_dicts w gs
  ]
  merged_value k v fs = ok v
