-- ===== src/Parse/Response.antt =====
-- botocore/parsers.py: `ResponseParser.parse`. A parser is its two functions, for a response that succeeded
-- and for one that failed. Header names are compared in lower case, that of ASCII, as the
-- dictionary of the HTTP library does.
use jcsapitest.Prelude.{
  ℕ, String, Option, none, some, [], ◌∷◌, Dict, leb, str_eq, if◌then◌else◌, type_error, value_error,
  Result, ok, raise, ◌>>=◌,
}
use jcsapitest.Value.Int.{pos}
use jcsapitest.Value.{Value, Fields, int, dict, find_field, set_field}
use jcsapitest.Text.Case.{lower}
use jcsapitest.Model.{Shape}

-- headers.get(name), for a name in lower case
unfoldable pub header : String → Dict String → Option String
unfolding lower
header name [] = none
header name ((k, v) ∷ headers) = if str_eq (lower k) name then some v else header name headers

pub record Response : Type 0 where
  pub status_code : ℕ
  pub headers : Dict String
  pub body : String

pub record Parser : Type 0 where
  pub do_parse : Response → Option Shape → Result Value
  pub do_error_parse : Response → Option Shape → Result Value

-- v[k] = w, for a value that may be no dictionary
unfoldable pub set_item : String → Value → Value → Result Value
unfolding set_field
set_item k w (dict fs) = ok (dict (set_field k w fs))
set_item k w v = raise (type_error "object does not support item assignment")

-- d.pop(k), for a key that is there: the dictionary that is left
unfoldable pub remove_field : String → Fields → Fields
remove_field k Fields.end = Fields.end
remove_field k (Fields.field j w fs) =
    let rest = remove_field k fs in if str_eq j k then rest else Fields.field j w rest

-- d.update(fs)
unfoldable pub update_fields : Fields → Fields → Fields
unfolding set_field
update_fields Fields.end fs = fs
update_fields (Fields.field k v new) fs = update_fields new (set_field k v fs)

-- d.update(v), for a value that may be no dictionary
unfoldable pub update_with : Value → Fields → Result Fields
unfolding update_fields
update_with (dict new) fs = ok (update_fields new fs)
update_with (Value.str t) fs =
    if str_eq t "" then ok fs else raise (value_error "dictionary update sequence")
update_with v fs = raise (type_error "object is not iterable")

-- parsed['ResponseMetadata']['HTTPStatusCode'] = status_code, where there is such an entry
unfoldable pub inject_status : ℕ → Value → Result Value
unfolding set_item find_field set_field
inject_status status (dict fs) = elim (find_field "ResponseMetadata" fs) [
  | none ↦ ok (dict fs)
  | some metadata ↦ set_item "HTTPStatusCode" (int (pos status)) metadata >>= λ filled.
      ok (dict (set_field "ResponseMetadata" filled fs))
]
inject_status status v = ok v

-- ResponseParser.parse
unfoldable pub parse : Parser → Response → Option Shape → Result Value
unfolding inject_status
parse p r s = (if leb 301 r.status_code then p.do_error_parse r s else p.do_parse r s) >>= λ parsed.
    inject_status r.status_code parsed
