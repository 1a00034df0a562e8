-- ===== src/Parse/Rest/Json.antt =====
-- botocore/parsers.py: `RestJSONParser`.
use jcsapitest.Prelude.{
  ℕ, String, ◌||◌, Option, none, some, ◌==◌, str_eq, if◌then◌else◌, type_error, Result, ok, raise,
  ◌>>=◌,
}
use Prim.Native.Char.{code}
use jcsapitest.Value.Int.{pos}
use jcsapitest.Value.{Value, Fields, str, int, dict, field, end, has_field, get_or, set_field}
use jcsapitest.Model.{Shape, ShapeMap}
use jcsapitest.Parse.Response.{Response, Parser, header}
use jcsapitest.Parse.Json as Json
use jcsapitest.Parse.Json.{message_of}
use jcsapitest.Parse.Rest.{Format}
use jcsapitest.Parse.Rest as Rest

-- code.split(':')[0]
unfoldable pub before_colon : String → String
before_colon String.[] = String.[]
before_colon (String.◌∷◌ c s) =
    let rest = before_colon s in if code c == b':' then String.[] else String.◌∷◌ c rest

-- body.get('code', body.get('Code', '')), where one of them is there
abbrev pub body_code : Fields → Fields → Result Fields
body_code fs error =
    if has_field "code" fs || has_field "Code" fs
    then (get_or "Code" (str "") (dict fs) >>= λ other.
        get_or "code" other (dict fs) >>= λ code. ok (set_field "Code" code error))
    else ok error

-- The code of an error: that of the header, or else that of the body
unfoldable pub error_code : Option String → Value → Fields → Result Fields
unfolding before_colon has_field get_or set_field
error_code (some t) body error = ok (set_field "Code" (str (before_colon t)) error)
error_code none (Value.dict fs) error = body_code fs error
error_code none v error = raise (type_error "argument is not iterable")

module _ (loads : String → Result Value) (decode : String → Result String) (shapes : ShapeMap)
    (parse_timestamp parse_blob : Value → Result Value) (depth : ℕ) where
  -- RestJSONParser._initial_body_parse
  unfoldable pub initial_body_parse : String → Result Value
  initial_body_parse body = if str_eq body "" then ok (dict end) else loads body

  unfoldable pub format : Format Value
  unfolding initial_body_parse Json.parse_shape
  format = record {
    parse_status = λ s n. Json.parse_shape shapes parse_timestamp parse_blob depth (int (pos n)) s;
    parse_header = λ s t. Json.parse_shape shapes parse_timestamp parse_blob depth (str t) s;
    initial_body_parse = initial_body_parse;
    parse_body = λ s v. Json.parse_shape shapes parse_timestamp parse_blob depth v s;
  }

  -- RestJSONParser._do_error_parse
  unfoldable pub do_error_parse : Response → Option Shape → Result Value
  unfolding initial_body_parse message_of error_code header
  do_error_parse r s = initial_body_parse r.body >>= λ body. message_of (str "") body >>= λ message.
      error_code (header "x-amzn-errortype" r.headers) body (field "Message" message end)
      >>= λ error. ok (dict (field "Error" (dict error) (field "ResponseMetadata" (dict end) end)))

  unfoldable pub rest_json_parser : Parser
  unfolding format Rest.do_parse do_error_parse
  rest_json_parser = record {
    do_parse = λ r s. Rest.do_parse format r decode shapes s;
    do_error_parse = do_error_parse;
  }
