-- ===== src/Paginate/Tokens.antt =====
-- botocore/paginate.py: the resume token, one text for the tokens of the service and an index into the
-- page, and `PageIterator._parse_starting_token`. `to_text` stands for str of a token that is a float,
-- a list, a dictionary or another object.
pub mod Split
pub mod RoundTrip
use Prim.Native.Char.{Char, code}
use jcsapitest.Prelude.{
  ℕ, ◌+◌, String, Bool, true, false, ◌&&◌, List, [], ◌∷◌, map, ◌==◌, length, str_eq, if◌then◌else◌,
  isinstance, value_error, Result, ok, raise, ◌>>=◌,
}
use jcsapitest.Value.Int.{ℤ, pos}
use jcsapitest.Value.{Value, str, null}
use jcsapitest.Text.{concat, int_of, show_int}

-- '___'
abbrev pub separator : String
separator = "___"

-- '___'.join(parts)
unfoldable pub join : List String → String
unfolding concat
join [] = ""
join (p ∷ []) = p
join (p ∷ q ∷ ps) = concat p (concat separator (join (q ∷ ps)))

abbrev pub is_mark : Char → Bool
is_mark c = code c == b'_'

abbrev pub is_separator : Char → Char → Char → Bool
is_separator c d e = is_mark c && is_mark d && is_mark e

abbrev pub push_char : Char → List String → List String
push_char c [] = (String.◌∷◌ c String.[]) ∷ []
push_char c (p ∷ ps) = (String.◌∷◌ c p) ∷ ps

-- s.split('___'): the first occurrence counts.
unfoldable pub split : String → List String
split (String.◌∷◌ c (String.◌∷◌ d (String.◌∷◌ e s))) = elim (is_separator c d e) [
  | true ↦ "" ∷ split s
  | false ↦ push_char c (split (String.◌∷◌ d (String.◌∷◌ e s)))
]
split s = s ∷ []

module _ (to_text : Value → String) where
  -- str(v)
  unfoldable pub token_text : Value → String
  unfolding show_int
  token_text Value.null = "None"
  token_text (Value.str s) = s
  token_text (Value.int z) = show_int z
  token_text (Value.bool true) = "True"
  token_text (Value.bool false) = "False"
  token_text v = to_text v

  -- The setter of resume_token
  unfoldable pub resume_text : List Value → String
  unfolding join token_text
  resume_text tokens = join (map token_text tokens)

abbrev pub parse_part : String → Value
parse_part p = if str_eq p "None" then null else str p

-- parts.pop()
abbrev pub last_part : List String → String
last_part [] = ""
last_part (p ∷ []) = p
last_part (p ∷ q ∷ ps) = last_part (q ∷ ps)

abbrev pub other_parts : List String → List String
other_parts [] = []
other_parts (p ∷ []) = []
other_parts (p ∷ q ∷ ps) = p ∷ other_parts (q ∷ ps)

-- int(parts.pop())
unfoldable pub read_index : String → Result ℤ
unfolding int_of isinstance
read_index p = elim (int_of p) [
  | ok i ↦ ok i
  | raise e ↦
      if isinstance e "ValueError" then raise (value_error "Bad starting token") else raise e
]

-- _parse_starting_token, where there is one: the service has `count` tokens.
unfoldable pub parse_starting_token : (count : ℕ) → String → Result (List Value × ℤ)
unfolding split read_index
parse_starting_token count starting_token =
    let parts = split starting_token in
    if length parts == count + 1
    then (read_index (last_part parts) >>= λ index. ok (map parse_part (other_parts parts), index))
    else ok (map parse_part parts, pos 0)
