-- ===== src/Serialize/Names.antt =====
-- botocore/serialize.py: the names and prefixes of the query serializers. Upper case is that of ASCII.
use Prim.Native.Char.{Char, char, code, IsScalar}
use Prim.Native.Nat.{compare, Ordering}
use jcsapitest.Prelude.{
  ℕ, ◌+◌, ◌-◌, ◌%◌, ◌<◌, ◌≡◌, arith, String, Bool, true, false, ◌&&◌, ◌||◌, ◌==◌, Option, none,
  some, List, [], ◌∷◌, get, leb, str_eq, if◌then◌else◌, Exception, index_error, Result, ok, raise,
}
use jcsapitest.Value.Int.{pos}
use jcsapitest.Text.{concat, show_int}
use jcsapitest.Utils.{split_dot}
use jcsapitest.Model.{Shape}

pub data Protocol : Type 0 where
  query ec2 : Protocol

letter-lt : (n : ℕ) → n < 55296 → compare n 55296 ≡ Ordering.lt
letter-lt n h = ground arith

pub letter-IsScalar : (n : ℕ) → IsScalar (b'A' + n % 26)
letter-IsScalar n = rw (letter-lt (b'A' + n % 26) (omega arith)) tt

-- c.upper(), for ASCII
unfoldable pub upper : Char → Char
upper c =
    if leb b'a' (code c) && leb (code c) b'z'
    then char (b'A' + (code c - b'a') % 26) (letter-IsScalar (code c - b'a'))
    else c

abbrev pub empty_name : Exception
empty_name = index_error "string index out of range"

-- name[0].upper() + name[1:]
unfoldable pub capitalize : String → Result String
unfolding upper
capitalize String.[] = raise empty_name
capitalize (String.◌∷◌ c s) = ok (String.◌∷◌ (upper c) s)

-- shape.serialization.get(attribute), where 'name' stands for locationName
abbrev pub attribute : String → Shape → Option String
attribute k s = get k s.model.traits.serialization

unfoldable pub get_serialized_name : Protocol → Shape → String → Result String
unfolding get capitalize
get_serialized_name query s default = elim (attribute "locationName" s) [
  | none ↦ ok default
  | some name ↦ ok name
]
get_serialized_name ec2 s default = elim (attribute "queryName" s) [
  | some name ↦ ok name
  | none ↦ elim (attribute "locationName" s) [ none ↦ ok default | some name ↦ capitalize name ]
]

-- A text that is not empty stands for a true value.
unfoldable pub is_shape_flattened : Shape → Bool
unfolding get
is_shape_flattened s = elim (attribute "flattened" s) [
  | none ↦ false
  | some value ↦ if str_eq value "" then false else true
]

-- prefix + '.' + name
unfoldable pub dot_join : String → String → String
unfolding concat
dot_join prefix name = concat prefix (concat "." name)

abbrev pub member_prefix : String → String → String
member_prefix prefix name = if str_eq prefix "" then name else dot_join prefix name

unfoldable pub join_dots : List String → String
unfolding dot_join
join_dots [] = ""
join_dots (p ∷ []) = p
join_dots (p ∷ q ∷ ps) = dot_join p (join_dots (q ∷ ps))

-- prefix.split('.')[:-1] + [name]
abbrev pub with_last : List String → String → List String
with_last [] name = name ∷ []
with_last (p ∷ []) name = name ∷ []
with_last (p ∷ q ∷ ps) name = p ∷ with_last (q ∷ ps) name

-- The prefix of the elements of a list that is not empty
unfoldable pub list_prefix : Protocol → Shape → Shape → String → String
unfolding is_shape_flattened get join_dots split_dot
list_prefix ec2 s member prefix = prefix
list_prefix query s member prefix =
    if is_shape_flattened s
    then elim (attribute "locationName" member) [
      | none ↦ prefix
      | some name ↦ if str_eq name "" then prefix else join_dots (with_last (split_dot prefix) name)
    ]
    else dot_join prefix "member"

abbrev pub map_prefix : Shape → String → String
map_prefix s prefix = if is_shape_flattened s then prefix else dot_join prefix "entry"

-- '%s.%s' % (prefix, i)
unfoldable pub numbered : String → ℕ → String
unfolding dot_join show_int
numbered prefix i = dot_join prefix (show_int (pos i))

-- Whether a text has one of the characters that str.format takes for more than themselves
unfoldable pub has_curly : String → Bool
has_curly String.[] = false
has_curly (String.◌∷◌ c s) = code c == b'{' || (code c == b'}' || has_curly s)

-- template.format(i=i, suffix=suffix), where the template is the prefix with '.{i}.{suffix}' behind it; `format`
-- is what str.format does if the prefix itself has a brace.
unfoldable pub entry_name :
    (String → ℕ → String → Result String) → String → ℕ → String → Result String
unfolding has_curly numbered dot_join
entry_name format prefix i suffix =
    if has_curly prefix then format prefix i suffix else ok (dot_join (numbered prefix i) suffix)
