-- ===== src/Text.antt =====
-- What the client's modules use of Python's texts: int(s), str(n), strip, join and split. White space is
-- that of ASCII.
pub mod Decimal
pub mod Case
pub mod Sorted
use Prim.Native.Char.{Char, char, code, IsScalar}
use Prim.Native.Nat.{compare, Ordering}
use Prim.Native.String.{[], ◌∷◌}
use jcsapitest.Prelude.{
  ℕ, zero, suc, ◌<◌, ◌≡◌, arith, ◌+◌, ◌-◌, ◌*◌, ◌/◌, ◌%◌, String, Bool, true, false, ◌&&◌, ◌||◌,
  Option, none, some, leb, ltb, ◌==◌, if◌then◌else◌, value_error, Result, ok, raise,
}
use jcsapitest.Value.Int.{ℤ, pos, negsuc}

below-lt : (n : ℕ) → n < 55296 → compare n 55296 ≡ Ordering.lt
below-lt n h = ground arith

pub digit-IsScalar : (n : ℕ) → IsScalar (b'0' + n % 10)
digit-IsScalar n = rw (below-lt (b'0' + n % 10) (omega arith)) tt

-- The last digit of n
unfoldable pub digit : ℕ → Char
digit n = char (b'0' + n % 10) (digit-IsScalar n)

-- The digits of n in front of `done`; there is fuel for more digits than n.
unfoldable pub digits_from : ℕ → ℕ → String → String
unfolding digit
digits_from zero n done = done
digits_from (suc fuel) n done = elim (ltb n 10) [
  | true ↦ digit n ∷ done
  | false ↦ digits_from fuel (n / 10) (digit n ∷ done)
]

-- s + t
unfoldable pub concat : String → String → String
concat [] t = t
concat (c ∷ s) t = c ∷ concat s t

-- str(z)
unfoldable pub show_int : ℤ → String
unfolding digits_from
show_int (pos n) = digits_from (suc n) n ""
show_int (negsuc n) = "-" ∷ digits_from (suc (suc n)) (suc n) ""

abbrev pub is_space : Char → Bool
is_space c = leb 9 (code c) && leb (code c) 13 || code c == 32

unfoldable pub lstrip : String → String
lstrip [] = []
lstrip (c ∷ s) = let rest = lstrip s in if is_space c then rest else c ∷ s

unfoldable pub rstrip : String → String
rstrip [] = []
rstrip (c ∷ s) = elim (rstrip s) [ [] ↦ if is_space c then [] else c ∷ [] | d ∷ t ↦ c ∷ d ∷ t ]

unfoldable pub strip : String → String
unfolding lstrip rstrip
strip s = rstrip (lstrip s)

abbrev pub digit_value : Char → Option ℕ
digit_value c = if leb b'0' (code c) && leb (code c) b'9' then some (code c - b'0') else none

unfoldable pub read_digits : ℕ → String → Option ℕ
read_digits n [] = some n
read_digits n (c ∷ s) = elim (digit_value c) [ none ↦ none | some d ↦ read_digits (n * 10 + d) s ]

-- Digits behind the sign, at least one
abbrev pub read_unsigned : String → Option ℕ
read_unsigned [] = none
read_unsigned (c ∷ s) = read_digits 0 (c ∷ s)

abbrev pub negate : ℕ → ℤ
negate zero = pos 0
negate (suc n) = negsuc n

abbrev pub read_signed : String → Option ℤ
read_signed [] = none
read_signed (c ∷ s) =
    if code c == b'-'
    then elim (read_unsigned s) [ none ↦ none | some n ↦ some (negate n) ]
    else if code c == b'+'
    then elim (read_unsigned s) [ none ↦ none | some n ↦ some (pos n) ]
    else elim (read_unsigned (c ∷ s)) [ none ↦ none | some n ↦ some (pos n) ]

-- int(s)
unfoldable pub int_of : String → Result ℤ
unfolding strip read_digits
int_of s = elim (read_signed (strip s)) [
  | none ↦ raise (value_error "invalid literal for int() with base 10")
  | some z ↦ ok z
]
