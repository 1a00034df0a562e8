-- ===== src/Text/Case.antt =====
-- Python's lower and upper, for ASCII.
use Prim.Native.Char.{Char, char, code, IsScalar}
use Prim.Native.Nat.{compare, Ordering}
use jcsapitest.Prelude.{ℕ, ◌+◌, ◌-◌, ◌%◌, ◌<◌, ◌≡◌, arith, String, ◌&&◌, leb, if◌then◌else◌}

letter-lt : (n : ℕ) → n < 55296 → compare n 55296 ≡ Ordering.lt
letter-lt n h = ground arith

pub small-IsScalar : (n : ℕ) → IsScalar (b'a' + n % 26)
small-IsScalar n = rw (letter-lt (b'a' + n % 26) (omega arith)) tt

pub capital-IsScalar : (n : ℕ) → IsScalar (b'A' + n % 26)
capital-IsScalar n = rw (letter-lt (b'A' + n % 26) (omega arith)) tt

abbrev pub lower_char : Char → Char
lower_char c =
    if leb b'A' (code c) && leb (code c) b'Z'
    then char (b'a' + (code c - b'A') % 26) (small-IsScalar (code c - b'A'))
    else c

abbrev pub upper_char : Char → Char
upper_char c =
    if leb b'a' (code c) && leb (code c) b'z'
    then char (b'A' + (code c - b'a') % 26) (capital-IsScalar (code c - b'a'))
    else c

-- s.lower()
unfoldable pub lower : String → String
lower String.[] = String.[]
lower (String.◌∷◌ c s) = String.◌∷◌ (lower_char c) (lower s)

-- s.upper()
unfoldable pub upper : String → String
upper String.[] = String.[]
upper (String.◌∷◌ c s) = String.◌∷◌ (upper_char c) (upper s)
