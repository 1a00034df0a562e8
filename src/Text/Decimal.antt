-- ===== src/Text/Decimal.antt =====
-- int(str(z)) is z, and what a printed number is made of.
use Prim.Native.Char.{Char, code}
use Prim.Native.String.{[], ◌∷◌}
use jcsapitest.Prelude.{
  ℕ, zero, suc, ◌+◌, ◌*◌, ◌/◌, ◌%◌, ◌<◌, ◌≤◌, String, ◌≡◌, refl, false, some, ltb, ◌==◌, arith,
  Bool-cases, inl, inr, ok,
}
use jcsapitest.Value.Int.{pos}
use jcsapitest.Text.{
  digit, digits_from, show_int, is_space, lstrip, rstrip, strip, digit_value, read_digits,
  read_signed, int_of,
}

abbrev pub IsDigit : Char → Type 0
IsDigit c = (b'0' ≤ code c) × (code c ≤ b'9')

abbrev pub AllDigits : String → Type 0
AllDigits [] = Unit {0}
AllDigits (c ∷ s) = IsDigit c × AllDigits s

digit-IsDigit : (n : ℕ) → IsDigit (digit n)
unfolding digit
digit-IsDigit n = ground arith

digit_value-digit : (n : ℕ) → digit_value (digit n) ≡ some (n % 10)
unfolding digit
digit_value-digit n = ground arith

digits_from-AllDigits :
    (fuel n : ℕ) (done : String) → AllDigits done → AllDigits (digits_from fuel n done)
unfolding digits_from
digits_from-AllDigits zero n done h = h
digits_from-AllDigits (suc fuel) n done h = elim (Bool-cases (ltb n 10)) [
  | inl small ↦ rw (small, digits_from) (digit-IsDigit n, h)
  | inr big ↦
      rw (big, digits_from)
        (digits_from-AllDigits fuel (n / 10) (digit n ∷ done) (digit-IsDigit n, h))
]

read_digits-step :
    (k n : ℕ) (done : String) → read_digits k (digit n ∷ done) ≡ read_digits (k * 10 + n % 10) done
unfolding read_digits
read_digits-step k n done = rw (digit_value-digit n, read_digits) refl

read_digits-digits_from :
    (fuel n : ℕ) (done : String)
    → n < fuel
    → read_digits 0 (digits_from fuel n done) ≡ read_digits n done
unfolding digits_from
read_digits-digits_from zero n done h = absurd (omega arith)
read_digits-digits_from (suc fuel) n done h = elim (Bool-cases (ltb n 10)) [
  | inl small ↦
      let last : 0 * 10 + n % 10 ≡ n = ground arith in
      rw (small, digits_from, read_digits-step 0 n done, last) refl
  | inr big ↦
      let smaller : n / 10 < fuel = ground arith in
      let joined : n / 10 * 10 + n % 10 ≡ n = omega arith in
      rw
        (
          big,
          digits_from,
          read_digits-digits_from fuel (n / 10) (digit n ∷ done) smaller,
          read_digits-step (n / 10) n done,
          joined,
        )
        refl
]

not_space : (c : Char) → IsDigit c → is_space c ≡ false
not_space c h = ground arith

lstrip-AllDigits : (s : String) → AllDigits s → lstrip s ≡ s
unfolding lstrip
lstrip-AllDigits [] h = refl
lstrip-AllDigits (c ∷ s) h = rw (not_space c h.0, lstrip) refl

rstrip-AllDigits : (s : String) → AllDigits s → rstrip s ≡ s
unfolding rstrip
rstrip-AllDigits [] h = refl
rstrip-AllDigits (c ∷ []) h = rw (not_space c h.0, rstrip) refl
rstrip-AllDigits (c ∷ d ∷ s) h = rw (rstrip-AllDigits (d ∷ s) h.1, rstrip) refl

-- A text that read_unsigned reads after a digit
pub digits-AllDigits : (n : ℕ) → AllDigits (digits_from (suc n) n "")
digits-AllDigits n = digits_from-AllDigits (suc n) n "" tt

strip-AllDigits : (s : String) → AllDigits s → strip s ≡ s
unfolding strip
strip-AllDigits s h = rw (lstrip-AllDigits s h, rstrip-AllDigits s h) refl

-- There is a digit at least.
digits_from-cons :
    (fuel n : ℕ) (c : Char) (done : String)
    → (d : Char) × (t : String) × (digits_from fuel n (c ∷ done) ≡ d ∷ t)
unfolding digits_from
digits_from-cons zero n c done = (c, done, refl)
digits_from-cons (suc fuel) n c done = elim (Bool-cases (ltb n 10)) [
  | inl small ↦ (digit n, c ∷ done, rw (small, digits_from) refl)
  | inr big ↦ rw (big, digits_from) (digits_from-cons fuel (n / 10) (digit n) (c ∷ done))
]

digits-cons : (n : ℕ) → (d : Char) × (t : String) × (digits_from (suc n) n "" ≡ d ∷ t)
unfolding digits_from
digits-cons n = elim (Bool-cases (ltb n 10)) [
  | inl small ↦ (digit n, "", rw (small, digits_from) refl)
  | inr big ↦ rw (big, digits_from) (digits_from-cons n (n / 10) (digit n) "")
]

read_signed-digits :
    (d : Char) (t : String) (n : ℕ)
    → IsDigit d
    → read_digits 0 (d ∷ t) ≡ some n
    → read_signed (d ∷ t) ≡ some (pos n)
read_signed-digits d t n h e =
    let not_minus : (code d == b'-') ≡ false = ground arith in
    let not_plus : (code d == b'+') ≡ false = ground arith in rw (not_minus, not_plus, e) refl

int_of-digits :
    (d : Char) (t : String) (n : ℕ)
    → AllDigits (d ∷ t)
    → read_digits 0 (d ∷ t) ≡ some n
    → int_of (d ∷ t) ≡ ok (pos n)
unfolding int_of
int_of-digits d t n all e =
    rw (strip-AllDigits (d ∷ t) all, read_signed-digits d t n all.0 e, int_of) refl

-- int(str(n))
pub int_of-show_int : (n : ℕ) → int_of (show_int (pos n)) ≡ ok (pos n)
unfolding show_int read_digits
int_of-show_int n =
    let (d, t, e) = digits-cons n in
    let all : AllDigits (d ∷ t) = rw (e) at (digits-AllDigits n) in
    let read : read_digits 0 (d ∷ t) ≡ some n =
      rw (e) at (read_digits-digits_from (suc n) n "" (omega arith)) in
    rw (show_int, e) (int_of-digits d t n all read)

pub show_int-AllDigits : (n : ℕ) → AllDigits (show_int (pos n))
unfolding show_int
show_int-AllDigits n = digits-AllDigits n
