-- ===== src/Prelude/Python.antt =====
-- Python's exceptions as values. An exception carries the names of its class and of that class's
-- ancestors, so that an `except` clause is a test of membership, and its message or argument.
use Prim.Native.String.{String}
use mathlib.Core.Path.{◌≡◌, refl}
use mathlib.Core.Bool.{Bool, true, false}
use mathlib.Core.Logic.{◌⊎◌, inl, inr}
use mathlib.Core.Option.{Option, none, some}
use mathlib.Core.List.{List, [], ◌∷◌}
use jcsapitest.Prelude.Tests.{str_eq}
use jcsapitest.Prelude.Lists.{any}

pub record Exception : Type 0 where
  pub classes : List String
  pub message : String

-- isinstance(e, name)
unfoldable pub isinstance : Exception → String → Bool
unfolding any
isinstance e name = any (str_eq name) e.classes

-- An exception of a class that stands directly below `Exception`.
abbrev pub exception : String → String → Exception
exception name text = record { classes = name ∷ "Exception" ∷ "BaseException" ∷ []; message = text }

-- An exception of a class below botocore/exceptions.py's `BotoCoreError`.
abbrev pub boto_error : String → String → Exception
boto_error name text = record {
  classes = name ∷ "BotoCoreError" ∷ "Exception" ∷ "BaseException" ∷ [];
  message = text;
}

-- KeyError is a LookupError in Python.
abbrev pub key_error : String → Exception
key_error key = record {
  classes = "KeyError" ∷ "LookupError" ∷ "StandardError" ∷ "Exception" ∷ "BaseException" ∷ [];
  message = key;
}

abbrev pub value_error : String → Exception
value_error text = record {
  classes = "ValueError" ∷ "StandardError" ∷ "Exception" ∷ "BaseException" ∷ [];
  message = text;
}

abbrev pub index_error : String → Exception
index_error text = record {
  classes = "IndexError" ∷ "LookupError" ∷ "StandardError" ∷ "Exception" ∷ "BaseException" ∷ [];
  message = text;
}

abbrev pub type_error : String → Exception
type_error text = record {
  classes = "TypeError" ∷ "StandardError" ∷ "Exception" ∷ "BaseException" ∷ [];
  message = text;
}

abbrev pub attribute_error : String → Exception
attribute_error text = record {
  classes = "AttributeError" ∷ "StandardError" ∷ "Exception" ∷ "BaseException" ∷ [];
  message = text;
}

-- The outcome of a call: a value, or an exception on its way up.
pub data Result {ℓ} (A : Type ℓ) : Type ℓ where
  ok : A → Result A
  raise : Exception → Result A

-- What follows a call: an exception goes past it.
infixl 5 ◌>>=◌ ◌>>◌
abbrev pub ◌>>=◌ {ℓ κ} : {B : Type κ} {A : Type ℓ} (m : Result A) (k : A → Result B) → Result B
raise x >>= k = raise x
ok v >>= k = k v

abbrev pub ◌>>◌ {ℓ} : {A : Type ℓ} (first : Result (Unit {0})) (second : Result A) → Result A
first >> second = first >>= (λ done. second)

-- The outcomes of a call, with the equation kept.
pub Result-cases {ℓ} :
    {A : Type ℓ} (r : Result A) → ((x : Exception) × (r ≡ raise x)) ⊎ ((a : A) × (r ≡ ok a))
Result-cases (raise x) = inl (x, refl)
Result-cases (ok a) = inr (a, refl)

pub Answer-cases {ℓ} :
    {A : Type ℓ} (r : Result (Option A))
    → ((x : Exception) × (r ≡ raise x)) ⊎ ((r ≡ ok none) ⊎ ((a : A) × (r ≡ ok (some a))))
Answer-cases (raise x) = inl (x, refl)
Answer-cases (ok none) = inr (inl refl)
Answer-cases (ok (some a)) = inr (inr (a, refl))

pub Test-cases :
    (r : Result Bool) → ((x : Exception) × (r ≡ raise x)) ⊎ ((r ≡ ok true) ⊎ (r ≡ ok false))
Test-cases (raise x) = inl (x, refl)
Test-cases (ok true) = inr (inl refl)
Test-cases (ok false) = inr (inr refl)

-- Both steps of a chain that returned did.
pub >>=-eq-ok {ℓ κ} :
    {B : Type κ} {A : Type ℓ} (m : Result A) (k : A → Result B) {w : B}
    → m >>= k ≡ ok w
    → (v : A) × (m ≡ ok v) × (k v ≡ ok w)
>>=-eq-ok (raise x) k returned = cc
>>=-eq-ok (ok v) k returned = (v, refl, returned)

-- What a call returned, as one value.
pub ok-inj {ℓ} : {A : Type ℓ} {a b : A} → ok a ≡ ok b → a ≡ b
ok-inj e = cc

-- The same call before steps that agree
pub >>=-congr {ℓ κ} :
    {B : Type κ} {A : Type ℓ} (m : Result A) (k k' : A → Result B)
    → ((a : A) → k a ≡ k' a)
    → (m >>= k) ≡ (m >>= k')
>>=-congr (raise x) k k' same = refl
>>=-congr (ok a) k k' same = same a
