-- ===== src/Utils/Path/Normal.antt =====
-- The normal form of the paths of botocore/utils.py.
use jcsapitest.Prelude.{
  ℕ, ◌≤◌, ◌≡◌, inl, inr, refl, false, Bool-cases, List, [], ◌∷◌, ◌++◌, ◌==◌, length, arith, ==_iff,
}
use jcsapitest.Utils.Path.{slash, dot, Text, before_slash, from_slash}

abbrev pub NoSlash : Text → Type 0
NoSlash [] = Unit {0}
NoSlash (c ∷ cs) = ((c == slash) ≡ false) × NoSlash cs

-- The rest of an absolute path: nothing, or from a slash on.
pub data IsRest : Text → Type 0 where
  at_end : IsRest []
  at_slash : (cs : Text) → IsRest (slash ∷ cs)

-- A segment that stays: a slash, and a name that does not begin with a dot.
pub data IsClean : Text → Type 0 where
  clean :
      (c : ℕ) (cs : Text)
      → (c == dot) ≡ false
      → (c == slash) ≡ false
      → NoSlash cs
      → IsClean (slash ∷ c ∷ cs)

abbrev pub AllClean : List Text → Type 0
AllClean [] = Unit {0}
AllClean (s ∷ ss) = IsClean s × AllClean ss

-- Clean segments one after the other, with a slash at the end or without
pub data IsNormal : Text → Type 0 where
  nothing : IsNormal []
  end_slash : IsNormal (slash ∷ [])
  followed : {s r : Text} → IsClean s → IsNormal r → IsNormal (s ++ r)

pub before-NoSlash : (cs : Text) → NoSlash (before_slash cs)
unfolding before_slash
before-NoSlash [] = tt
before-NoSlash (c ∷ cs) = elim (Bool-cases (c == slash)) [
  | inl here ↦ rw (here, before_slash) tt
  | inr other ↦ rw (other, before_slash) (other, before-NoSlash cs)
]

pub from-IsRest : (cs : Text) → IsRest (from_slash cs)
unfolding from_slash
from-IsRest [] = at_end
from-IsRest (c ∷ cs) = elim (Bool-cases (c == slash)) [
  | inl here ↦
      let same : c ≡ slash = (==_iff c slash).0 here in rw (here, from_slash, same) (at_slash cs)
  | inr other ↦ rw (other, from_slash) (from-IsRest cs)
]

pub from-length : (cs : Text) → length (from_slash cs) ≤ length cs
unfolding from_slash
from-length [] = omega arith
from-length (c ∷ cs) = ground (arith, from-length cs)

pub before-append : (cs r : Text) → NoSlash cs → IsRest r → before_slash (cs ++ r) ≡ cs
unfolding before_slash
before-append [] [] h at_end = refl
before-append [] (slash ∷ r) h (at_slash cs) = refl
before-append (c ∷ cs) r h rest = rw (h.0, before_slash, before-append cs r h.1 rest) refl

pub from-append : (cs r : Text) → NoSlash cs → IsRest r → from_slash (cs ++ r) ≡ r
unfolding from_slash
from-append [] [] h at_end = refl
from-append [] (slash ∷ r) h (at_slash cs) = refl
from-append (c ∷ cs) r h rest = rw (h.0, from_slash) (from-append cs r h.1 rest)

pub normal-IsRest : (r : Text) → IsNormal r → IsRest r
normal-IsRest r nothing = at_end
normal-IsRest r end_slash = at_slash []
normal-IsRest r (followed (clean c cs d e h) n) = at_slash _
