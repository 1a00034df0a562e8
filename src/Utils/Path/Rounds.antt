-- ===== src/Utils/Path/Rounds.antt =====
-- The rounds of `remove_dot_segments` of botocore/utils.py on a path that begins with a slash.
use jcsapitest.Prelude.{
  ℕ, zero, suc, ◌≤◌, ◌≡◌, inl, inr, refl, false, Bool-cases, List, [], ◌∷◌, ◌==◌, length, drop,
  arith,
}
use jcsapitest.Utils.Path.{
  slash, dot, Text, starts_with, is_dots, before_slash, from_slash, pop, push_segment, step,
}
use jcsapitest.Utils.Path.Normal.{IsRest, at_slash, AllClean}

-- A slash at the end is a segment, and so is a slash with a name that does not begin with a dot.
pub step-slash : (output : List Text) → step (slash ∷ []) output ≡ ([], (slash ∷ []) ∷ output)
unfolding step
step-slash output = refl

is_dots-slash : (c : ℕ) (cs : Text) → is_dots (slash ∷ c ∷ cs) ≡ false
unfolding is_dots
is_dots-slash c [] = refl
is_dots-slash c (d ∷ cs) = refl

pub step-push :
    (c : ℕ) (cs : Text) (output : List Text)
    → (c == dot) ≡ false
    → (c == slash) ≡ false
    → step (slash ∷ c ∷ cs) output ≡ (from_slash cs, (slash ∷ c ∷ before_slash cs) ∷ output)
unfolding step starts_with push_segment before_slash from_slash
step-push c cs output d e =
    let d' : (dot == c) ≡ false = ground arith in
    let e' : (slash == c) ≡ false = ground arith in rw (d', e', is_dots-slash c cs, e) refl

pub step-double :
    (cs : Text) (output : List Text) → step (slash ∷ slash ∷ cs) output ≡ (slash ∷ cs, output)
unfolding step starts_with
step-double cs output = rw (is_dots-slash slash cs) refl

drop-length : (n : ℕ) (cs : Text) → length (drop n cs) ≤ length cs
drop-length zero cs = omega arith
drop-length (suc n) [] = omega arith
drop-length (suc n) (c ∷ cs) = omega (arith, drop-length n cs)

pop-AllClean : (output : List Text) → AllClean output → AllClean (pop output)
pop-AllClean [] h = tt
pop-AllClean (s ∷ output) h = h.1

-- A round that goes on from `url`: the path is shorter, still absolute, and the segments are clean.
abbrev pub GoesOn : ℕ → Text × List Text → Type 0
GoesOn size next = (suc (length next.0) ≤ size) × IsRest next.0 × AllClean next.1

pub step-dot :
    (cs : Text) (output : List Text)
    → AllClean output
    → GoesOn (length (slash ∷ dot ∷ cs)) (step (slash ∷ dot ∷ cs) output)
unfolding step starts_with
step-dot cs output all = elim (Bool-cases (starts_with (slash ∷ []) cs)) [
  | inl one ↦ rw (one) (omega (arith, drop-length 1 cs), at_slash _, all)
  | inr not_one ↦ elim (Bool-cases (starts_with (dot ∷ slash ∷ []) cs)) [
    | inl two ↦
        rw (not_one, two) (omega (arith, drop-length 2 cs), at_slash _, pop-AllClean output all)
    | inr not_two ↦ elim (Bool-cases (starts_with (dot ∷ []) cs)) [
      | inl last ↦
          rw (not_one, not_two, last)
            (omega (arith, drop-length 1 cs), at_slash _, pop-AllClean output all)
      | inr name ↦ rw (not_one, not_two, name) (omega arith, at_slash _, all)
    ]
  ]
]
