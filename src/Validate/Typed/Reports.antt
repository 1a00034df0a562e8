-- ===== src/Validate/Typed/Reports.antt =====
-- When the checks of botocore/validate.py report nothing.
use jcsapitest.Prelude.{
  String, ◌≡◌, inl, inr, refl, ap, true, false, Bool, Option, none, some, List, [], ◌∷◌, ◌++◌,
  arith, Dict, get, has, ok, >>=-eq-ok, Bool-cases, Option-cases, ◌||◌,
}
use jcsapitest.Value.Int.{ℤ}
use jcsapitest.Value.{Value, Fields, has_field}
use jcsapitest.Model.{Shape}
use jcsapitest.Validate.{
  Error, Report, Path_, both, report_if, out_of_range, is_below, is_above, missing_fields,
  unknown_fields,
}
use jcsapitest.Validate.Typed.{IsLow, IsHigh, InRange, AllPresent}

-- Nothing is reported.
abbrev pub clean : Report
clean = ok []

append-nil_left : (es fs : List Error) → es ++ fs ≡ [] → (es ≡ []) × (fs ≡ [])
append-nil_left [] fs h = (refl, h)
append-nil_left (e ∷ es) fs h = cc

pub append_clean :
    (es fs : List Error) → ◌≡◌ {A = Report} (ok (es ++ fs)) clean → (es ≡ []) × (fs ≡ [])
append_clean es fs h = let e : es ++ fs ≡ [] = cc in append-nil_left es fs e

pub both-clean : (r q : Report) → both r q ≡ clean → (r ≡ clean) × (q ≡ clean)
both-clean r q h =
    let (es, a, h₁) = >>=-eq-ok r _ h in
    let (fs, b, h₂) = >>=-eq-ok q _ h₁ in
    let (c, d) = append_clean es fs h₂ in
    (cc (a, ap (λ (x : List Error). ok x) c), cc (b, ap (λ (x : List Error). ok x) d))

pub clean-both : (r q : Report) → r ≡ clean → q ≡ clean → both r q ≡ clean
clean-both r q a b = rw (a, b) refl

pub report_if-clean : (b : Bool) (e : Error) → report_if b e ≡ clean → b ≡ false
report_if-clean true e h = let bad : e ∷ [] ≡ [] = cc in cc
report_if-clean false e h = refl

is_below-IsLow : (v : ℤ) (o : Option ℤ) → is_below v o ≡ false → IsLow o v
is_below-IsLow v none h = tt
is_below-IsLow v (some low) h = ground arith

is_above-IsHigh : (v : ℤ) (o : Option ℤ) → is_above v o ≡ false → IsHigh o v
is_above-IsHigh v none h = tt
is_above-IsHigh v (some high) h = ground arith

IsLow-is_below : (v : ℤ) (o : Option ℤ) → IsLow o v → is_below v o ≡ false
IsLow-is_below v none h = refl
IsLow-is_below v (some low) h = ground arith

IsHigh-is_above : (v : ℤ) (o : Option ℤ) → IsHigh o v → is_above v o ≡ false
IsHigh-is_above v none h = refl
IsHigh-is_above v (some high) h = ground arith

or_false : (a b : Bool) → (a || b) ≡ false → (a ≡ false) × (b ≡ false)
or_false false b h = (refl, h)
or_false true b h = cc

pub out_of_range-InRange : (v : ℤ) (s : Shape) → out_of_range v s ≡ false → InRange v s
unfolding out_of_range
out_of_range-InRange v s h =
    let (a, b) =
      or_false (is_below v s.model.traits.minimum) (is_above v s.model.traits.maximum) h in
    (is_below-IsLow v s.model.traits.minimum a, is_above-IsHigh v s.model.traits.maximum b)

pub InRange-out_of_range : (v : ℤ) (s : Shape) → InRange v s → out_of_range v s ≡ false
unfolding out_of_range
InRange-out_of_range v s r =
    let a = IsLow-is_below v s.model.traits.minimum r.0 in
    let b = IsHigh-is_above v s.model.traits.maximum r.1 in rw (a, b) refl

pub missing_fields-AllPresent :
    (name : Path_) (rs : List String) (fs : Fields)
    → missing_fields name rs fs ≡ []
    → AllPresent rs fs
unfolding missing_fields
missing_fields-AllPresent name [] fs h = tt
missing_fields-AllPresent name (r ∷ rs) fs h = elim (Bool-cases (has_field r fs)) [
  | inl there ↦ (there, missing_fields-AllPresent name rs fs (rw (there, missing_fields) at h))
  | inr gone ↦ cc (rw (gone, missing_fields) at h)
]

pub AllPresent-missing_fields :
    (name : Path_) (rs : List String) (fs : Fields)
    → AllPresent rs fs
    → missing_fields name rs fs ≡ []
unfolding missing_fields
AllPresent-missing_fields name [] fs h = refl
AllPresent-missing_fields name (r ∷ rs) fs h =
    rw (h.0, missing_fields) (AllPresent-missing_fields name rs fs h.1)

has-some : (k : String) (ms : Dict Shape) (m : Shape) → get k ms ≡ some m → has k ms ≡ true
unfolding has
has-some k ms m e = rw (e, has) refl

has-none : (k : String) (ms : Dict Shape) → get k ms ≡ none → has k ms ≡ false
unfolding has
has-none k ms e = rw (e, has) refl

-- The head of fields that are all known is known.
pub unknown_fields_head :
    (name : Path_) (ms : Dict Shape) (k : String) (v : Value) (fs : Fields)
    → unknown_fields name ms (Fields.field k v fs) ≡ []
    → ((m : Shape) × (get k ms ≡ some m)) × (unknown_fields name ms fs ≡ [])
unfolding unknown_fields
unknown_fields_head name ms k v fs h = elim (Option-cases (get k ms)) [
  | inl gone ↦ cc (rw (has-none k ms gone, unknown_fields) at h)
  | inr (m, there) ↦ ((m, there), rw (has-some k ms m there, unknown_fields) at h)
]

pub known-unknown_fields :
    (name : Path_) (ms : Dict Shape) (k : String) (v : Value) (fs : Fields) (m : Shape)
    → get k ms ≡ some m
    → unknown_fields name ms fs ≡ []
    → unknown_fields name ms (Fields.field k v fs) ≡ []
unfolding unknown_fields
known-unknown_fields name ms k v fs m there rest = rw (has-some k ms m there, unknown_fields) rest
