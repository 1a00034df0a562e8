-- ===== src/Validate/Typed/Decides.antt =====
-- The validator of botocore/validate.py decides whether a parameter has its shape's type, and what
-- `ParamValidationDecorator` lets through to the serializer.
use jcsapitest.Prelude.{
  String, ◌≡◌, ◌≢◌, ◌⊎◌, ◌↔◌, inl, inr, refl, Bool, some, List, [], ◌∷◌, Exception, Result, ok,
  raise, Result-cases,
}
use jcsapitest.Value.{Value}
use jcsapitest.Model.{Shape, ShapeMap}
use jcsapitest.Validate.{
  Error, Report, Path_, validate, param_validation_error, validate_parameters, serialize_to_request,
}
use jcsapitest.Validate.Typed.{HasType}
use jcsapitest.Validate.Typed.Reports.{clean}
use jcsapitest.Validate.Typed.Sound.{validate-Typed}
use jcsapitest.Validate.Typed.Complete.{validate-clean}

reported_more : (e : Error) (es : List Error) → ◌≢◌ {A = Report} (ok (e ∷ es)) clean
reported_more e es h = let bad : e ∷ es ≡ [] = cc in cc

module _ (shapes : ShapeMap) (to_datetime : Value → Result (Unit {0}))
    (has_read : String → Bool) where
  -- The validator ends without an exception and reports no error exactly for the values that have the
  -- type of the shape, at whatever place in the parameters they stand.
  pub validate_iff :
      (name : Path_) (v : Value) (s : Shape)
      → (validate shapes to_datetime has_read name v s ≡ ok [])
        ↔ HasType shapes to_datetime has_read v s
  validate_iff name v s = (
    validate-Typed shapes to_datetime has_read name v s,
    validate-clean shapes to_datetime has_read name v s,
  )

  -- A rejection is the error for the whole report or the exception that ended the validation.
  abbrev pub Rejects : Value → Shape → Exception → Type 0
  Rejects v s e =
      (e ≡ param_validation_error shapes to_datetime has_read)
      ⊎ (validate shapes to_datetime has_read [] v s ≡ raise e)

  -- In front of any serializer, a parameter either has the type of the input shape and reaches the
  -- serializer, whose result is returned; or it does not have the type, and an exception is raised that
  -- does not depend on the serializer: ParamValidationError, or what ended the validation.
  pub serialize-HasType {ℓ} :
      {R : Type ℓ} (serializer : Value → Result R) (v : Value) (s : Shape)
      → (HasType shapes to_datetime has_read v s
          × (serialize_to_request shapes to_datetime has_read serializer v (some s) ≡ serializer v))
        ⊎ (¬ HasType shapes to_datetime has_read v s
            × ((e : Exception) × Rejects v s e
                × (serialize_to_request shapes to_datetime has_read serializer v (some s)
                    ≡ raise e)))
  unfolding serialize_to_request validate_parameters
  serialize-HasType serializer v s =
      elim (Result-cases (validate shapes to_datetime has_read [] v s)) [
        | inl (e, raised) ↦ inr (
          λ typed. cc (raised, validate-clean shapes to_datetime has_read [] v s typed),
          (e, inr raised, rw (raised, serialize_to_request, validate_parameters) refl),
        )
        | inr ([], reports) ↦ inl (
          validate-Typed shapes to_datetime has_read [] v s reports,
          rw (reports, serialize_to_request, validate_parameters) refl,
        )
        | inr (x ∷ es, reports) ↦ inr (
          λ typed.
              reported_more x es
                (cc (reports, validate-clean shapes to_datetime has_read [] v s typed)),
          (
            param_validation_error shapes to_datetime has_read,
            inl refl,
            rw (reports, serialize_to_request, validate_parameters) refl,
          ),
        )
      ]
