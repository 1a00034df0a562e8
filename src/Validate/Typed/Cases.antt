-- ===== src/Validate/Typed/Cases.antt =====
-- Where the validator of botocore/validate.py looks into a dictionary or a list, and where it does not.
use jcsapitest.Prelude.{String, Bool, ◌≡◌, ◌⊎◌, inl, inr, refl, Result}
use jcsapitest.Value.{Value, Items, Fields}
use jcsapitest.Model.{TypeName, Shape, ShapeMap}
use jcsapitest.Validate.{Path_, validate_scalar, validate}

module _ (shapes : ShapeMap) (to_datetime : Value → Result (Unit {0}))
    (has_read : String → Bool) where
  -- A dictionary is looked into for a structure and for a map only.
  pub dict_cases :
      (s : Shape) (t : TypeName)
      → s.type_name ≡ t
      → (s.type_name ≡ TypeName.structure)
        ⊎ ((s.type_name ≡ TypeName.map)
            ⊎ ((name : Path_) (fs : Fields)
                → validate shapes to_datetime has_read name (Value.dict fs) s
                  ≡ validate_scalar shapes to_datetime has_read name (Value.dict fs) s))
  unfolding validate validate_scalar
  dict_cases s TypeName.structure k = inl k
  dict_cases s TypeName.map k = inr (inl k)
  dict_cases s TypeName.list k = inr (inr (λ name fs. rw (k, validate, validate_scalar) refl))
  dict_cases s TypeName.string k = inr (inr (λ name fs. rw (k, validate, validate_scalar) refl))
  dict_cases s TypeName.integer k = inr (inr (λ name fs. rw (k, validate, validate_scalar) refl))
  dict_cases s TypeName.long k = inr (inr (λ name fs. rw (k, validate, validate_scalar) refl))
  dict_cases s TypeName.double k = inr (inr (λ name fs. rw (k, validate, validate_scalar) refl))
  dict_cases s TypeName.float k = inr (inr (λ name fs. rw (k, validate, validate_scalar) refl))
  dict_cases s TypeName.boolean k = inr (inr (λ name fs. rw (k, validate, validate_scalar) refl))
  dict_cases s TypeName.blob k = inr (inr (λ name fs. rw (k, validate, validate_scalar) refl))
  dict_cases s TypeName.timestamp k = inr (inr (λ name fs. rw (k, validate, validate_scalar) refl))
  dict_cases s (TypeName.unknown u) k =
      inr (inr (λ name fs. rw (k, validate, validate_scalar) refl))

  -- A list is looked into for a list only.
  pub list_cases :
      (s : Shape) (t : TypeName)
      → s.type_name ≡ t
      → (s.type_name ≡ TypeName.list)
        ⊎ ((name : Path_) (vs : Items)
            → validate shapes to_datetime has_read name (Value.list vs) s
              ≡ validate_scalar shapes to_datetime has_read name (Value.list vs) s)
  unfolding validate validate_scalar
  list_cases s TypeName.list k = inl k
  list_cases s TypeName.structure k = inr (λ name vs. rw (k, validate, validate_scalar) refl)
  list_cases s TypeName.map k = inr (λ name vs. rw (k, validate, validate_scalar) refl)
  list_cases s TypeName.string k = inr (λ name vs. rw (k, validate, validate_scalar) refl)
  list_cases s TypeName.integer k = inr (λ name vs. rw (k, validate, validate_scalar) refl)
  list_cases s TypeName.long k = inr (λ name vs. rw (k, validate, validate_scalar) refl)
  list_cases s TypeName.double k = inr (λ name vs. rw (k, validate, validate_scalar) refl)
  list_cases s TypeName.float k = inr (λ name vs. rw (k, validate, validate_scalar) refl)
  list_cases s TypeName.boolean k = inr (λ name vs. rw (k, validate, validate_scalar) refl)
  list_cases s TypeName.blob k = inr (λ name vs. rw (k, validate, validate_scalar) refl)
  list_cases s TypeName.timestamp k = inr (λ name vs. rw (k, validate, validate_scalar) refl)
  list_cases s (TypeName.unknown u) k = inr (λ name vs. rw (k, validate, validate_scalar) refl)
