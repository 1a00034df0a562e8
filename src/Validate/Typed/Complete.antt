-- ===== src/Validate/Typed/Complete.antt =====
-- The validator of botocore/validate.py reports nothing about a parameter that has its shape's type.
use jcsapitest.Prelude.{
  ℕ, suc, String, ◌≡◌, ◌⊎◌, inl, inr, refl, true, false, Bool, [], ◌∷◌, ◌++◌, Dict, Result, ok,
}
use jcsapitest.Value.Int.{ℤ}
use jcsapitest.Value.{Value, Items, Fields}
use jcsapitest.Model.{TypeName, Shape, ShapeMap, required_members}
use jcsapitest.Validate.{
  Path_, dot, index, key, out_of_range, unknown_fields, validate_integer, validate_double,
  validate_string, validate_boolean, validate_blob, validate_timestamp, validate_scalar, validate,
  validate_known, validate_items, validate_map,
}
use jcsapitest.Validate.Typed.{
  InRange, IsWhole, IsReal, HasType, AreMembers, AllHaveType, AreEntries, text, whole, truth_as_one,
  truth_as_zero, fraction, truth, blob_text, blob_bytes, blob_file, time, structure, list, map,
  no_members, a_member, no_items, an_item, no_entries, an_entry,
}
use jcsapitest.Validate.Typed.Reports.{
  clean, clean-both, InRange-out_of_range, AllPresent-missing_fields, known-unknown_fields,
}

module _ (shapes : ShapeMap) (to_datetime : Value → Result (Unit {0}))
    (has_read : String → Bool) where
  -- A number is looked at in the same way for all numeric types.
  number-clean :
      (name : Path_) (v : Value) (s : Shape)
      → IsWhole s.type_name ⊎ IsReal s.type_name
      → validate_integer name v s ≡ clean
      → validate_double name v s ≡ clean
      → validate_scalar shapes to_datetime has_read name v s ≡ clean
  unfolding validate_scalar
  number-clean name v s (inl (inl k)) a b = rw (k, validate_scalar) a
  number-clean name v s (inl (inr k)) a b = rw (k, validate_scalar) a
  number-clean name v s (inr (inl k)) a b = rw (k, validate_scalar) b
  number-clean name v s (inr (inr k)) a b = rw (k, validate_scalar) b

  real-clean :
      (name : Path_) (v : Value) (s : Shape)
      → IsReal s.type_name
      → validate_double name v s ≡ clean
      → validate_scalar shapes to_datetime has_read name v s ≡ clean
  unfolding validate_scalar
  real-clean name v s (inl k) b = rw (k, validate_scalar) b
  real-clean name v s (inr k) b = rw (k, validate_scalar) b

  -- What is no dictionary and no list is not looked into, and neither is a time.
  timestamp_scalar :
      (name : Path_) (v : Value) (s : Shape)
      → s.type_name ≡ TypeName.timestamp
      → validate shapes to_datetime has_read name v s
        ≡ validate_scalar shapes to_datetime has_read name v s
  unfolding validate validate_scalar
  timestamp_scalar name (Value.dict fs) s k = rw (k, validate, validate_scalar) refl
  timestamp_scalar name (Value.list vs) s k = rw (k, validate, validate_scalar) refl
  timestamp_scalar name v s k = refl

  timestamp-clean :
      (name : Path_) (v : Value) (s : Shape)
      → s.type_name ≡ TypeName.timestamp
      → to_datetime v ≡ ok tt
      → validate_scalar shapes to_datetime has_read name v s ≡ clean
  unfolding validate_scalar validate_timestamp
  timestamp-clean name v s k e = rw (k, e, validate_scalar, validate_timestamp) refl

  in_range : (v : ℤ) (s : Shape) → InRange v s → out_of_range v s ≡ false
  in_range v s r = InRange-out_of_range v s r

  pub scalar_str-clean :
      (name : Path_) (t : String) (s : Shape)
      → HasType shapes to_datetime has_read (Value.str t) s
      → validate_scalar shapes to_datetime has_read name (Value.str t) s ≡ clean
  unfolding validate_scalar validate_string validate_blob
  scalar_str-clean name t s (text k r) =
      rw (k, in_range _ s r, validate_scalar, validate_string) refl
  scalar_str-clean name t s (blob_text k) = rw (k, validate_scalar, validate_blob) refl
  scalar_str-clean name t s (time k e) = timestamp-clean name (Value.str t) s k e

  mutual
    unfolding validate validate_scalar validate_integer validate_double validate_boolean
        validate_blob

    pub validate-clean :
        (name : Path_) (v : Value) (s : Shape)
        → HasType shapes to_datetime has_read v s
        → validate shapes to_datetime has_read name v s ≡ clean
    validate-clean name (Value.str t) s h = scalar_str-clean name t s h
    validate-clean name (Value.int n) s (whole k r) =
        number-clean name (Value.int n) s k (rw (in_range _ s r) refl) (rw (in_range _ s r) refl)
    validate-clean name (Value.bool true) s (truth_as_one k r) =
        number-clean name (Value.bool true) s k (rw (in_range _ s r) refl)
          (rw (in_range _ s r) refl)
    validate-clean name (Value.bool false) s (truth_as_zero k r) =
        number-clean name (Value.bool false) s k (rw (in_range _ s r) refl)
          (rw (in_range _ s r) refl)
    validate-clean name (Value.float f) s (fraction k r) =
        real-clean name (Value.float f) s k (rw (in_range _ s r) refl)
    validate-clean name (Value.bool b) s (truth k) = rw (k, validate_scalar, validate_boolean) refl
    validate-clean name (Value.bytes t) s (blob_bytes k) =
        rw (k, validate_scalar, validate_blob) refl
    validate-clean name (Value.other c) s (blob_file k r) =
        rw (k, r, validate_scalar, validate_blob) refl
    validate-clean name v s (time k e) =
        cc (timestamp_scalar name v s k, timestamp-clean name v s k e)
    validate-clean name (Value.dict fs) s (structure ms k e present known) =
        let (a, b) = known-clean name fs ms known in
        rw (k, validate, e, AllPresent-missing_fields name (required_members s) fs present, a, b)
          refl
    validate-clean name (Value.list vs) s (list m k e r all) =
        rw (k, validate, e, in_range _ s r, items-clean name 0 vs m all) refl
    validate-clean name (Value.dict fs) s (map ks vs k e e' entries) =
        rw (k, validate, e, e', map-clean name fs ks vs entries) refl

    known-clean :
        (name : Path_) (fs : Fields) (ms : Dict Shape)
        → AreMembers shapes to_datetime has_read fs ms
        → (unknown_fields name ms fs ≡ [])
          × (validate_known shapes to_datetime has_read name fs ms ≡ clean)
    known-clean name Fields.end ms no_members = (refl, refl)
    known-clean name (Fields.field k v fs) ms (a_member m there typed rest) =
        let (a, b) = known-clean name fs ms rest in
        let head = clean-both _ _ (validate-clean (name ++ dot k ∷ []) v m typed) b in
        (known-unknown_fields name ms k v fs m there a, rw (there, validate_known) head)

    items-clean :
        (name : Path_) (i : ℕ) (vs : Items) (m : Shape)
        → AllHaveType shapes to_datetime has_read vs m
        → validate_items shapes to_datetime has_read name i vs m ≡ clean
    items-clean name i Items.nil m no_items = refl
    items-clean name i (Items.cons v vs) m (an_item typed rest) =
        clean-both _ _ (validate-clean (name ++ index i ∷ []) v m typed)
          (items-clean name (suc i) vs m rest)

    map-clean :
        (name : Path_) (fs : Fields) (ks vs : Shape)
        → AreEntries shapes to_datetime has_read fs ks vs
        → validate_map shapes to_datetime has_read name fs ks vs ≡ clean
    map-clean name Fields.end ks vs no_entries = refl
    map-clean name (Fields.field k v fs) ks vs (an_entry key_typed typed rest) =
        clean-both _ _ (scalar_str-clean (name ++ key k ∷ []) k ks key_typed) (
          clean-both _ _ (validate-clean (name ++ dot k ∷ []) v vs typed)
            (map-clean name fs ks vs rest))
