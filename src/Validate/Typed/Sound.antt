-- ===== src/Validate/Typed/Sound.antt =====
-- A parameter about which the validator of botocore/validate.py reports nothing has its shape's type.
use jcsapitest.Prelude.{
  ℕ, suc, String, ◌≡◌, ◌≢◌, ◌⊎◌, inl, inr, refl, true, false, Bool, [], ◌∷◌, ◌++◌, Dict, isinstance,
  ◌||◌, Result, ok, Result-cases, Bool-cases, >>=-eq-ok,
}
use jcsapitest.Value.Int.{pos, scale}
use jcsapitest.Value.{Value, Items, Fields, count_items}
use jcsapitest.Model.{
  TypeName, Shape, ShapeMap, members_of, member_of, key_of, value_of, required_members,
}
use jcsapitest.Validate.{
  Error, Report, Path_, dot, index, key, out_of_range, str_length, check_length, invalid_length,
  invalid_range, missing_fields, unknown_fields, validate_integer, validate_double, validate_string,
  validate_boolean, validate_blob, validate_timestamp, validate_scalar, validate, validate_known,
  validate_items, validate_map,
}
use jcsapitest.Validate.Typed.{
  InRange, IsWhole, IsReal, HasType, AreMembers, AllHaveType, AreEntries, text, whole, truth_as_one,
  truth_as_zero, fraction, truth, blob_text, blob_bytes, blob_file, time, structure, list, map,
  no_members, a_member, no_items, an_item, no_entries, an_entry,
}
use jcsapitest.Validate.Typed.Cases.{dict_cases, list_cases}
use jcsapitest.Validate.Typed.Reports.{
  clean, append_clean, both-clean, report_if-clean, out_of_range-InRange, missing_fields-AllPresent,
  unknown_fields_head,
}

-- A report of one error is not clean.
reported : (e : Error) → ◌≢◌ {A = Report} (ok (e ∷ [])) clean
reported e h = let bad : e ∷ [] ≡ [] = cc in cc

length-InRange :
    (name : Path_) (n : ℕ) (s : Shape) → check_length name n s ≡ clean → InRange (scale (pos n)) s
length-InRange name n s h =
    out_of_range-InRange (scale (pos n)) s
      (report_if-clean (out_of_range (scale (pos n)) s) (invalid_length name) h)

module _ (shapes : ShapeMap) (to_datetime : Value → Result (Unit {0}))
    (has_read : String → Bool) where
  abbrev Typed : Value → Shape → Type 0
  Typed = HasType shapes to_datetime has_read

  integer-Typed :
      (name : Path_) (v : Value) (s : Shape)
      → IsWhole s.type_name ⊎ IsReal s.type_name
      → validate_integer name v s ≡ clean
      → Typed v s
  unfolding validate_integer
  integer-Typed name (Value.int n) s t h = whole t (
      out_of_range-InRange (scale n) s
        (report_if-clean (out_of_range (scale n) s) (invalid_range name) h))
  integer-Typed name (Value.bool true) s t h = truth_as_one t (
      out_of_range-InRange (scale (pos 1)) s
        (report_if-clean (out_of_range (scale (pos 1)) s) (invalid_range name) h))
  integer-Typed name (Value.bool false) s t h = truth_as_zero t (
      out_of_range-InRange (pos 0) s
        (report_if-clean (out_of_range (pos 0) s) (invalid_range name) h))
  integer-Typed name v s t h = absurd (reported _ h)

  double-Typed :
      (name : Path_) (v : Value) (s : Shape)
      → IsReal s.type_name
      → validate_double name v s ≡ clean
      → Typed v s
  unfolding validate_double
  double-Typed name (Value.float f) s t h =
      fraction t
        (out_of_range-InRange f s (report_if-clean (out_of_range f s) (invalid_range name) h))
  double-Typed name v s t h = integer-Typed name v s (inr t) h

  string-Typed :
      (name : Path_) (v : Value) (s : Shape)
      → s.type_name ≡ TypeName.string
      → validate_string name v s ≡ clean
      → Typed v s
  unfolding validate_string
  string-Typed name (Value.str t) s k h = text k (length-InRange name (str_length t) s h)
  string-Typed name v s k h = absurd (reported _ h)

  boolean-Typed :
      (name : Path_) (v : Value) (s : Shape)
      → s.type_name ≡ TypeName.boolean
      → validate_boolean name v ≡ clean
      → Typed v s
  unfolding validate_boolean
  boolean-Typed name (Value.bool b) s k h = truth k
  boolean-Typed name v s k h = absurd (reported _ h)

  blob-Typed :
      (name : Path_) (v : Value) (s : Shape)
      → s.type_name ≡ TypeName.blob
      → validate_blob shapes to_datetime has_read name v ≡ clean
      → Typed v s
  unfolding validate_blob
  blob-Typed name (Value.str t) s k h = blob_text k
  blob-Typed name (Value.bytes t) s k h = blob_bytes k
  blob-Typed name (Value.other c) s k h = elim (Bool-cases (has_read c)) [
    | inl reads ↦ blob_file k reads
    | inr none_there ↦ absurd (reported _ (rw (none_there, validate_blob) at h))
  ]
  blob-Typed name v s k h = absurd (reported _ h)

  timestamp-Typed :
      (name : Path_) (v : Value) (s : Shape)
      → s.type_name ≡ TypeName.timestamp
      → validate_timestamp shapes to_datetime has_read name v ≡ clean
      → Typed v s
  unfolding validate_timestamp
  timestamp-Typed name v s k h = elim (Result-cases (to_datetime v)) [
    | inr (done, e) ↦ time k e
    | inl (x, e) ↦ elim (Bool-cases (isinstance x "TypeError" || isinstance x "ValueError")) [
      | inl caught ↦ absurd (reported _ (rw (e, caught, validate_timestamp) at h))
      | inr other ↦ cc (rw (e, other, validate_timestamp) at h)
    ]
  ]

  pub scalar-Typed :
      (name : Path_) (v : Value) (s : Shape) (t : TypeName)
      → s.type_name ≡ t
      → validate_scalar shapes to_datetime has_read name v s ≡ clean
      → Typed v s
  unfolding validate_scalar
  scalar-Typed name v s TypeName.structure k h = absurd (reported _ (rw (k, validate_scalar) at h))
  scalar-Typed name v s TypeName.list k h = absurd (reported _ (rw (k, validate_scalar) at h))
  scalar-Typed name v s TypeName.map k h = absurd (reported _ (rw (k, validate_scalar) at h))
  scalar-Typed name v s TypeName.string k h = string-Typed name v s k (rw (k, validate_scalar) at h)
  scalar-Typed name v s TypeName.integer k h =
      integer-Typed name v s (inl (inl k)) (rw (k, validate_scalar) at h)
  scalar-Typed name v s TypeName.long k h =
      integer-Typed name v s (inl (inr k)) (rw (k, validate_scalar) at h)
  scalar-Typed name v s TypeName.double k h =
      double-Typed name v s (inl k) (rw (k, validate_scalar) at h)
  scalar-Typed name v s TypeName.float k h =
      double-Typed name v s (inr k) (rw (k, validate_scalar) at h)
  scalar-Typed name v s TypeName.boolean k h =
      boolean-Typed name v s k (rw (k, validate_scalar) at h)
  scalar-Typed name v s TypeName.blob k h = blob-Typed name v s k (rw (k, validate_scalar) at h)
  scalar-Typed name v s TypeName.timestamp k h =
      timestamp-Typed name v s k (rw (k, validate_scalar) at h)
  scalar-Typed name v s (TypeName.unknown u) k h = cc (rw (k, validate_scalar) at h)

  mutual
    unfolding validate

    pub validate-Typed :
        (name : Path_) (v : Value) (s : Shape)
        → validate shapes to_datetime has_read name v s ≡ clean
        → Typed v s
    validate-Typed name (Value.dict fs) s h =
        elim (dict_cases shapes to_datetime has_read s s.type_name refl) [
          | inl k ↦
              let (ms, resolved, h₁) = >>=-eq-ok (members_of shapes s) _ (rw (k, validate) at h) in
              let (a, b) = both-clean _ _ h₁ in
              let (missing, strange) =
                append_clean (missing_fields name (required_members s) fs)
                  (unknown_fields name ms fs) a in
              structure ms k resolved
                (missing_fields-AllPresent name (required_members s) fs missing)
                (known-AreMembers name fs ms strange b)
          | inr (inl k) ↦
              let (ks, resolved, h₁) = >>=-eq-ok (key_of shapes s) _ (rw (k, validate) at h) in
              let (vs, resolved', h₂) = >>=-eq-ok (value_of shapes s) _ h₁ in
              map ks vs k resolved resolved' (map-AreEntries name fs ks vs h₂)
          | inr (inr e) ↦ scalar-Typed name (Value.dict fs) s s.type_name refl (cc (e name fs, h))
        ]
    validate-Typed name (Value.list vs) s h =
        elim (list_cases shapes to_datetime has_read s s.type_name refl) [
          | inl k ↦
              let (m, resolved, h₁) = >>=-eq-ok (member_of shapes s) _ (rw (k, validate) at h) in
              let (a, b) = both-clean _ _ h₁ in
              list m k resolved (length-InRange name (count_items vs) s a)
                (items-AllHaveType name 0 vs m b)
          | inr e ↦ scalar-Typed name (Value.list vs) s s.type_name refl (cc (e name vs, h))
        ]
    validate-Typed name v s h = scalar-Typed name v s s.type_name refl h

    known-AreMembers :
        (name : Path_) (fs : Fields) (ms : Dict Shape)
        → unknown_fields name ms fs ≡ []
        → validate_known shapes to_datetime has_read name fs ms ≡ clean
        → AreMembers shapes to_datetime has_read fs ms
    known-AreMembers name Fields.end ms u h = no_members
    known-AreMembers name (Fields.field k v fs) ms u h =
        let ((m, there), rest) = unknown_fields_head name ms k v fs u in
        let (a, b) = both-clean _ _ (rw (there, validate_known) at h) in
        a_member m there (validate-Typed (name ++ dot k ∷ []) v m a)
          (known-AreMembers name fs ms rest b)

    items-AllHaveType :
        (name : Path_) (i : ℕ) (vs : Items) (m : Shape)
        → validate_items shapes to_datetime has_read name i vs m ≡ clean
        → AllHaveType shapes to_datetime has_read vs m
    items-AllHaveType name i Items.nil m h = no_items
    items-AllHaveType name i (Items.cons v vs) m h =
        let (a, b) = both-clean _ _ h in
        an_item (validate-Typed (name ++ index i ∷ []) v m a)
          (items-AllHaveType name (suc i) vs m b)

    map-AreEntries :
        (name : Path_) (fs : Fields) (ks vs : Shape)
        → validate_map shapes to_datetime has_read name fs ks vs ≡ clean
        → AreEntries shapes to_datetime has_read fs ks vs
    map-AreEntries name Fields.end ks vs h = no_entries
    map-AreEntries name (Fields.field k v fs) ks vs h =
        let (a, b) = both-clean _ _ h in
        let (c, d) = both-clean _ _ b in
        an_entry (scalar-Typed (name ++ key k ∷ []) (Value.str k) ks ks.type_name refl a)
          (validate-Typed (name ++ dot k ∷ []) v vs c) (map-AreEntries name fs ks vs d)
