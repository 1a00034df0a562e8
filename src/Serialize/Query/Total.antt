-- ===== src/Serialize/Query/Total.antt =====
-- The query serializers of botocore/serialize.py on parameters that have the type of their shape.
use jcsapitest.Prelude.{
  ℕ, suc, String, ◌≡◌, ◌⊎◌, inl, inr, refl, true, false, some, Option-cases, Bool-cases,
  Result-cases, Exception, Dict, get, item, Result, ok, raise, ◌>>=◌,
}
use jcsapitest.Value.{Value, Items, Fields, str, set_field, is_true}
use jcsapitest.Model.{TypeName, Shape, ShapeMap}
use jcsapitest.Validate.Typed.{
  IsWhole, IsReal, HasType, AreMembers, AllHaveType, AreEntries, text, whole, truth_as_one,
  truth_as_zero, fraction, truth, blob_text, blob_bytes, blob_file, time, structure, list, map,
  no_members, a_member, no_items, an_item, no_entries, an_entry,
}
use jcsapitest.Serialize.Names.{
  Protocol, query, ec2, empty_name, capitalize, attribute, get_serialized_name, member_prefix,
  numbered, dot_join, has_curly, entry_name,
}
use jcsapitest.Serialize.Query.{
  get_base64, boolean_text, empty_list, scalar_value, serialize_scalar, serialize,
  serialize_members, serialize_elements, serialize_entries,
}

-- What str.format raises for a prefix with a brace
abbrev pub FailsToFormat : (String → ℕ → String → Result String) → Exception → Type 0
FailsToFormat format e =
    (prefix suffix : String) × (i : ℕ) × (has_curly prefix ≡ true)
    × (format prefix i suffix ≡ raise e)

-- A value, or the error of the EC2 serializer for a name that is empty, or that of str.format.
abbrev pub Ends {ℓ} :
    {A : Type ℓ} → (String → ℕ → String → Result String) → Protocol → Result A → Type ℓ
Ends {A = A} format p r =
    ((a : A) × (r ≡ ok a))
    ⊎ (((p ≡ ec2) × (r ≡ raise empty_name))
        ⊎ ((e : Exception) × FailsToFormat format e × (r ≡ raise e)))

pub Ends->>= {ℓ κ} :
    {A : Type ℓ} {B : Type κ} (format : String → ℕ → String → Result String) (p : Protocol)
    (m : Result A) (k : A → Result B)
    → Ends format p m
    → ((a : A) → Ends format p (k a))
    → Ends format p (m >>= k)
Ends->>= format p m k (inl (a, e)) h = rw (e) (h a)
Ends->>= format p m k (inr (inl (same, e))) h = inr (inl (same, rw (e) refl))
Ends->>= format p m k (inr (inr (x, fails, e))) h = inr (inr (x, fails, rw (e) refl))

module _ (format : String → ℕ → String → Result String) where
  capitalize-Ends : (s : String) → Ends format ec2 (capitalize s)
  unfolding capitalize
  capitalize-Ends String.[] = inr (inl (refl, refl))
  capitalize-Ends (String.◌∷◌ c s) = inl (_, refl)

  get_serialized_name-Ends :
      (p : Protocol) (s : Shape) (default : String)
      → Ends format p (get_serialized_name p s default)
  unfolding get_serialized_name
  get_serialized_name-Ends query s default = elim (Option-cases (attribute "locationName" s)) [
    | inl gone ↦ inl (default, rw (gone, get_serialized_name) refl)
    | inr (name, e) ↦ inl (name, rw (e, get_serialized_name) refl)
  ]
  get_serialized_name-Ends ec2 s default = elim (Option-cases (attribute "queryName" s)) [
    | inr (name, e) ↦ inl (name, rw (e, get_serialized_name) refl)
    | inl gone ↦ elim (Option-cases (attribute "locationName" s)) [
      | inl gone' ↦ inl (default, rw (gone, gone', get_serialized_name) refl)
      | inr (name, e) ↦ rw (gone, e, get_serialized_name) (capitalize-Ends name)
    ]
  ]

  entry_name-Ends :
      (p : Protocol) (prefix : String) (i : ℕ) (suffix : String)
      → Ends format p (entry_name format prefix i suffix)
  unfolding entry_name
  entry_name-Ends p prefix i suffix = elim (Bool-cases (has_curly prefix)) [
    | inr plain ↦ inl (dot_join (numbered prefix i) suffix, rw plain refl)
    | inl curly ↦ elim (Result-cases (format prefix i suffix)) [
      | inr (t, e) ↦ inl (t, rw (curly, e) refl)
      | inl (x, e) ↦ inr (inr (x, (prefix, suffix, i, curly, e), rw (curly, e) refl))
    ]
  ]

module _ (shapes : ShapeMap) (convert_timestamp : Value → Result String) (base64 : String → String)
    (format : String → ℕ → String → Result String) (p : Protocol) where
  number_value :
      (v : Value) (s : Shape)
      → IsWhole s.type_name ⊎ IsReal s.type_name
      → scalar_value shapes convert_timestamp base64 format p v s ≡ ok v
  unfolding scalar_value
  number_value v s (inl (inl k)) = rw (k, scalar_value) refl
  number_value v s (inl (inr k)) = rw (k, scalar_value) refl
  number_value v s (inr (inl k)) = rw (k, scalar_value) refl
  number_value v s (inr (inr k)) = rw (k, scalar_value) refl

  scalar-Ends :
      (body : Fields) (v w : Value) (s : Shape) (prefix : String)
      → scalar_value shapes convert_timestamp base64 format p v s ≡ ok w
      → Ends format p (serialize_scalar shapes convert_timestamp base64 format p body v s prefix)
  unfolding serialize_scalar
  scalar-Ends body v w s prefix e = inl (set_field prefix w body, rw (e, serialize_scalar) refl)

  pub item-get : (k : String) (ms : Dict Shape) (m : Shape) → get k ms ≡ some m → item k ms ≡ ok m
  unfolding item
  item-get k ms m e = rw (e, item) refl

  timestamp_scalar :
      (body : Fields) (v : Value) (s : Shape) (prefix : String)
      → s.type_name ≡ TypeName.timestamp
      → serialize shapes convert_timestamp base64 format p body v s prefix
        ≡ serialize_scalar shapes convert_timestamp base64 format p body v s prefix
  unfolding serialize
  timestamp_scalar body (Value.dict fs) s prefix k = rw (k, serialize) refl
  timestamp_scalar body (Value.list Items.nil) s prefix k = rw (k, serialize) refl
  timestamp_scalar body (Value.list (Items.cons v vs)) s prefix k = rw (k, serialize) refl
  timestamp_scalar body v s prefix k = refl

  -- `to_datetime` is the parsing of a date, and what it parses can be formatted: in Python 2 that is
  -- so for the years from 1900 on.
  module _ (to_datetime : Value → Result (Unit {0}))
      (formats : (v : Value)
        → to_datetime v ≡ ok tt
        → (t : String) × (convert_timestamp v ≡ ok t)) where
    abbrev pub Typed : Value → Shape → Type 0
    Typed = HasType shapes to_datetime (λ class. false)

    time_value :
        (v : Value) (s : Shape)
        → s.type_name ≡ TypeName.timestamp
        → to_datetime v ≡ ok tt
        → (w : Value) × (scalar_value shapes convert_timestamp base64 format p v s ≡ ok w)
    unfolding scalar_value
    time_value v s k e = let (t, f) = formats v e in (str t, rw (k, f, scalar_value) refl)

    str-Ends :
        (body : Fields) (t : String) (s : Shape) (prefix : String)
        → Typed (str t) s
        → Ends format p
            (serialize_scalar shapes convert_timestamp base64 format p body (str t) s prefix)
    unfolding scalar_value get_base64
    str-Ends body t s prefix (text k r) =
        scalar-Ends body (str t) (str t) s prefix (rw (k, scalar_value) refl)
    str-Ends body t s prefix (blob_text k) =
        scalar-Ends body (str t) (str (base64 t)) s prefix (rw (k, scalar_value, get_base64) refl)
    str-Ends body t s prefix (time k e) =
        let (w, f) = time_value (str t) s k e in scalar-Ends body (str t) w s prefix f

    mutual
      unfolding serialize scalar_value get_base64 is_true

      pub serialize-Ends :
          (body : Fields) (v : Value) (s : Shape) (prefix : String)
          → Typed v s
          → Ends format p (serialize shapes convert_timestamp base64 format p body v s prefix)
      serialize-Ends body (Value.str t) s prefix h = str-Ends body t s prefix h
      serialize-Ends body (Value.int n) s prefix (whole k r) =
          scalar-Ends body (Value.int n) (Value.int n) s prefix (number_value (Value.int n) s k)
      serialize-Ends body (Value.bool true) s prefix (truth_as_one k r) =
          scalar-Ends body (Value.bool true) (Value.bool true) s prefix
            (number_value (Value.bool true) s k)
      serialize-Ends body (Value.bool false) s prefix (truth_as_zero k r) =
          scalar-Ends body (Value.bool false) (Value.bool false) s prefix
            (number_value (Value.bool false) s k)
      serialize-Ends body (Value.float f) s prefix (fraction k r) =
          scalar-Ends body (Value.float f) (Value.float f) s prefix
            (number_value (Value.float f) s (inr k))
      serialize-Ends body (Value.bool b) s prefix (truth k) =
          scalar-Ends body (Value.bool b) (str (boolean_text b)) s prefix
            (rw (k, scalar_value) refl)
      serialize-Ends body (Value.bytes t) s prefix (blob_bytes k) =
          scalar-Ends body (Value.bytes t) (str (base64 t)) s prefix
            (rw (k, scalar_value, get_base64) refl)
      serialize-Ends body (Value.other c) s prefix (blob_file k reads) = cc
      serialize-Ends body v s prefix (time k e) =
          let (w, f) = time_value v s k e in
          rw (timestamp_scalar body v s prefix k) (scalar-Ends body v w s prefix f)
      serialize-Ends body (Value.dict fs) s prefix (structure ms k e present known) =
          rw (k, serialize, e) (members-Ends body fs ms prefix known)
      serialize-Ends body (Value.list Items.nil) s prefix (list m k e r all) =
          inl (empty_list p body prefix, rw (k, serialize) refl)
      serialize-Ends body (Value.list (Items.cons v vs)) s prefix (list m k e r all) =
          rw (k, serialize, e) (elements-Ends body (Items.cons v vs) m _ 1 all)
      serialize-Ends body (Value.dict fs) s prefix (map ks vs k e e' entries) =
          rw (k, serialize, e, e')
            (Ends->>= format p (get_serialized_name p ks "key") _
              (get_serialized_name-Ends format p ks "key")
              (λ key_suffix.
                Ends->>= format p (get_serialized_name p vs "value") _
                  (get_serialized_name-Ends format p vs "value")
                  (λ value_suffix. entries-Ends body fs ks vs key_suffix value_suffix _ 1 entries)))

      members-Ends :
          (body fs : Fields) (ms : Dict Shape) (prefix : String)
          → AreMembers shapes to_datetime (λ class. false) fs ms
          → Ends format p
              (serialize_members shapes convert_timestamp base64 format p body fs ms prefix)
      members-Ends body Fields.end ms prefix no_members = inl (body, refl)
      members-Ends body (Fields.field k v fs) ms prefix (a_member m there typed rest) =
          rw (serialize_members, item-get k ms m there)
            (Ends->>= format p (get_serialized_name p m k) _ (get_serialized_name-Ends format p m k)
              (λ name.
                Ends->>= format p
                  (serialize shapes convert_timestamp base64 format p body v m
                    (member_prefix prefix name))
                  _ (serialize-Ends body v m (member_prefix prefix name) typed)
                  (λ more. members-Ends more fs ms prefix rest)))

      elements-Ends :
          (body : Fields) (vs : Items) (m : Shape) (prefix : String) (i : ℕ)
          → AllHaveType shapes to_datetime (λ class. false) vs m
          → Ends format p
              (serialize_elements shapes convert_timestamp base64 format p body vs m prefix i)
      elements-Ends body Items.nil m prefix i no_items = inl (body, refl)
      elements-Ends body (Items.cons v vs) m prefix i (an_item typed rest) =
          Ends->>= format p
            (serialize shapes convert_timestamp base64 format p body v m (numbered prefix i)) _
            (serialize-Ends body v m (numbered prefix i) typed)
            (λ more. elements-Ends more vs m prefix (suc i) rest)

      entries-Ends :
          (body fs : Fields) (ks vs : Shape) (key_suffix value_suffix prefix : String) (i : ℕ)
          → AreEntries shapes to_datetime (λ class. false) fs ks vs
          → Ends format p (
              serialize_entries shapes convert_timestamp base64 format p body fs ks vs key_suffix
                value_suffix prefix i)
      entries-Ends body Fields.end ks vs key_suffix value_suffix prefix i no_entries =
          inl (body, refl)
      entries-Ends body (Fields.field k v fs) ks vs key_suffix value_suffix prefix i
            (an_entry key_typed typed rest) =
          Ends->>= format p (entry_name format prefix i key_suffix) _
            (entry_name-Ends format p prefix i key_suffix)
            (λ key_prefix.
              Ends->>= format p (entry_name format prefix i value_suffix) _
                (entry_name-Ends format p prefix i value_suffix)
                (λ value_prefix.
                  Ends->>= format p
                    (serialize_scalar shapes convert_timestamp base64 format p body (str k) ks
                      key_prefix)
                    _ (str-Ends body k ks key_prefix key_typed)
                    (λ keyed.
                      Ends->>= format p
                        (serialize shapes convert_timestamp base64 format p keyed v vs value_prefix)
                        _ (serialize-Ends keyed v vs value_prefix typed)
                        (λ more.
                          entries-Ends more fs ks vs key_suffix value_suffix prefix (suc i) rest))))
