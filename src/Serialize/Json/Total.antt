-- ===== src/Serialize/Json/Total.antt =====
-- The JSON serializer of botocore/serialize.py on parameters that have the type of their shape.
use jcsapitest.Prelude.{
  String, ◌≡◌, ◌⊎◌, inl, inr, refl, ◌∙◌, true, false, Option, some, Dict, get, item, Result, ok,
  ◌>>=◌,
}
use jcsapitest.Value.{Value, Items, Fields, str, dict, list, end, nil, cons, set_field}
use jcsapitest.Model.{TypeName, Shape, ShapeMap}
use jcsapitest.Validate.Typed.{
  IsWhole, IsReal, HasType, AreMembers, AllHaveType, AreEntries, text, whole, truth_as_one,
  truth_as_zero, fraction, truth, blob_text, blob_bytes, blob_file, time, structure, list, map,
  no_members, a_member, no_items, an_item, no_entries, an_entry,
}
use jcsapitest.Serialize.Request.{OperationModel}
use jcsapitest.Serialize.Json.{
  json_request, encoded, scalar, serialize, serialize_members, serialize_entries, serialize_items,
  json_body, serialize_to_request,
}

abbrev pub Returns {ℓ} : {A : Type ℓ} → Result A → Type ℓ
Returns {A = A} r = (a : A) × (r ≡ ok a)

-- A chain of calls that return returns.
Returns->>= {ℓ κ} :
    {A : Type ℓ} {B : Type κ} (m : Result A) (k : A → Result B)
    → Returns m
    → ((a : A) → Returns (k a))
    → Returns (m >>= k)
Returns->>= m k (a, e) h = rw (e) (h a)

module _ (shapes : ShapeMap) (convert_timestamp : Value → Result Value)
    (base64 : String → String) where
  number-same :
      (v : Value) (s : Shape)
      → IsWhole s.type_name ⊎ IsReal s.type_name
      → scalar shapes convert_timestamp base64 v s ≡ ok v
  unfolding scalar
  number-same v s (inl (inl k)) = rw (k, scalar) refl
  number-same v s (inl (inr k)) = rw (k, scalar) refl
  number-same v s (inr (inl k)) = rw (k, scalar) refl
  number-same v s (inr (inr k)) = rw (k, scalar) refl

  timestamp_scalar :
      (v : Value) (s : Shape)
      → s.type_name ≡ TypeName.timestamp
      → serialize shapes convert_timestamp base64 v s ≡ scalar shapes convert_timestamp base64 v s
  unfolding serialize
  timestamp_scalar (Value.dict fs) s k = rw (k, serialize) refl
  timestamp_scalar (Value.list vs) s k = rw (k, serialize) refl
  timestamp_scalar v s k = refl

  item-get : (k : String) (ms : Dict Shape) (m : Shape) → get k ms ≡ some m → item k ms ≡ ok m
  unfolding item
  item-get k ms m e = rw (e, item) refl

  module _ (to_datetime : Value → Result (Unit {0}))
      (formats : (v : Value)
        → to_datetime v ≡ ok tt
        → (t : Value) × (convert_timestamp v ≡ ok t)) where
    mutual
      unfolding serialize scalar encoded

      serialize-Returns :
          (v : Value) (s : Shape)
          → HasType shapes to_datetime (λ class. false) v s
          → Returns (serialize shapes convert_timestamp base64 v s)
      serialize-Returns (Value.str t) s (text k r) = (str t, rw (k, scalar) refl)
      serialize-Returns (Value.str t) s (blob_text k) =
          (str (base64 t), rw (k, scalar, encoded) refl)
      serialize-Returns (Value.bytes t) s (blob_bytes k) =
          (str (base64 t), rw (k, scalar, encoded) refl)
      serialize-Returns (Value.int n) s (whole k r) = (Value.int n, number-same (Value.int n) s k)
      serialize-Returns (Value.bool true) s (truth_as_one k r) =
          (Value.bool true, number-same (Value.bool true) s k)
      serialize-Returns (Value.bool false) s (truth_as_zero k r) =
          (Value.bool false, number-same (Value.bool false) s k)
      serialize-Returns (Value.float f) s (fraction k r) =
          (Value.float f, number-same (Value.float f) s (inr k))
      serialize-Returns (Value.bool b) s (truth k) = (Value.bool b, rw (k, scalar) refl)
      serialize-Returns (Value.other c) s (blob_file k reads) = cc
      serialize-Returns v s (time k e) =
          let (t, f) = formats v e in (t, rw (timestamp_scalar v s k, k, scalar) f)
      serialize-Returns (Value.dict fs) s (structure ms k e present known) =
          let (out, e') = members-Returns fs ms end known in
          (dict out, rw (k, serialize, e, e') refl)
      serialize-Returns (Value.list vs) s (list m k e r all) =
          let (out, e') = items-Returns vs m all in (Value.list out, rw (k, serialize, e, e') refl)
      serialize-Returns (Value.dict fs) s (map ks vs k e e' entries) =
          let (out, f) = entries-Returns fs ks vs end entries in
          (dict out, rw (k, serialize, e', f) refl)

      members-Returns :
          (fs : Fields) (ms : Dict Shape) (out : Fields)
          → AreMembers shapes to_datetime (λ class. false) fs ms
          → Returns (serialize_members shapes convert_timestamp base64 fs ms out)
      members-Returns Fields.end ms out no_members = (out, refl)
      members-Returns (Fields.field k v fs) ms out (a_member m there typed rest) =
          rw (serialize_members, item-get k ms m there)
            (Returns->>= (serialize shapes convert_timestamp base64 v m) _
              (serialize-Returns v m typed) (λ w. members-Returns fs ms (set_field k w out) rest))

      items-Returns :
          (vs : Items) (m : Shape)
          → AllHaveType shapes to_datetime (λ class. false) vs m
          → Returns (serialize_items shapes convert_timestamp base64 vs (ok m))
      items-Returns Items.nil m no_items = (nil, refl)
      items-Returns (Items.cons v vs) m (an_item typed rest) =
          Returns->>= (serialize shapes convert_timestamp base64 v m) _
            (serialize-Returns v m typed)
            (λ w.
              Returns->>= (serialize_items shapes convert_timestamp base64 vs (ok m)) _
                (items-Returns vs m rest) (λ ws. (cons w ws, refl)))

      entries-Returns :
          (fs : Fields) (ks vs : Shape) (out : Fields)
          → AreEntries shapes to_datetime (λ class. false) fs ks vs
          → Returns (serialize_entries shapes convert_timestamp base64 fs (ok vs) out)
      entries-Returns Fields.end ks vs out no_entries = (out, refl)
      entries-Returns (Fields.field k v fs) ks vs out (an_entry key_typed typed rest) =
          Returns->>= (serialize shapes convert_timestamp base64 v vs) _
            (serialize-Returns v vs typed) (λ w. entries-Returns fs ks vs (set_field k w out) rest)

    json_body-serialize :
        (o : Option Shape) (s : Shape) (parameters : Value)
        → o ≡ some s
        → json_body shapes convert_timestamp base64 o parameters
          ≡ serialize shapes convert_timestamp base64 parameters s
    unfolding json_body
    json_body-serialize o s parameters e = rw (e, json_body) refl

    -- Let what is accepted as a time be formatted, let no class of objects count as a file, and let the
    -- service have a target prefix and a JSON version and the operation an input shape. Then parameters
    -- that have the type of the shape are serialized: there is a value for them, and the request has
    -- its text as the body, the target in the headers and the method of the operation.
    pub serialize_to_request-serialize :
        (dumps : Value → String) (op : OperationModel) (prefix json_version : String) (s : Shape)
        (parameters : Value)
        → item "targetPrefix" op.metadata ≡ ok prefix
        → item "jsonVersion" op.metadata ≡ ok json_version
        → op.input_shape ≡ some s
        → HasType shapes to_datetime (λ class. false) parameters s
        → (body : Value) × (serialize shapes convert_timestamp base64 parameters s ≡ ok body)
          × (serialize_to_request shapes convert_timestamp base64 dumps op parameters
              ≡ ok (
                  json_request shapes convert_timestamp base64 op prefix json_version (dumps body)))
    unfolding serialize_to_request
    serialize_to_request-serialize dumps op prefix json_version s parameters there there' shaped
          typed =
        let (body, e) = serialize-Returns parameters s typed in
        let whole : json_body shapes convert_timestamp base64 op.input_shape parameters ≡ ok body =
          json_body-serialize op.input_shape s parameters shaped ∙ e in
        (body, e, rw (serialize_to_request, there, there', whole) refl)
