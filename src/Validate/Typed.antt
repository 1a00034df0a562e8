-- ===== src/Validate/Typed.antt =====
-- What it means for a parameter to have the type of a shape, without the order and the reports of
-- botocore/validate.py, and that the validator decides it.
pub mod Reports
pub mod Cases
pub mod Sound
pub mod Complete
pub mod Decides
use jcsapitest.Prelude.{
  ℕ, ◌+◌, ◌≤◌, String, ◌≡◌, ◌⊎◌, true, Bool, Option, none, some, List, [], ◌∷◌, Dict, get, Result,
  ok,
}
use jcsapitest.Value.Int.{ℤ, pos, scale, pos_part, neg_part}
use jcsapitest.Value.{Value, Items, Fields, has_field, count_items}
use jcsapitest.Model.{
  TypeName, Shape, ShapeMap, members_of, member_of, key_of, value_of, required_members,
}
use jcsapitest.Validate.{str_length}

abbrev pub LeInt : ℤ → ℤ → Type 0
LeInt a b = pos_part a + neg_part b ≤ pos_part b + neg_part a

abbrev pub IsLow : Option ℤ → ℤ → Type 0
IsLow none v = Unit {0}
IsLow (some low) v = LeInt low v

abbrev pub IsHigh : Option ℤ → ℤ → Type 0
IsHigh none v = Unit {0}
IsHigh (some high) v = LeInt v high

-- The shape's minimum and maximum, where it has them.
abbrev pub InRange : ℤ → Shape → Type 0
InRange v s = IsLow s.model.traits.minimum v × IsHigh s.model.traits.maximum v

abbrev pub IsWhole : TypeName → Type 0
IsWhole t = (t ≡ TypeName.integer) ⊎ (t ≡ TypeName.long)

abbrev pub IsReal : TypeName → Type 0
IsReal t = (t ≡ TypeName.double) ⊎ (t ≡ TypeName.float)

abbrev pub AllPresent : List String → Fields → Type 0
AllPresent [] fs = Unit {0}
AllPresent (r ∷ rs) fs = (has_field r fs ≡ true) × AllPresent rs fs

module _ (shapes : ShapeMap) (to_datetime : Value → Result (Unit {0}))
    (has_read : String → Bool) where
  -- A value has a shape's type: numbers, lists and texts keep to the range, a structure has the
  -- required members and no others than the shape's, and the parts have their shapes' types.
  mutual
    pub data HasType : Value → Shape → Type 0 where
      text :
          {t : String} {s : Shape}
          → s.type_name ≡ TypeName.string
          → InRange (scale (pos (str_length t))) s
          → HasType (Value.str t) s
      whole :
          {n : ℤ} {s : Shape}
          → IsWhole s.type_name ⊎ IsReal s.type_name
          → InRange (scale n) s
          → HasType (Value.int n) s
      truth_as_one :
          {s : Shape}
          → IsWhole s.type_name ⊎ IsReal s.type_name
          → InRange (scale (pos 1)) s
          → HasType (Value.bool true) s
      truth_as_zero :
          {s : Shape}
          → IsWhole s.type_name ⊎ IsReal s.type_name
          → InRange (pos 0) s
          → HasType (Value.bool Bool.false) s
      fraction : {f : ℤ} {s : Shape} → IsReal s.type_name → InRange f s → HasType (Value.float f) s
      truth : {b : Bool} {s : Shape} → s.type_name ≡ TypeName.boolean → HasType (Value.bool b) s
      blob_text : {t : String} {s : Shape} → s.type_name ≡ TypeName.blob → HasType (Value.str t) s
      blob_bytes :
          {t : String} {s : Shape} → s.type_name ≡ TypeName.blob → HasType (Value.bytes t) s
      blob_file :
          {c : String} {s : Shape}
          → s.type_name ≡ TypeName.blob
          → has_read c ≡ true
          → HasType (Value.other c) s
      time :
          {v : Value} {s : Shape}
          → s.type_name ≡ TypeName.timestamp
          → to_datetime v ≡ ok tt
          → HasType v s
      structure :
          {fs : Fields} {s : Shape} (members : Dict Shape)
          → s.type_name ≡ TypeName.structure
          → members_of shapes s ≡ ok members
          → AllPresent (required_members s) fs
          → AreMembers fs members
          → HasType (Value.dict fs) s
      list :
          {vs : Items} {s : Shape} (member : Shape)
          → s.type_name ≡ TypeName.list
          → member_of shapes s ≡ ok member
          → InRange (scale (pos (count_items vs))) s
          → AllHaveType vs member
          → HasType (Value.list vs) s
      map :
          {fs : Fields} {s : Shape} (key_shape value_shape : Shape)
          → s.type_name ≡ TypeName.map
          → key_of shapes s ≡ ok key_shape
          → value_of shapes s ≡ ok value_shape
          → AreEntries fs key_shape value_shape
          → HasType (Value.dict fs) s

    pub data AreMembers : Fields → Dict Shape → Type 0 where
      no_members : {ms : Dict Shape} → AreMembers Fields.end ms
      a_member :
          {k : String} {v : Value} {fs : Fields} {ms : Dict Shape} (m : Shape)
          → get k ms ≡ some m
          → HasType v m
          → AreMembers fs ms
          → AreMembers (Fields.field k v fs) ms

    pub data AllHaveType : Items → Shape → Type 0 where
      no_items : {m : Shape} → AllHaveType Items.nil m
      an_item :
          {v : Value} {vs : Items} {m : Shape}
          → HasType v m
          → AllHaveType vs m
          → AllHaveType (Items.cons v vs) m

    pub data AreEntries : Fields → Shape → Shape → Type 0 where
      no_entries : {ks vs : Shape} → AreEntries Fields.end ks vs
      an_entry :
          {k : String} {v : Value} {fs : Fields} {ks vs : Shape}
          → HasType (Value.str k) ks
          → HasType v vs
          → AreEntries fs ks vs
          → AreEntries (Fields.field k v fs) ks vs
