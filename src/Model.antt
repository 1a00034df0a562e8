-- ===== src/Model.antt =====
-- botocore/model.py: shapes, the references between them, and `ShapeResolver`. A service's shapes stand
-- in a dictionary by name and refer to each other by name, so that a shape may contain itself.
-- `minimum` and `maximum` count thousandths, as the numbers of `Value` do. A reference may override
-- the metadata and the serialization attributes of the shape that it names, and nothing else.
use jcsapitest.Prelude.{
  String, Option, none, some, List, [], ◌∷◌, Dict, get, put, exception, key_error, Result, ok,
  raise, ◌>>=◌,
}
use jcsapitest.Value.Int.{ℤ}

-- shape_model['type']: the types that the client knows, or another one.
pub data TypeName : Type 0 where
  structure list map : TypeName
  string integer long double float boolean blob timestamp : TypeName
  unknown : String → TypeName

pub record Traits : Type 0 where
  pub required : Option (List String)
  pub minimum : Option ℤ
  pub maximum : Option ℤ
  pub serialization : Dict String

-- {"shape": name, ...}
pub record ShapeRef : Type 0 where
  pub shape : Option String
  pub traits : Option Traits

pub record ShapeModel : Type 0 where
  pub type_name : Option TypeName
  pub members : Option (Dict ShapeRef)
  pub member : Option ShapeRef
  pub key : Option ShapeRef
  pub value : Option ShapeRef
  pub traits : Traits

-- A shape object; its type is there.
pub record Shape : Type 0 where
  pub name : String
  pub type_name : TypeName
  pub model : ShapeModel

abbrev pub ShapeMap : Type 0
ShapeMap = Dict ShapeModel

abbrev pub override {ℓ} : {A : Type ℓ} → Option A → Option A → Option A
override none old = old
override (some new) old = some new

unfoldable pub update_all : Dict String → Dict String → Dict String
unfolding put
update_all [] old = old
update_all ((k, v) ∷ new) old = update_all new (put k v old)

-- shape_model.update(member_traits)
unfoldable pub update_traits : Traits → Traits → Traits
unfolding update_all
update_traits new old = record {
  required = override new.required old.required;
  minimum = override new.minimum old.minimum;
  maximum = override new.maximum old.maximum;
  serialization = update_all new.serialization old.serialization;
}

abbrev pub with_traits : Option Traits → ShapeModel → ShapeModel
with_traits none m = m
with_traits (some t) m = record m { traits = update_traits t m.traits }

module _ (shapes : ShapeMap) where
  -- ShapeResolver.get_shape_by_name
  unfoldable pub get_shape_by_name : String → Option Traits → Result Shape
  unfolding get update_traits
  get_shape_by_name name traits = elim (get name shapes) [
    | none ↦ raise (exception "NoShapeFoundError" name)
    | some m ↦ elim m.type_name [
      | none ↦ raise (exception "InvalidShapeError" name)
      | some t ↦ ok (record { name = name; type_name = t; model = with_traits traits m })
    ]
  ]

  -- ShapeResolver.resolve_shape_ref
  unfoldable pub resolve_shape_ref : ShapeRef → Result Shape
  unfolding get_shape_by_name
  resolve_shape_ref r = elim r.shape [
    | none ↦ raise (exception "InvalidShapeReferenceError" "missing shape reference")
    | some name ↦ get_shape_by_name name r.traits
  ]

  -- The loop of StructureShape.members
  unfoldable pub resolve_members : Dict ShapeRef → Result (Dict Shape)
  unfolding resolve_shape_ref
  resolve_members [] = ok []
  resolve_members ((name, r) ∷ refs) =
      let rest = resolve_members refs in
      resolve_shape_ref r >>= λ s. rest >>= λ more. ok ((name, s) ∷ more)

  abbrev resolve_entry : String → Option ShapeRef → Result Shape
  resolve_entry key none = raise (key_error key)
  resolve_entry key (some r) = resolve_shape_ref r

  -- StructureShape.members, ListShape.member, MapShape.key and MapShape.value
  unfoldable pub members_of : Shape → Result (Dict Shape)
  unfolding resolve_members
  members_of s = elim s.model.members [
    | none ↦ raise (key_error "members")
    | some refs ↦ resolve_members refs
  ]

  unfoldable pub member_of : Shape → Result Shape
  unfolding resolve_shape_ref
  member_of s = resolve_entry "member" s.model.member

  unfoldable pub key_of : Shape → Result Shape
  unfolding resolve_shape_ref
  key_of s = resolve_entry "key" s.model.key

  unfoldable pub value_of : Shape → Result Shape
  unfolding resolve_shape_ref
  value_of s = resolve_entry "value" s.model.value

-- metadata.get('required', [])
unfoldable pub required_members : Shape → List String
required_members s = elim s.model.traits.required [ none ↦ [] | some names ↦ names ]
