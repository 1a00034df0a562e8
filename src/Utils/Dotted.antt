-- ===== src/Utils/Dotted.antt =====
-- What `set_value_from_jmespath` of botocore/utils.py sets is found again at the same dotted path.
use Prim.Native.Char.{code}
use jcsapitest.Prelude.{
  ℕ, Bool, true, ◌&&◌, ◌||◌, ◌==◌, leb, String, ◌≡◌, refl, inl, inr, false, Bool-cases, none, some,
  List, [], ◌∷◌, str_eq, eq_iff, sym, arith, ok, >>=-eq-ok,
}
use jcsapitest.Value.{Value, Fields, dict, find_field, set_field, null}
use jcsapitest.Utils.{
  child, set_key, set_path, is_last, split_dot, set_value_from_jmespath, validate_jmespath_for_set,
}

-- A lookup of one key after another: None when there is none.
unfoldable pub dotted : List String → Value → Value
unfolding find_field
dotted [] v = v
dotted (k ∷ ks) (Value.dict fs) = elim (find_field k fs) [ none ↦ null | some v ↦ dotted ks v ]
dotted (k ∷ ks) v = null

abbrev is_letter : ℕ → Bool
is_letter c = leb b'a' c && leb c b'z' || leb b'A' c && leb c b'Z' || c == b'_'

abbrev are_letters : String → Bool
are_letters String.[] = true
are_letters (String.◌∷◌ c s) =
    (is_letter (code c) || leb b'0' (code c) && leb (code c) b'9') && are_letters s

-- A name that JMESPath takes without quotes
unfoldable pub is_identifier : String → Bool
is_identifier String.[] = false
is_identifier (String.◌∷◌ c s) = is_letter (code c) && are_letters s

identifier_nonempty : (k : String) → is_identifier k ≡ true → str_eq k "" ≡ false
unfolding is_identifier
identifier_nonempty k h = elim (Bool-cases (str_eq k "")) [
  | inl same ↦
      let e : k ≡ "" = (eq_iff k "").0 same in let bad : is_identifier "" ≡ true = rw (e) at h in cc
  | inr other ↦ other
]

-- The keys are identifiers, and there is one.
abbrev pub AreKeys : List String → Type 0
AreKeys [] = ⊥
AreKeys (k ∷ []) = is_identifier k ≡ true
AreKeys (k ∷ j ∷ ks) = (is_identifier k ≡ true) × AreKeys (j ∷ ks)

find_field-set_field :
    (k : String) (v : Value) (fs : Fields) → find_field k (set_field k v fs) ≡ some v
unfolding find_field set_field
find_field-set_field k v Fields.end = ground (arith, eq_iff k k)
find_field-set_field k v (Fields.field j w fs) =
    ground (arith, eq_iff j k, eq_iff k k, find_field-set_field k v fs)

-- A value that is set is found.
dotted-set_key :
    (k : String) (ks : List String) (v source out : Value)
    → set_key k v source ≡ ok out
    → dotted (k ∷ ks) out ≡ dotted ks v
unfolding dotted set_key
dotted-set_key k ks v (Value.dict fs) out h =
    let e : dict (set_field k v fs) ≡ out = cc in
    rw (sym e, dotted, find_field-set_field k v fs) refl
dotted-set_key k ks v source out h = cc

AreKeys-is_last : (k : String) (ks : List String) → AreKeys (k ∷ ks) → is_last (k ∷ ks) ≡ false
AreKeys-is_last k [] h = identifier_nonempty k h
AreKeys-is_last k (j ∷ ks) h = refl

pub dotted-set_path :
    (ks : List String) (v source out : Value)
    → AreKeys ks
    → set_path ks v source ≡ ok out
    → dotted ks out ≡ v
unfolding set_path dotted
dotted-set_path [] v source out keys h = absurd keys
dotted-set_path (k ∷ []) v source out keys h =
    let set = rw (identifier_nonempty k keys, set_path) at h in dotted-set_key k [] v source out set
dotted-set_path (k ∷ j ∷ ks) v source out keys h =
    let more = AreKeys-is_last j ks keys.1 in
    let steps = rw (identifier_nonempty k keys.0, more, set_path) at h in
    let (below, found, h₁) = >>=-eq-ok (child k source) _ steps in
    let (changed, set, h₂) = >>=-eq-ok (set_path (j ∷ ks) v below) _ h₁ in
    cc (
      dotted-set_key k (j ∷ ks) changed source out h₂,
      dotted-set_path (j ∷ ks) v below changed keys.1 set,
    )

-- The same for an expression.
pub dotted-set_value :
    (source : Value) (e : String) (v out : Value)
    → AreKeys (split_dot e)
    → set_value_from_jmespath source e v ≡ ok out
    → dotted (split_dot e) out ≡ v
unfolding set_value_from_jmespath
dotted-set_value source e v out keys h =
    let (done, checked, h₁) = >>=-eq-ok (validate_jmespath_for_set e) _ h in
    dotted-set_path (split_dot e) v source out keys h₁

set_key-any :
    (k : String) (v w source out : Value)
    → set_key k v source ≡ ok out
    → (out' : Value) × (set_key k w source ≡ ok out')
unfolding set_key
set_key-any k v w (Value.dict fs) out h = (dict (set_field k w fs), refl)
set_key-any k v w source out h = cc

-- Whether a path can be set does not depend on the value.
pub set_path-any :
    (ks : List String) (v w source out : Value)
    → set_path ks v source ≡ ok out
    → (out' : Value) × (set_path ks w source ≡ ok out')
unfolding set_path
set_path-any [] v w source out h = cc
set_path-any (k ∷ ks) v w source out h = elim (Bool-cases (str_eq k "")) [
  | inl empty ↦ cc (rw (empty, set_path) at h)
  | inr name ↦ elim (Bool-cases (is_last ks)) [
    | inl last ↦
        let (out', e) = set_key-any k v w source out (rw (name, last, set_path) at h) in
        (out', rw (name, last, set_path) e)
    | inr more ↦
        let (below, found, h₁) = >>=-eq-ok (child k source) _ (rw (name, more, set_path) at h) in
        let (changed, set, h₂) = >>=-eq-ok (set_path ks v below) _ h₁ in
        let (changed', set') = set_path-any ks v w below changed set in
        let (out', e) = set_key-any k changed changed' source out h₂ in
        (out', rw (name, more, found, set', set_path) e)
  ]
]

pub set_value-any :
    (source : Value) (e : String) (v w out : Value)
    → set_value_from_jmespath source e v ≡ ok out
    → (out' : Value) × (set_value_from_jmespath source e w ≡ ok out')
unfolding set_value_from_jmespath
set_value-any source e v w out h =
    let (done, checked, h₁) = >>=-eq-ok (validate_jmespath_for_set e) _ h in
    let (out', set) = set_path-any (split_dot e) v w source out h₁ in
    (out', rw (checked, set_value_from_jmespath) set)
