-- ===== src/Parse/Xml/Shapes/Shallow.antt =====
-- What the handlers of botocore/parsers.py raise by themselves is not the interpreter's RuntimeError.
use jcsapitest.Prelude.{
  ◌≡◌, ◌≢◌, refl, ap, inl, inr, true, false, Option, none, some, List, [], ◌∷◌, String, Dict, get,
  has, Exception, key_error, type_error, attribute_error, value_error, exception, isinstance,
  Result, ok, raise, ◌>>=◌, arith, Bool-cases, Option-cases, str_eq,
}
use jcsapitest.Text.{int_of, read_signed, strip}
use jcsapitest.Value.{Value, Items, Fields}
use jcsapitest.Model.{
  ShapeRef, get_shape_by_name, resolve_shape_ref, resolve_members, Shape, ShapeMap, members_of,
  member_of, key_of, value_of,
}
use jcsapitest.Parse.Xml.{
  Node, Found, one, many, children, text_of, node_tag, build_name_to_xml_node,
}
use jcsapitest.Parse.Xml.Shapes.{
  Flavour, query, rest_xml, recursion_error, parse_items, parse_pairs, parse_entries, parse_members,
  handle_list, handle_map, unbound, text_content, handle_structure, put_pair, member_key_name,
  name_or, iterate, as_list, handle_text, handle_node, handle_nodes, handle_scalar,
}

abbrev pub IsShallow {ℓ} : {A : Type ℓ} → Result A → Type ℓ
IsShallow r = r ≢ raise recursion_error

raise-inj {ℓ} : {A : Type ℓ} {x y : Exception} → ◌≡◌ {A = Result A} (raise x) (raise y) → x ≡ y
raise-inj e = cc

pub ok-IsShallow {ℓ} : {A : Type ℓ} (a : A) → IsShallow (ok a)
ok-IsShallow a e = cc

pub raise-IsShallow {ℓ} :
    {A : Type ℓ} (x : Exception) → isinstance x "RuntimeError" ≡ false → IsShallow {A = A} (raise x)
unfolding isinstance
raise-IsShallow {A = A} x other e =
    let same = raise-inj {A = A} e in
    let known : isinstance recursion_error "RuntimeError" ≡ true = refl in
    cc (ap (λ y. isinstance y "RuntimeError") same, other, known)

pub >>=-IsShallow {ℓ κ} :
    {A : Type ℓ} {B : Type κ} (m : Result A) (k : A → Result B)
    → IsShallow m
    → ((a : A) → m ≡ ok a → IsShallow (k a))
    → IsShallow (m >>= k)
>>=-IsShallow {A = A} {B = B} (raise x) k first rest e =
    let same : ◌≡◌ {A = Result A} (raise x) (raise recursion_error) =
      ap raise (raise-inj {A = B} e) in
    first same
>>=-IsShallow (ok a) k first rest e = rest a refl e

int_of-IsShallow : (t : String) → IsShallow (int_of t)
unfolding int_of isinstance
int_of-IsShallow t = elim (Option-cases (read_signed (strip t))) [
  | inl e ↦
      rw (int_of, e) (raise-IsShallow (value_error "invalid literal for int() with base 10") refl)
  | inr (z, e) ↦ rw (int_of, e) (ok-IsShallow z)
]

module _ (shapes : ShapeMap) where
  resolve_shape_ref-IsShallow : (r : ShapeRef) → IsShallow (resolve_shape_ref shapes r)
  unfolding resolve_shape_ref get_shape_by_name isinstance
  resolve_shape_ref-IsShallow r = elim (Option-cases r.shape) [
    | inl e ↦
        rw e
          (raise-IsShallow (exception "InvalidShapeReferenceError" "missing shape reference") refl)
    | inr (name, e) ↦ elim (Option-cases (get name shapes)) [
      | inl e₁ ↦
          rw (e, resolve_shape_ref, get_shape_by_name, e₁)
            (raise-IsShallow (exception "NoShapeFoundError" name) refl)
      | inr (m, e₁) ↦ elim (Option-cases m.type_name) [
        | inl e₂ ↦
            rw (e, resolve_shape_ref, get_shape_by_name, e₁, e₂)
              (raise-IsShallow (exception "InvalidShapeError" name) refl)
        | inr (t, e₂) ↦ rw (e, resolve_shape_ref, get_shape_by_name, e₁, e₂) (ok-IsShallow _)
      ]
    ]
  ]

  resolve_members-IsShallow : (refs : Dict ShapeRef) → IsShallow (resolve_members shapes refs)
  unfolding resolve_members
  resolve_members-IsShallow [] = ok-IsShallow []
  resolve_members-IsShallow ((name, r) ∷ refs) =
      >>=-IsShallow (resolve_shape_ref shapes r) _ (resolve_shape_ref-IsShallow r) λ s e.
        >>=-IsShallow (resolve_members shapes refs) _ (resolve_members-IsShallow refs)
          λ more e'. ok-IsShallow ((name, s) ∷ more)

  pub members_of-IsShallow : (s : Shape) → IsShallow (members_of shapes s)
  unfolding members_of isinstance
  members_of-IsShallow s = elim (Option-cases s.model.members) [
    | inl e ↦ rw e (raise-IsShallow (key_error "members") refl)
    | inr (refs, e) ↦ rw e (resolve_members-IsShallow refs)
  ]

  pub member_of-IsShallow : (s : Shape) → IsShallow (member_of shapes s)
  unfolding member_of isinstance
  member_of-IsShallow s = elim (Option-cases s.model.member) [
    | inl e ↦ rw e (raise-IsShallow (key_error "member") refl)
    | inr (r, e) ↦ rw e (resolve_shape_ref-IsShallow r)
  ]

  pub key_of-IsShallow : (s : Shape) → IsShallow (key_of shapes s)
  unfolding key_of isinstance
  key_of-IsShallow s = elim (Option-cases s.model.key) [
    | inl e ↦ rw e (raise-IsShallow (key_error "key") refl)
    | inr (r, e) ↦ rw e (resolve_shape_ref-IsShallow r)
  ]

  pub value_of-IsShallow : (s : Shape) → IsShallow (value_of shapes s)
  unfolding value_of isinstance
  value_of-IsShallow s = elim (Option-cases s.model.value) [
    | inl e ↦ rw e (raise-IsShallow (key_error "value") refl)
    | inr (r, e) ↦ rw e (resolve_shape_ref-IsShallow r)
  ]

  member_key_name-IsShallow :
      (s : Shape) (name : String) → IsShallow (member_key_name shapes s name)
  unfolding member_key_name
  member_key_name-IsShallow s name = ground (arith, member_of-IsShallow s)

  module _ (parse : Shape → Found Node → Result Value) where
    parse_items-IsShallow :
        (m : Shape) (ns : List Node)
        → ((f : Found Node) → IsShallow (parse m f))
        → IsShallow (parse_items shapes parse m ns)
    unfolding parse_items
    parse_items-IsShallow m [] calm = ok-IsShallow Items.nil
    parse_items-IsShallow m (n ∷ ns) calm = >>=-IsShallow (parse m (one n)) _ (calm (one n)) λ v e.
        >>=-IsShallow (parse_items shapes parse m ns) _ (parse_items-IsShallow m ns calm)
          λ vs e'. ok-IsShallow (Items.cons v vs)

    parse_pairs-IsShallow :
        (k v : Shape) (bound_key bound_value : Option Value) (ns : List Node)
        → ((f : Found Node) → IsShallow (parse k f))
        → ((f : Found Node) → IsShallow (parse v f))
        → IsShallow (parse_pairs shapes parse k v bound_key bound_value ns)
    unfolding parse_pairs isinstance
    parse_pairs-IsShallow k v bound_key bound_value [] calm_key calm_value =
        ok-IsShallow (bound_key, bound_value)
    parse_pairs-IsShallow k v bound_key bound_value (n ∷ ns) calm_key calm_value =
        elim (Bool-cases (str_eq (node_tag n) (name_or "key" k))) [
          | inl is_key ↦
              rw (parse_pairs, is_key)
                (>>=-IsShallow (parse k (one n)) _ (calm_key (one n))
                  λ w e. parse_pairs-IsShallow k v (some w) bound_value ns calm_key calm_value)
          | inr no_key ↦ elim (Bool-cases (str_eq (node_tag n) (name_or "value" v))) [
            | inl is_value ↦
                rw (parse_pairs, no_key, is_value)
                  (>>=-IsShallow (parse v (one n)) _ (calm_value (one n))
                    λ w e. parse_pairs-IsShallow k v bound_key (some w) ns calm_key calm_value)
            | inr other ↦
                rw (parse_pairs, no_key, other)
                  (raise-IsShallow (exception "ResponseParserError" "Unknown tag") refl)
          ]
        ]

    put_pair-IsShallow :
        (key value : Option Value) (done : Fields)
        → IsShallow (put_pair shapes parse key value done)
    unfolding isinstance
    put_pair-IsShallow key none done = raise-IsShallow (unbound "val_name") refl
    put_pair-IsShallow none (some v) done = raise-IsShallow (unbound "key_name") refl
    put_pair-IsShallow (some (Value.str k)) (some v) done = ok-IsShallow _
    put_pair-IsShallow (some k) (some v) done = raise-IsShallow (type_error "unhashable type") refl

    parse_entries-IsShallow :
        (k v : Shape) (bound_key bound_value : Option Value) (done : Fields) (ns : List Node)
        → ((f : Found Node) → IsShallow (parse k f))
        → ((f : Found Node) → IsShallow (parse v f))
        → IsShallow (parse_entries shapes parse k v bound_key bound_value done ns)
    unfolding parse_entries
    parse_entries-IsShallow k v bound_key bound_value done [] calm_key calm_value =
        ok-IsShallow done
    parse_entries-IsShallow k v bound_key bound_value done (n ∷ ns) calm_key calm_value =
        >>=-IsShallow (parse_pairs shapes parse k v bound_key bound_value (children n)) _
          (parse_pairs-IsShallow k v bound_key bound_value (children n) calm_key calm_value)
          λ bound e.
            >>=-IsShallow (put_pair shapes parse bound.0 bound.1 done) _
              (put_pair-IsShallow bound.0 bound.1 done)
              λ more e'. parse_entries-IsShallow k v bound.0 bound.1 more ns calm_key calm_value

    abbrev pub AllShallow : Dict Shape → Type 0
    AllShallow [] = Unit
    AllShallow ((name, m) ∷ ms) = ((f : Found Node) → IsShallow (parse m f)) × AllShallow ms

    parse_members-IsShallow :
        (ms : Dict Shape) (xml_dict : Dict (Found Node))
        → AllShallow ms
        → IsShallow (parse_members shapes parse ms xml_dict)
    unfolding parse_members
    parse_members-IsShallow [] xml_dict calm = ok-IsShallow Fields.end
    parse_members-IsShallow ((name, m) ∷ ms) xml_dict calm =
        let rest = parse_members-IsShallow ms xml_dict calm.1 in
        elim (Bool-cases (has "location" m.model.traits.serialization)) [
          | inl located ↦ rw located rest
          | inr unlocated ↦ rw unlocated (
              >>=-IsShallow (member_key_name shapes m name) _ (member_key_name-IsShallow m name)
                λ xml_name e. elim (Option-cases (get xml_name xml_dict)) [
                  | inl missing ↦ rw missing rest
                  | inr (f, there) ↦ rw there (
                      >>=-IsShallow (parse m f) _ (calm.0 f) λ v e'.
                        >>=-IsShallow (parse_members shapes parse ms xml_dict) _ rest
                          λ fs e''. ok-IsShallow (Fields.field name v fs))
                ])
        ]

    pub handle_list-IsShallow :
        (s : Shape) (f : Found Node)
        → ((m : Shape) → member_of shapes s ≡ ok m → (g : Found Node) → IsShallow (parse m g))
        → IsShallow (handle_list shapes parse s f)
    unfolding handle_list
    handle_list-IsShallow s f calm =
        >>=-IsShallow (member_of shapes s) _ (member_of-IsShallow s) λ m e.
          >>=-IsShallow (parse_items shapes parse m (iterate (as_list s f))) _
            (parse_items-IsShallow m (iterate (as_list s f)) (calm m e))
            λ vs e'. ok-IsShallow (Value.list vs)

    pub handle_map-IsShallow :
        (s : Shape) (f : Found Node)
        → ((m : Shape) → key_of shapes s ≡ ok m → (g : Found Node) → IsShallow (parse m g))
        → ((m : Shape) → value_of shapes s ≡ ok m → (g : Found Node) → IsShallow (parse m g))
        → IsShallow (handle_map shapes parse s f)
    unfolding handle_map
    handle_map-IsShallow s f calm_key calm_value =
        >>=-IsShallow (key_of shapes s) _ (key_of-IsShallow s) λ k e.
          >>=-IsShallow (value_of shapes s) _ (value_of-IsShallow s) λ v e'.
            >>=-IsShallow
              (parse_entries shapes parse k v none none Fields.end (iterate (as_list s f))) _
              (parse_entries-IsShallow k v none none Fields.end (iterate (as_list s f))
                (calm_key k e) (calm_value v e'))
              λ fs e''. ok-IsShallow (Value.dict fs)

    pub handle_structure-IsShallow :
        (s : Shape) (f : Found Node)
        → ((ms : Dict Shape) → members_of shapes s ≡ ok ms → AllShallow ms)
        → IsShallow (handle_structure shapes parse s f)
    unfolding handle_structure
    handle_structure-IsShallow s f calm =
        >>=-IsShallow (members_of shapes s) _ (members_of-IsShallow s) λ ms e.
          >>=-IsShallow (parse_members shapes parse ms (build_name_to_xml_node (iterate f))) _
            (parse_members-IsShallow ms (build_name_to_xml_node (iterate f)) (calm ms e))
            λ fs e'. ok-IsShallow (Value.dict fs)

module _ (float_of : String → Result Value) (parse_timestamp parse_blob : String → Result Value)
    (calm_float : (t : String) → IsShallow (float_of t))
    (calm_timestamp : (t : String) → IsShallow (parse_timestamp t))
    (calm_blob : (t : String) → IsShallow (parse_blob t)) where
  handle_text-IsShallow :
      (s : Shape) (t : String) → IsShallow (handle_text float_of parse_timestamp parse_blob s t)
  unfolding handle_text isinstance
  handle_text-IsShallow s t = ground (
    arith,
    raise-IsShallow {A = Value} (attribute_error "tag") refl,
    int_of-IsShallow t,
    calm_float t,
    calm_timestamp t,
    calm_blob t,
  )

  handle_node-IsShallow :
      (flavour : Flavour) (s : Shape) (n : Node)
      → IsShallow (handle_node float_of parse_timestamp parse_blob flavour s n)
  unfolding handle_node
  handle_node-IsShallow query s n =
      ground (arith, handle_text-IsShallow s (text_content (text_of n)))
  handle_node-IsShallow rest_xml s n =
      ground (arith, handle_text-IsShallow s (text_content (text_of n)))

  handle_nodes-IsShallow :
      (flavour : Flavour) (s : Shape)
      → IsShallow (handle_nodes float_of parse_timestamp parse_blob flavour s)
  unfolding handle_nodes isinstance
  handle_nodes-IsShallow query s = ground (
    arith,
    raise-IsShallow {A = Value} (attribute_error "text") refl,
    raise-IsShallow {A = Value} (type_error "argument must be a string") refl,
  )
  handle_nodes-IsShallow rest_xml s =
      ground (arith, raise-IsShallow {A = Value} (type_error "argument must be a string") refl)

  pub handle_scalar-IsShallow :
      (flavour : Flavour) (s : Shape) (f : Found Node)
      → IsShallow (handle_scalar float_of parse_timestamp parse_blob flavour s f)
  unfolding handle_scalar
  handle_scalar-IsShallow flavour s (one n) = handle_node-IsShallow flavour s n
  handle_scalar-IsShallow flavour s (many ns) = handle_nodes-IsShallow flavour s
