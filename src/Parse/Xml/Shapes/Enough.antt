-- ===== src/Parse/Xml/Shapes/Enough.antt =====
-- How deep the calls of `_parse_shape` go.
use jcsapitest.Prelude.{
  ℕ, zero, suc, ◌<◌, ◌≡◌, ◌≢◌, raise, refl, inl, inr, Option, none, some, List, [], ◌∷◌, String,
  Dict, get, has, Result, ok, arith, Bool-cases, Result-cases, Option-cases, >>=-congr, str_eq,
}
use jcsapitest.Value.{Value, Fields}
use jcsapitest.Model.{TypeName, Shape, ShapeMap, members_of, member_of, key_of, value_of}
use jcsapitest.Parse.Xml.{Node, Found, one, children, node_tag, build_name_to_xml_node}
use jcsapitest.Parse.Xml.Shapes.Shallow.{
  IsShallow, AllShallow, handle_structure-IsShallow, handle_list-IsShallow, handle_map-IsShallow,
  handle_scalar-IsShallow,
}
use jcsapitest.Parse.Xml.Shapes.{
  recursion_error, Flavour, parse_items, parse_pairs, parse_entries, parse_members, handle_list,
  handle_map, handle_structure, handler_of, parse_shape, put_pair, member_key_name, name_or,
  iterate, as_list,
}

abbrev pub Below : (Known : Shape → Type 0) → (Shape → ℕ) → Shape → Dict Shape → Type 0
Below Known rank s [] = Unit
Below Known rank s ((name, m) ∷ ms) = Known m × (rank m < rank s) × Below Known rank s ms

-- The shapes that are known refer to known ones of a lower rank: none contains itself.
pub record IsRanked (shapes : ShapeMap) (Known : Shape → Type 0) (rank : Shape → ℕ) : Type 0 where
  pub members :
      (s : Shape) (ms : Dict Shape) → Known s → members_of shapes s ≡ ok ms → Below Known rank s ms
  pub member : (s m : Shape) → Known s → member_of shapes s ≡ ok m → Known m × (rank m < rank s)
  pub key : (s m : Shape) → Known s → key_of shapes s ≡ ok m → Known m × (rank m < rank s)
  pub value : (s m : Shape) → Known s → value_of shapes s ≡ ok m → Known m × (rank m < rank s)

module _ (shapes : ShapeMap) (p q : Shape → Found Node → Result Value) where
  abbrev Agree : Shape → Type 0
  Agree s = (f : Found Node) → p s f ≡ q s f

  parse_items-Agree :
      (m : Shape) (ns : List Node) → Agree m → parse_items shapes p m ns ≡ parse_items shapes q m ns
  unfolding parse_items
  parse_items-Agree m [] same = refl
  parse_items-Agree m (n ∷ ns) same = rw (same (one n), parse_items-Agree m ns same) refl

  parse_pairs-Agree :
      (k v : Shape) (bound_key bound_value : Option Value) (ns : List Node)
      → Agree k
      → Agree v
      → parse_pairs shapes p k v bound_key bound_value ns
        ≡ parse_pairs shapes q k v bound_key bound_value ns
  unfolding parse_pairs
  parse_pairs-Agree k v bound_key bound_value [] same_key same_value = refl
  parse_pairs-Agree k v bound_key bound_value (n ∷ ns) same_key same_value =
      elim (Bool-cases (str_eq (node_tag n) (name_or "key" k))) [
        | inl is_key ↦
            rw (is_key, parse_pairs, same_key (one n))
              (>>=-congr (q k (one n)) _ _
                λ w. parse_pairs-Agree k v (some w) bound_value ns same_key same_value)
        | inr no_key ↦ elim (Bool-cases (str_eq (node_tag n) (name_or "value" v))) [
          | inl is_value ↦
              rw (no_key, parse_pairs, is_value, same_value (one n))
                (>>=-congr (q v (one n)) _ _
                  λ w. parse_pairs-Agree k v bound_key (some w) ns same_key same_value)
          | inr other ↦ rw (no_key, parse_pairs, other) refl
        ]
      ]

  parse_entries-Agree :
      (k v : Shape) (bound_key bound_value : Option Value) (done : Fields) (ns : List Node)
      → Agree k
      → Agree v
      → parse_entries shapes p k v bound_key bound_value done ns
        ≡ parse_entries shapes q k v bound_key bound_value done ns
  unfolding parse_entries
  parse_entries-Agree k v bound_key bound_value done [] same_key same_value = refl
  parse_entries-Agree k v bound_key bound_value done (n ∷ ns) same_key same_value =
      rw (parse_pairs-Agree k v bound_key bound_value (children n) same_key same_value) (
        >>=-congr (parse_pairs shapes q k v bound_key bound_value (children n)) _ _ λ bound.
          >>=-congr (put_pair shapes q bound.0 bound.1 done) _ _
            λ more. parse_entries-Agree k v bound.0 bound.1 more ns same_key same_value)

  abbrev AgreeAll : Dict Shape → Type 0
  AgreeAll [] = Unit
  AgreeAll ((name, m) ∷ ms) = Agree m × AgreeAll ms

  parse_members-Agree :
      (ms : Dict Shape) (xml_dict : Dict (Found Node))
      → AgreeAll ms
      → parse_members shapes p ms xml_dict ≡ parse_members shapes q ms xml_dict
  unfolding parse_members
  parse_members-Agree [] xml_dict same = refl
  parse_members-Agree ((name, m) ∷ ms) xml_dict same =
      elim (Bool-cases (has "location" m.model.traits.serialization)) [
        | inl located ↦ rw located (parse_members-Agree ms xml_dict same.1)
        | inr unlocated ↦ rw unlocated (
            >>=-congr (member_key_name shapes m name) _ _ λ xml_name.
              elim (Option-cases (get xml_name xml_dict)) [
                | inl e ↦ rw e (parse_members-Agree ms xml_dict same.1)
                | inr (f, e) ↦
                    rw (e, same.0 f)
                      (>>=-congr (q m f) _ _ λ v. rw (parse_members-Agree ms xml_dict same.1) refl)
              ])
      ]

module _ (shapes : ShapeMap) (Known : Shape → Type 0) (rank : Shape → ℕ)
    (ranked : IsRanked shapes Known rank) (p q : Shape → Found Node → Result Value) (s : Shape)
    (known : Known s)
    (same : (m : Shape) → Known m → rank m < rank s → (f : Found Node) → p m f ≡ q m f) where
  Below-AgreeAll : (ms : Dict Shape) → Below Known rank s ms → AgreeAll shapes p q ms
  Below-AgreeAll [] below = tt
  Below-AgreeAll ((name, m) ∷ ms) below = (same m below.0 below.1, Below-AgreeAll ms below.2)

  handle_structure-Agree :
      (f : Found Node) → handle_structure shapes p s f ≡ handle_structure shapes q s f
  unfolding handle_structure
  handle_structure-Agree f = elim (Result-cases (members_of shapes s)) [
    | inl (x, e) ↦ rw e refl
    | inr (ms, e) ↦
        rw
          (
            e,
            parse_members-Agree shapes p q ms (build_name_to_xml_node (iterate f))
                (Below-AgreeAll ms (ranked.members s ms known e)),
          )
          refl
  ]

  handle_list-Agree : (f : Found Node) → handle_list shapes p s f ≡ handle_list shapes q s f
  unfolding handle_list
  handle_list-Agree f = elim (Result-cases (member_of shapes s)) [
    | inl (x, e) ↦ rw e refl
    | inr (m, e) ↦
        rw
          (
            e,
            parse_items-Agree shapes p q m (iterate (as_list s f))
                (let (is_known, lower) = ranked.member s m known e in same m is_known lower),
          )
          refl
  ]

  handle_map-Agree : (f : Found Node) → handle_map shapes p s f ≡ handle_map shapes q s f
  unfolding handle_map
  handle_map-Agree f = elim (Result-cases (key_of shapes s)) [
    | inl (x, e) ↦ rw e refl
    | inr (k, e) ↦ elim (Result-cases (value_of shapes s)) [
      | inl (x, e') ↦ rw (e, e') refl
      | inr (v, e') ↦
          rw
            (
              e,
              e',
              parse_entries-Agree shapes p q k v none none Fields.end (iterate (as_list s f))
                  (let (is_known, lower) = ranked.key s k known e in same k is_known lower)
                  (let (is_known, lower) = ranked.value s v known e' in same v is_known lower),
            )
            refl
    ]
  ]

module _ (shapes : ShapeMap) (Known : Shape → Type 0) (rank : Shape → ℕ)
    (p : Shape → Found Node → Result Value) (s : Shape)
    (calm : (m : Shape) → Known m → rank m < rank s → (g : Found Node) → IsShallow (p m g)) where
  Below-AllShallow : (ms : Dict Shape) → Below Known rank s ms → AllShallow shapes p ms
  Below-AllShallow [] below = tt
  Below-AllShallow ((name, m) ∷ ms) below = (calm m below.0 below.1, Below-AllShallow ms below.2)

module _ (shapes : ShapeMap) (float_of : String → Result Value)
    (parse_timestamp parse_blob : String → Result Value) (flavour : Flavour)
    (Known : Shape → Type 0) (rank : Shape → ℕ) (ranked : IsRanked shapes Known rank) where
  handler_of-Agree :
      (p q : Shape → Found Node → Result Value) (t : TypeName) (s : Shape) (f : Found Node)
      → Known s
      → ((m : Shape) → Known m → rank m < rank s → (g : Found Node) → p m g ≡ q m g)
      → handler_of shapes float_of parse_timestamp parse_blob flavour p t s f
        ≡ handler_of shapes float_of parse_timestamp parse_blob flavour q t s f
  unfolding handler_of
  handler_of-Agree p q TypeName.structure s f known same =
      handle_structure-Agree shapes Known rank ranked p q s known same f
  handler_of-Agree p q TypeName.list s f known same =
      handle_list-Agree shapes Known rank ranked p q s known same f
  handler_of-Agree p q TypeName.map s f known same =
      handle_map-Agree shapes Known rank ranked p q s known same f
  handler_of-Agree p q t s f known same = refl

  parse_shape-Agree :
      (depth more : ℕ) (s : Shape) (f : Found Node)
      → Known s
      → rank s < depth
      → rank s < more
      → parse_shape shapes float_of parse_timestamp parse_blob flavour depth s f
        ≡ parse_shape shapes float_of parse_timestamp parse_blob flavour more s f
  unfolding parse_shape
  parse_shape-Agree zero more s f known low high = elim low [ ]
  parse_shape-Agree (suc depth) zero s f known low high = elim high [ ]
  parse_shape-Agree (suc depth) (suc more) s f known low high =
      handler_of-Agree _ _ s.type_name s f known
        λ m is_known below g. parse_shape-Agree depth more m g is_known (omega arith) (omega arith)

  module _ (calm_float : (t : String) → IsShallow (float_of t))
      (calm_timestamp : (t : String) → IsShallow (parse_timestamp t))
      (calm_blob : (t : String) → IsShallow (parse_blob t)) where
    handler_of-IsShallow :
        (p : Shape → Found Node → Result Value) (t : TypeName) (s : Shape) (f : Found Node)
        → Known s
        → ((m : Shape) → Known m → rank m < rank s → (g : Found Node) → IsShallow (p m g))
        → IsShallow (handler_of shapes float_of parse_timestamp parse_blob flavour p t s f)
    unfolding handler_of
    handler_of-IsShallow p TypeName.structure s f known calm =
        handle_structure-IsShallow shapes p s f
          λ ms e. Below-AllShallow shapes Known rank p s calm ms (ranked.members s ms known e)
    handler_of-IsShallow p TypeName.list s f known calm =
        handle_list-IsShallow shapes p s f
          λ m e. let (is_known, lower) = ranked.member s m known e in calm m is_known lower
    handler_of-IsShallow p TypeName.map s f known calm =
        handle_map-IsShallow shapes p s f
          (λ m e. let (is_known, lower) = ranked.key s m known e in calm m is_known lower)
          (λ m e. let (is_known, lower) = ranked.value s m known e in calm m is_known lower)
    handler_of-IsShallow p t s f known calm =
        handle_scalar-IsShallow float_of parse_timestamp parse_blob calm_float calm_timestamp
          calm_blob flavour s f

    parse_shape-IsShallow :
        (depth : ℕ) (s : Shape) (f : Found Node)
        → Known s
        → rank s < depth
        → IsShallow (parse_shape shapes float_of parse_timestamp parse_blob flavour depth s f)
    unfolding parse_shape
    parse_shape-IsShallow zero s f known low = elim low [ ]
    parse_shape-IsShallow (suc depth) s f known low =
        handler_of-IsShallow (parse_shape shapes float_of parse_timestamp parse_blob flavour depth)
          s.type_name s f known
          λ m is_known below g. parse_shape-IsShallow depth m g is_known (omega arith)

    -- If the known shapes do not contain themselves, and if float() and the parsers of timestamps and blobs do not
    -- raise the RuntimeError of the interpreter's depth, then a depth of calls above the rank of a known
    -- shape is enough for every document: that RuntimeError is not raised, and with more depth the outcome
    -- is the same.
    pub parse_shape-enough :
        (depth more : ℕ) (s : Shape) (f : Found Node)
        → Known s
        → rank s < depth
        → rank s < more
        → (parse_shape shapes float_of parse_timestamp parse_blob flavour depth s f
            ≢ raise recursion_error)
          × (parse_shape shapes float_of parse_timestamp parse_blob flavour depth s f
              ≡ parse_shape shapes float_of parse_timestamp parse_blob flavour more s f)
    parse_shape-enough depth more s f known low high =
        (parse_shape-IsShallow depth s f known low, parse_shape-Agree depth more s f known low high)
