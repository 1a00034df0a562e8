-- ===== src/Parse/Xml/Shapes/Flattened.antt =====
-- What becomes of the children of an element that is parsed as a structure.
use jcsapitest.Prelude.{
  ℕ, zero, suc, ◌≡◌, refl, sym, ◌∙◌, ◌⊎◌, inl, inr, Bool, true, false, none, some, List, [], ◌∷◌,
  String, Dict, get, has, Result, ok, Bool-cases, Option-cases, str_eq, eq_iff, eq_refl, >>=-eq-ok,
  ok-inj,
}
use mathlib.Core.Path.{subst}
use jcsapitest.Value.{Value, Items, Fields, list, dict, find_field}
use jcsapitest.Model.{TypeName, Shape, ShapeMap, members_of, member_of}
use jcsapitest.Serialize.Names.{is_shape_flattened}
use jcsapitest.Parse.Xml.{Node, Found, one, many, children, named, build_name_to_xml_node}
use jcsapitest.Parse.Xml.Children.{items_named, found, get-build_name_to_xml_node}
use jcsapitest.Parse.Xml.Shapes.{
  Flavour, parse_items, parse_members, handle_list, handle_structure, handler_of, parse_shape,
  member_key_name, iterate, as_list,
}

-- No two members have one name.
abbrev pub Distinct : Dict Shape → Type 0
Distinct [] = Unit
Distinct ((k, x) ∷ d) = (get k d ≡ none) × Distinct d

abbrev pub located : Shape → Bool
located m = has "location" m.model.traits.serialization

module _ (shapes : ShapeMap) (parse : Shape → Found Node → Result Value)
    (xml_dict : Dict (Found Node)) where
  -- One round of the loop that returned, with what the rounds after it gave
  abbrev Round : String → Shape → Fields → Fields → Type 0
  Round k m gs fs =
      (((located m ≡ true) × (fs ≡ gs)))
      ⊎ ((key : String) × (member_key_name shapes m k ≡ ok key)
          × (((get key xml_dict ≡ none) × (fs ≡ gs))
              ⊎ ((f : Found Node) × (v : Value) × (get key xml_dict ≡ some f)
                  × (parse m f ≡ ok v)
                  × (fs ≡ Fields.field k v gs))))

  parse_members-Round :
      (k : String) (m : Shape) (members : Dict Shape) {fs : Fields}
      → parse_members shapes parse ((k, m) ∷ members) xml_dict ≡ ok fs
      → (gs : Fields) × (parse_members shapes parse members xml_dict ≡ ok gs) × Round k m gs fs
  unfolding parse_members
  parse_members-Round k m members {fs} returned = elim (Bool-cases (located m)) [
    | inl there ↦ let skipped = rw there at returned in (fs, skipped, inl (there, refl))
    | inr not_there ↦
        let taken = rw not_there at returned in
        let (key, named_, after) = >>=-eq-ok (member_key_name shapes m k) _ taken in
        elim (Option-cases (get key xml_dict)) [
          | inl e ↦ let skipped = rw e at after in (fs, skipped, inr (key, named_, inl (e, refl)))
          | inr (f, e) ↦
              let parsed = rw e at after in
              let (v, is_v, then_) = >>=-eq-ok (parse m f) _ parsed in
              let (gs, rest, done) =
                >>=-eq-ok (parse_members shapes parse members xml_dict) _ then_ in
              (gs, rest, inr (key, named_, inr (f, v, e, is_v, sym (ok-inj done))))
        ]
  ]

  Round-keeps :
      (k name : String) (m : Shape) {gs fs : Fields}
      → str_eq k name ≡ false
      → Round k m gs fs
      → find_field name fs ≡ find_field name gs
  unfolding find_field
  Round-keeps k name m differs (inl (there, e)) = rw e refl
  Round-keeps k name m differs (inr (key, named_, inl (missing, e))) = rw e refl
  Round-keeps k name m differs (inr (key, named_, inr (f, v, there, parsed, e))) =
      rw (e, differs) refl

  parse_members-absent :
      (name : String) (members : Dict Shape) {fs : Fields}
      → get name members ≡ none
      → parse_members shapes parse members xml_dict ≡ ok fs
      → find_field name fs ≡ none
  unfolding get find_field
  parse_members-absent name [] absent returned = unfold parse_members in rw (← ok-inj returned) refl
  parse_members-absent name ((k, m) ∷ members) absent returned = elim (Bool-cases (str_eq k name)) [
    | inl same ↦ let there = rw same at absent in cc
    | inr differs ↦
        let (gs, rest, round) = parse_members-Round k m members returned in
        let before = parse_members-absent name members (rw differs at absent) rest in
        Round-keeps k name m differs round ∙ before
  ]

  -- What a member without a location gives, whose name in the document is `key`
  abbrev pub Gives : String → Shape → String → Fields → Type 0
  Gives name m key fs =
      ((get key xml_dict ≡ none) × (find_field name fs ≡ none))
      ⊎ ((f : Found Node) × (v : Value) × (get key xml_dict ≡ some f)
          × (parse m f ≡ ok v)
          × (find_field name fs ≡ some v))

  Round-Gives :
      (k : String) (m : Shape) (key : String) {gs fs : Fields}
      → find_field k gs ≡ none
      → located m ≡ false
      → member_key_name shapes m k ≡ ok key
      → Round k m gs fs
      → Gives k m key fs
  unfolding find_field
  Round-Gives k m key absent plain_ keyed (inl (there, e)) = cc
  Round-Gives k m key absent plain_ keyed (inr (j, named_, inl (missing, e))) =
      let same : j ≡ key = cc in inl (rw (← same) missing, rw e absent)
  Round-Gives k m key absent plain_ keyed (inr (j, named_, inr (f, v, there, parsed, e))) =
      let same : j ≡ key = cc in inr (f, v, rw (← same) there, parsed, rw (e, eq_refl k) refl)

  parse_members-Gives :
      (name : String) (m : Shape) (key : String) (members : Dict Shape) {fs : Fields}
      → Distinct members
      → get name members ≡ some m
      → located m ≡ false
      → member_key_name shapes m name ≡ ok key
      → parse_members shapes parse members xml_dict ≡ ok fs
      → Gives name m key fs
  unfolding get find_field
  parse_members-Gives name m key [] distinct there plain_ keyed returned = cc
  parse_members-Gives name m key ((k, m') ∷ members) {fs} distinct there plain_ keyed returned =
      elim (Bool-cases (str_eq k name)) [
        | inl same ↦
            let (gs, rest, round) = parse_members-Round k m' members returned in
            let here : m' ≡ m = let there' = rw same at there in cc in
            let e = (eq_iff k name).0 same in
            let keyed' : member_key_name shapes m' k ≡ ok key = rw (here, e) keyed in
            let gives =
              Round-Gives k m' key (parse_members-absent k members distinct.0 rest) (rw here plain_)
                keyed' round in
            subst (λ n. Gives n m key fs) e (subst (λ n. Gives k n key fs) here gives)
        | inr differs ↦
            let (gs, rest, round) = parse_members-Round k m' members returned in
            let gives =
              parse_members-Gives name m key members distinct.1 (rw differs at there) plain_ keyed
                rest in
            rw (Round-keeps k name m' differs round) gives
      ]

found-none : (ns : List Node) → found ns ≡ none → ns ≡ []
found-none [] e = refl
found-none (n ∷ []) e = cc
found-none (n ∷ m ∷ ns) e = cc

iterate-found :
    (s : Shape) (ns : List Node) (f : Found Node)
    → is_shape_flattened s ≡ true
    → found ns ≡ some f
    → iterate (as_list s f) ≡ ns
unfolding iterate as_list
iterate-found s [] f flattened e = cc
iterate-found s (n ∷ []) f flattened e = let here : one n ≡ f = cc in rw (← here, flattened) refl
iterate-found s (n ∷ m ∷ ns) f flattened e =
    let here : many (n ∷ m ∷ ns) ≡ f = cc in rw (← here) refl

module _ (shapes : ShapeMap) (float_of : String → Result Value)
    (parse_timestamp parse_blob : String → Result Value) (flavour : Flavour) where
  abbrev parse_at : ℕ → Shape → Found Node → Result Value
  parse_at = parse_shape shapes float_of parse_timestamp parse_blob flavour

  -- A flattened list is the list of what its elements give.
  parse_flattened :
      (depth : ℕ) (m item : Shape) (ns : List Node) (f : Found Node) {v : Value}
      → m.type_name ≡ TypeName.list
      → is_shape_flattened m ≡ true
      → member_of shapes m ≡ ok item
      → found ns ≡ some f
      → parse_at (suc depth) m f ≡ ok v
      → (vs : Items) × (parse_items shapes (parse_at depth) item ns ≡ ok vs) × (v ≡ list vs)
  unfolding parse_shape handler_of handle_list
  parse_flattened depth m item ns f is_list flattened of_items there returned =
      let returned' =
        rw (is_list, handler_of, of_items, iterate-found m ns f flattened there) at returned in
      let (vs, parsed, done) =
        >>=-eq-ok (parse_items shapes (parse_at depth) item ns) _ returned' in
      (vs, parsed, sym (ok-inj done))

  -- What an element's structure shows for a member that is a flattened list: nothing, if no child has the
  -- member's name in the document, and otherwise the list of what those children give, in order.
  pub flattened_list :
      (depth : ℕ) (s : Shape) (n : Node) (name key : String) (m item : Shape) (members : Dict Shape)
      {v : Value}
      → s.type_name ≡ TypeName.structure
      → members_of shapes s ≡ ok members
      → Distinct members
      → get name members ≡ some m
      → located m ≡ false
      → m.type_name ≡ TypeName.list
      → is_shape_flattened m ≡ true
      → member_of shapes m ≡ ok item
      → member_key_name shapes m name ≡ ok key
      → parse_shape shapes float_of parse_timestamp parse_blob flavour (suc (suc depth)) s (one n)
        ≡ ok v
      → (fs : Fields) × (v ≡ dict fs)
        × (((items_named key (named (children n)) ≡ []) × (find_field name fs ≡ none))
            ⊎ ((vs : Items) × (parse_items shapes
                    (parse_shape shapes float_of parse_timestamp parse_blob flavour depth)
                    item
                    (items_named key (named (children n)))
                  ≡ ok vs)
                × (find_field name fs ≡ some (list vs))))
  unfolding parse_shape handler_of handle_structure iterate
  flattened_list depth s n name key m item members is_structure of_members distinct there plain_
        is_list flattened of_item keyed returned =
      let returned' = rw (is_structure, handler_of, of_members) at returned in
      let (fs, parsed, done) =
        >>=-eq-ok
          (parse_members shapes (parse_at (suc depth)) members
            (build_name_to_xml_node (children n)))
          _ returned' in
      let gives =
        parse_members-Gives shapes (parse_at (suc depth)) (build_name_to_xml_node (children n)) name
          m key members distinct there plain_ keyed parsed in
      let holds = get-build_name_to_xml_node key (children n) in
      (
        fs,
        sym (ok-inj done),
        elim gives [
          | inl (missing, absent) ↦ inl (found-none _ (sym holds ∙ missing), absent)
          | inr (f, w, at_key, is_w, found_) ↦
              let (vs, all, e) =
                parse_flattened depth m item (items_named key (named (children n))) f is_list
                  flattened of_item (sym holds ∙ at_key) is_w in
              inr (vs, all, rw (← e) found_)
        ],
      )

  -- An element that is parsed as a structure becomes a dictionary with no other names than the members'.
  pub parse_structure-absent :
      (depth : ℕ) (s : Shape) (f : Found Node) (members : Dict Shape) (name : String) {v : Value}
      → s.type_name ≡ TypeName.structure
      → members_of shapes s ≡ ok members
      → get name members ≡ none
      → parse_at depth s f ≡ ok v
      → (fs : Fields) × (v ≡ dict fs) × (find_field name fs ≡ none)
  unfolding parse_shape handler_of handle_structure
  parse_structure-absent zero s f members name is_structure of_members absent returned = cc
  parse_structure-absent (suc depth) s f members name is_structure of_members absent returned =
      let returned' = rw (is_structure, handler_of, of_members) at returned in
      let (fs, parsed, done) =
        >>=-eq-ok
          (parse_members shapes (parse_at depth) members (build_name_to_xml_node (iterate f))) _
          returned' in
      (
        fs,
        sym (ok-inj done),
        parse_members-absent shapes (parse_at depth) (build_name_to_xml_node (iterate f)) name
            members absent parsed,
      )
