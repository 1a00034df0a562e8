-- ===== src/Parse/Xml/Children.antt =====
-- What the dictionary of `_build_name_to_xml_node` holds.
use jcsapitest.Prelude.{
  String, ◌≡◌, refl, ap, ◌∙◌, inl, inr, Option, none, some, List, [], ◌∷◌, ◌++◌, append_assoc,
  append-nil, Dict, get, get-put, str_eq, eq_iff, Bool-cases, if◌then◌else◌, Option-cases,
}
use jcsapitest.Parse.Xml.{
  Node, Found, one, many, extend, add_named, gather, named, build_name_to_xml_node,
}

module _ {ℓ} {A : Type ℓ} where
  -- The items of a name, in order
  unfoldable pub items_named : String → Dict A → List A
  items_named k [] = []
  items_named k ((j, x) ∷ items) =
      let rest = items_named k items in if str_eq j k then x ∷ rest else rest

  abbrev pub found : List A → Option (Found A)
  found [] = none
  found (x ∷ []) = some (one x)
  found (x ∷ y ∷ xs) = some (many (x ∷ y ∷ xs))

  abbrev extended : Option (Found A) → A → Found A
  extended none x = one x
  extended (some f) x = extend f x

  found-snoc : (xs : List A) (x : A) → found (xs ++ x ∷ []) ≡ some (extended (found xs) x)
  found-snoc [] x = refl
  found-snoc (y ∷ []) x = refl
  found-snoc (y ∷ z ∷ xs) x = refl

  get-add_named :
      (k j : String) (x : A) (d : Dict (Found A))
      → get j (add_named k x d) ≡ (if str_eq k j then some (extended (get k d) x) else get j d)
  unfolding add_named
  get-add_named k j x d = elim (Option-cases (get k d)) [
    | inl e ↦ rw (e, add_named) (get-put k j (one x) d)
    | inr (f, e) ↦ rw (e, add_named) (get-put k j (extend f x) d)
  ]

  get-add_named-found :
      (k j : String) (x : A) (d : Dict (Found A)) (before : List A)
      → get k d ≡ found before
      → get k (add_named j x d) ≡ found (if str_eq j k then before ++ x ∷ [] else before)
  get-add_named-found k j x d before e = elim (Bool-cases (str_eq j k)) [
    | inl same ↦
        let e' = (eq_iff j k).0 same in rw (get-add_named j k x d, same, found-snoc, e', e) refl
    | inr other ↦ rw (get-add_named j k x d, other, e) refl
  ]

  get-gather :
      (k : String) (d : Dict (Found A)) (before : List A) (items : Dict A)
      → get k d ≡ found before
      → get k (gather d items) ≡ found (before ++ items_named k items)
  unfolding gather items_named
  get-gather k d before [] e = rw append-nil e
  get-gather k d before ((j, x) ∷ items) e = elim (Bool-cases (str_eq j k)) [
    | inl same ↦
        let more = get-add_named-found k j x d before e in
        rw same (
          get-gather k (add_named j x d) (before ++ x ∷ []) items (rw same at more)
          ∙ ap found (append_assoc before (x ∷ []) (items_named k items)))
    | inr other ↦
        let more = get-add_named-found k j x d before e in
        rw other (get-gather k (add_named j x d) before items (rw other at more))
  ]

-- What stands under a key is nothing, the child, or the list of the children, as none, one or more of the
-- node's children have the key as their tag without its namespace; the list is in their order.
pub get-build_name_to_xml_node :
    (k : String) (ns : List Node)
    → get k (build_name_to_xml_node ns) ≡ found (items_named k (named ns))
unfolding build_name_to_xml_node
get-build_name_to_xml_node k ns = get-gather k [] [] (named ns) refl
