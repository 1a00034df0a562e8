-- ===== src/Hooks/Trie/Matches.antt =====
-- How often a search of the trie of botocore/hooks.py finds a handler, before and after `append_item`.
use jcsapitest.Prelude.{
  inl, inr, ℕ, suc, ◌+◌, String, ◌≡◌, refl, Option, none, some, List, [], ◌∷◌, ◌++◌, arith, ◌==◌,
  str_eq, eq_iff, if◌then◌else◌, Option-cases,
}
use jcsapitest.Hooks.Trie.{
  NodeList, Section, first, middle, last, Node, Children, node, nil, child, empty_node,
  node_list_of, complete_order, append_value, find_child, update_child, append_item,
}
use jcsapitest.Hooks.Trie.Search.{search, at_child}

abbrev pub count : ℕ → List ℕ → ℕ
count h [] = 0
count h (x ∷ xs) = if x == h then suc (count h xs) else count h xs

-- In how many ways a key matches the front of a name: each part is the same, or a wildcard. A name
-- with a part "*" of its own is matched twice there.
abbrev pub matches : List String → List String → ℕ
matches [] name = 1
matches (a ∷ key) [] = 0
matches (a ∷ key) (b ∷ name) =
    (if str_eq a "*" then matches key name else 0) + (if str_eq a b then matches key name else 0)

pub count-append : (h : ℕ) (xs ys : List ℕ) → count h (xs ++ ys) ≡ count h xs + count h ys
count-append h [] ys = omega arith
count-append h (x ∷ xs) ys = ground (arith, count-append h xs ys)

abbrev pub when_same : ℕ → ℕ → ℕ → ℕ
when_same h k n = if k == h then n else 0

count-append_value :
    (h k : ℕ) (section : Section) (values : Option NodeList)
    → count h (complete_order (some (append_value k section (node_list_of values))))
      ≡ count h (complete_order values) + when_same h k 1
unfolding append_value
count-append_value h k first none = ground arith
count-append_value h k middle none = ground arith
count-append_value h k last none = ground arith
count-append_value h k first (some l) = simp count-append (ground arith)
count-append_value h k middle (some l) = simp count-append (ground arith)
count-append_value h k last (some l) = simp count-append (ground arith)

find_child-update :
    (p q : String) (f : Node → Node) (cs : Children)
    → find_child q (update_child p f cs) ≡ (
        if str_eq p q
        then elim (find_child p cs) [ none ↦ some (f empty_node) | some n ↦ some (f n) ]
        else find_child q cs)
unfolding find_child update_child
find_child-update p q f nil = refl
find_child-update p q f (child r n cs) =
    ground (arith, eq_iff p q, eq_iff r p, eq_iff r q, find_child-update p q f cs)

search-empty_node : (name : List String) → search name empty_node ≡ []
unfolding search find_child
search-empty_node [] = refl
search-empty_node (p ∷ ps) = refl

pub search-nil :
    (values : Option NodeList) (cs : Children) → search [] (node values cs) ≡ complete_order values
unfolding search
search-nil values cs = refl

pub count-search_cons :
    (h : ℕ) (q : String) (name : List String) (values : Option NodeList) (cs : Children)
    → count h (search (q ∷ name) (node values cs))
      ≡ count h (at_child (search name) (find_child "*" cs))
        + count h (at_child (search name) (find_child q cs))
        + count h (complete_order values)
unfolding search
count-search_cons h q name values cs = simp count-append

module _ (h k : ℕ) (section : Section) where
  -- A child that was updated, seen by the search.
  count-at_child :
      (p q : String) (key name : List String) (cs : Children)
      → ((n : Node)
          → count h (search name (append_item key k section n))
            ≡ count h (search name n) + when_same h k (matches key name))
      → count h
          (at_child (search name) (find_child q (update_child p (append_item key k section) cs)))
        ≡ count h (at_child (search name) (find_child q cs))
          + (if str_eq p q then when_same h k (matches key name) else 0)
  count-at_child p q key name cs ih = elim (Option-cases (find_child p cs)) [
    | inl e ↦
        rw (find_child-update p q (append_item key k section) cs, e)
          (ground (arith, e, eq_iff p q, ih empty_node, search-empty_node name))
    | inr (n, e) ↦
        rw (find_child-update p q (append_item key k section) cs, e)
          (ground (arith, e, eq_iff p q, ih n))
  ]

  -- After `append_item` a search finds the handler that was added once more for each way in which its
  -- key matches the front of the name, and any other handler as often as before.
  pub count-search-append_item :
      (key name : List String) (n : Node)
      → count h (search name (append_item key k section n))
        ≡ count h (search name n) + when_same h k (matches key name)
  unfolding append_item
  count-search-append_item [] [] (node values cs) =
      rw (search-nil, search-nil) (count-append_value h k section values)
  count-search-append_item [] (q ∷ name) (node values cs) = omega (
    arith,
    count-append_value h k section values,
    count-search_cons h q name values cs,
    count-search_cons h q name (some (append_value k section (node_list_of values))) cs,
  )
  count-search-append_item (p ∷ key) [] (node values cs) =
      rw (search-nil, search-nil) (ground arith)
  count-search-append_item (p ∷ key) (q ∷ name) (node values cs) =
      let ih = count-search-append_item key name in
      let longer = update_child p (append_item key k section) cs in
      ground (
        arith,
        count-at_child p q key name cs ih,
        count-at_child p "*" key name cs ih,
        count-search_cons h q name values cs,
        count-search_cons h q name values longer,
      )
