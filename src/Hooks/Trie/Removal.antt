-- ===== src/Hooks/Trie/Removal.antt =====
-- What `remove_item` of botocore/hooks.py takes out of the trie.
use jcsapitest.Prelude.{
  ℕ, ◌+◌, String, ◌≡◌, inl, inr, refl, Bool, true, false, ◌||◌, Option, none, some, List, [], ◌∷◌,
  arith, ◌==◌, str_eq, eq_iff, if◌then◌else◌, Option-cases, Result-cases, Exception, any,
  Bool-cases, ok, raise, >>=-eq-ok,
}
use jcsapitest.Hooks.Trie.{
  NodeList, Node, Children, node, nil, child, complete_order, find_child, set_child, drop_child,
  erase, remove_value, remove_here, remove_item, is_bare, prune,
}
use jcsapitest.Hooks.Trie.Search.{search, at_child}
use jcsapitest.Hooks.Trie.Matches.{
  count, count-append, matches, when_same, search-nil, count-search_cons,
}

abbrev pub holds_value : ℕ → Option NodeList → Bool
holds_value k none = false
holds_value k (some l) =
    any (λ x. x == k) l.first || (any (λ x. x == k) l.middle || any (λ x. x == k) l.last)

abbrev pub node_values : Node → Option NodeList
node_values (node values cs) = values

-- The node of a key holds a handler.
unfoldable pub holds : List String → ℕ → Node → Bool
unfolding any find_child
holds [] k (node values cs) = holds_value k values
holds (p ∷ ps) k (node values cs) = elim (find_child p cs) [ none ↦ false | some n ↦ holds ps k n ]

abbrev pub one_less : Bool → ℕ → ℕ → ℕ → ℕ
one_less held h k n = if held then when_same h k n else 0

holds_step :
    (p : String) (ps : List String) (k : ℕ) (values : Option NodeList) (cs : Children) (next : Node)
    → find_child p cs ≡ some next
    → holds (p ∷ ps) k (node values cs) ≡ holds ps k next
unfolding holds
holds_step p ps k values cs next there = rw (there, holds)

count-erase :
    (h k : ℕ) (xs : List ℕ)
    → count h (erase k xs) + one_less (any (λ x. x == k) xs) h k 1 ≡ count h xs
unfolding erase any
count-erase h k [] = refl
count-erase h k (x ∷ xs) = ground (arith, count-erase h k xs)

count_complete :
    (h : ℕ) (l : NodeList)
    → count h (complete_order (some l)) ≡ count h l.first + count h l.middle + count h l.last
count_complete h l = simp count-append (omega arith)

count-remove_value :
    (h k : ℕ) (l : NodeList)
    → count h (complete_order (some (remove_value k l))) + one_less (holds_value k (some l)) h k 1
      ≡ count h (complete_order (some l))
unfolding remove_value
count-remove_value h k l = ground (
  arith,
  count-erase h k l.first,
  count-erase h k l.middle,
  count-erase h k l.last,
  count_complete h l,
  count_complete h (remove_value k l),
)

find_child-set :
    (p q : String) (n m : Node) (cs : Children)
    → find_child p cs ≡ some m
    → find_child q (set_child p n cs) ≡ (if str_eq p q then some n else find_child q cs)
unfolding find_child set_child
find_child-set p q n m nil e = cc
find_child-set p q n m (child r c cs) e =
    ground (arith, eq_iff p q, eq_iff r p, eq_iff r q, find_child-set p q n m cs)

find_child-drop :
    (p q : String) (cs : Children)
    → find_child q (drop_child p cs) ≡ (if str_eq p q then none else find_child q cs)
unfolding find_child drop_child
find_child-drop p q nil = ground arith
find_child-drop p q (child r c cs) =
    ground (arith, eq_iff p q, eq_iff r p, eq_iff r q, find_child-drop p q cs)

search-bare : (n : Node) (name : List String) → is_bare n ≡ true → search name n ≡ []
unfolding search find_child
search-bare (node none nil) [] h = refl
search-bare (node none nil) (p ∷ ps) h = refl
search-bare (node none (child q m cs)) name h = cc
search-bare (node (some l) cs) name h = cc

module _ (h : ℕ) (p q : String) (name : List String) (values : Option NodeList) (cs : Children)
    (n m : Node) (there : find_child p cs ≡ some m) where
  -- What the search sees of the children after the removal below one of them, pruned or not.
  count-pruned :
      count h (
        at_child
          (search name)
          (find_child q (if is_bare n then drop_child p cs else set_child p n cs)))
      ≡ (if str_eq p q
          then count h (search name n)
          else count h (at_child (search name) (find_child q cs)))
  count-pruned = elim (Bool-cases (is_bare n)) [
    | inl bare ↦ rw (bare, find_child-drop p q cs) (ground (arith, search-bare n name bare))
    | inr full ↦ rw (full, find_child-set p q n m cs there) (ground arith)
  ]

module _ (h k : ℕ) where
  -- One level up from a removal.
  count-prune :
      (held : Bool) (p : String) (ps : List String) (values : Option NodeList) (cs : Children)
      (n n' : Node)
      → find_child p cs ≡ some n
      → ((name : List String)
          → count h (search name n') + one_less held h k (matches ps name)
            ≡ count h (search name n))
      → (name : List String)
      → count h (search name (prune p values cs n')) + one_less held h k (matches (p ∷ ps) name)
        ≡ count h (search name (node values cs))
  unfolding prune
  count-prune held p ps values cs n n' there ih [] = rw (search-nil, search-nil) (ground arith)
  count-prune held p ps values cs n n' there ih (q ∷ name) =
      let rest = if is_bare n' then drop_child p cs else set_child p n' cs in
      ground (
        arith,
        count-search_cons h q name values cs,
        count-search_cons h q name values rest,
        count-pruned h p q name values cs n' n there,
        count-pruned h p "*" name values cs n' n there,
        ih name,
        there,
        eq_iff p q,
        eq_iff p "*",
      )

  count-remove_here :
      (n n' : Node)
      → remove_here k n ≡ ok n'
      → (name : List String)
      → count h (search name n') + one_less (holds [] k n) h k (matches [] name)
        ≡ count h (search name n)
  unfolding remove_here holds
  count-remove_here (node none cs) n' e name = cc
  count-remove_here (node (some l) cs) n' e [] =
      let same : n' ≡ node (some (remove_value k l)) cs = cc in
      rw (same, search-nil, search-nil) (count-remove_value h k l)
  count-remove_here (node (some l) cs) n' e (q ∷ name) =
      let same : n' ≡ node (some (remove_value k l)) cs = cc in
      rw same (
        omega (
          arith,
          count-remove_value h k l,
          count-search_cons h q name (some l) cs,
          count-search_cons h q name (some (remove_value k l)) cs,
        ))

  -- After a removal that returns, a search finds the handler once less for each way in which the key
  -- matches the front of the name, if the key held it, and everything else as often as before.
  pub count-search-remove_item :
      (p : String) (ps : List String) (n n' : Node) (name : List String)
      → remove_item (p ∷ ps) k n ≡ ok n'
      → count h (search name n') + one_less (holds (p ∷ ps) k n) h k (matches (p ∷ ps) name)
        ≡ count h (search name n)
  unfolding remove_item
  count-search-remove_item p [] (node values cs) n' name e = elim (Option-cases (find_child p cs)) [
    | inl none_there ↦ cc (rw (none_there, remove_item) at e)
    | inr (next, there) ↦
        let (next', removed, made) =
          >>=-eq-ok (remove_here k next) _ (rw (there, remove_item) at e) in
        let same : n' ≡ prune p values cs next' = cc (made) in
        rw (same, holds_step p [] k values cs next there)
          (count-prune (holds [] k next) p [] values cs next next' there
            (count-remove_here next next' removed) name)
  ]
  count-search-remove_item p (q ∷ ps) (node values cs) n' name e =
      elim (Option-cases (find_child p cs)) [
        | inl none_there ↦ cc (rw (none_there, remove_item) at e)
        | inr (next, there) ↦
            let (next', removed, made) =
              >>=-eq-ok (remove_item (q ∷ ps) k next) _ (rw (there, remove_item) at e) in
            let same : n' ≡ prune p values cs next' = cc (made) in
            rw (same, holds_step p (q ∷ ps) k values cs next there)
              (count-prune (holds (q ∷ ps) k next) p (q ∷ ps) values cs next next' there
                (λ name'. count-search-remove_item q ps next next' name' removed) name)
      ]

remove_here-raise :
    (k : ℕ) (n : Node) (x : Exception) → remove_here k n ≡ raise x → holds [] k n ≡ false
unfolding remove_here holds
remove_here-raise k (node none cs) x e = refl
remove_here-raise k (node (some l) cs) x e = cc

-- A removal that raises had nothing to remove.
pub remove_item-raise :
    (k : ℕ) (p : String) (ps : List String) (n : Node) (x : Exception)
    → remove_item (p ∷ ps) k n ≡ raise x
    → holds (p ∷ ps) k n ≡ false
unfolding remove_item holds
remove_item-raise k p [] (node values cs) x e = elim (Option-cases (find_child p cs)) [
  | inl none_there ↦ rw (none_there, holds)
  | inr (next, there) ↦ elim (Result-cases (remove_here k next)) [
    | inl (y, failed) ↦
        rw (holds_step p [] k values cs next there) (remove_here-raise k next y failed)
    | inr (n', removed) ↦ cc (rw (there, removed, remove_item) at e)
  ]
]
remove_item-raise k p (q ∷ ps) (node values cs) x e = elim (Option-cases (find_child p cs)) [
  | inl none_there ↦ rw (none_there, holds)
  | inr (next, there) ↦ elim (Result-cases (remove_item (q ∷ ps) k next)) [
    | inl (y, failed) ↦
        rw (holds_step p (q ∷ ps) k values cs next there) (remove_item-raise k q ps next y failed)
    | inr (n', removed) ↦ cc (rw (there, removed, remove_item) at e)
  ]
]
