-- ===== src/Hooks/Trie/Search.antt =====
-- The search of the trie in botocore/hooks.py, by recursion and with the stack of `_get_items`.
use native.Mathlib.Nat.{pow-suc}
use jcsapitest.Prelude.{
  ℕ, zero, suc, ◌+◌, ◌≤◌, ◌<◌, ◌^◌, length, String, ◌≡◌, refl, ap, ◌∙◌, Option, none, some, List,
  [], ◌∷◌, ◌++◌, arith, append_assoc, append-nil,
}
use jcsapitest.Hooks.Trie.{
  NodeList, Node, Children, node, complete_order, Stack, push, find_child, push_children, get_items,
  prefix_search,
}

-- The search by recursion on the key: what the wildcard finds comes before what the direct child
-- finds, and both come before the node's own handlers.
abbrev pub at_child : (Node → List ℕ) → Option Node → List ℕ
at_child f none = []
at_child f (some n) = f n

unfoldable pub search : List String → Node → List ℕ
unfolding find_child
search [] (node values cs) = complete_order values
search (p ∷ ps) (node values cs) =
    at_child (search ps) (find_child "*" cs)
    ++ at_child (search ps) (find_child p cs)
    ++ complete_order values

-- How many nodes the loop visits.
abbrev count_child : (Node → ℕ) → Option Node → ℕ
count_child f none = 0
count_child f (some n) = f n

unfoldable pub visits : List String → Node → ℕ
unfolding find_child
visits [] n = 1
visits (p ∷ ps) (node values cs) =
    1 + count_child (visits ps) (find_child p cs) + count_child (visits ps) (find_child "*" cs)

abbrev pub total : Stack → ℕ
total [] = 0
total ((n, ps) ∷ stack) = visits ps n + total stack

-- The last that is visited comes first.
abbrev pub found : Stack → List ℕ → List ℕ
found [] collected = collected
found ((n, ps) ∷ stack) collected = found stack (search ps n ++ collected)

total-push_children :
    (values : Option NodeList) (cs : Children) (ps : List String) (stack : Stack)
    → suc (total (push_children cs ps stack)) ≡ visits ps (node values cs) + total stack
unfolding push_children visits
total-push_children values cs [] stack = omega arith
total-push_children values cs (p ∷ ps) stack = ground arith

regroup : (w d v c : List ℕ) → w ++ (d ++ (v ++ c)) ≡ ((w ++ d) ++ v) ++ c
regroup w d v c = simp append_assoc

found-push :
    (o : Option Node) (ps : List String) (stack : Stack) (collected : List ℕ)
    → found (push o ps stack) collected ≡ found stack (at_child (search ps) o ++ collected)
found-push none ps stack collected = refl
found-push (some n) ps stack collected = refl

found-push_children :
    (values : Option NodeList) (cs : Children) (ps : List String) (stack : Stack)
    (collected : List ℕ)
    → found (push_children cs ps stack) (complete_order values ++ collected)
      ≡ found stack (search ps (node values cs) ++ collected)
unfolding push_children search
found-push_children values cs [] stack collected = refl
found-push_children values cs (p ∷ ps) stack collected =
    let direct = at_child (search ps) (find_child p cs) in
    let wild = at_child (search ps) (find_child "*" cs) in
    found-push (find_child p cs) ps (push (find_child "*" cs) ps stack)
      (complete_order values ++ collected)
    ∙ found-push (find_child "*" cs) ps stack (direct ++ (complete_order values ++ collected))
    ∙ ap (found stack) (regroup wild direct (complete_order values) collected)

get_items-found :
    (fuel : ℕ) (stack : Stack) (collected : List ℕ)
    → total stack ≤ fuel
    → get_items fuel stack collected ≡ some (found stack collected)
unfolding get_items
get_items-found zero [] collected h = refl
get_items-found (suc fuel) [] collected h = refl
get_items-found zero ((node values cs, ps) ∷ stack) collected h =
    absurd (omega (arith, total-push_children values cs ps stack))
get_items-found (suc fuel) ((node values cs, ps) ∷ stack) collected h =
    get_items-found fuel (push_children cs ps stack) (complete_order values ++ collected)
      (omega (arith, total-push_children values cs ps stack))
    ∙ ap some (found-push_children values cs ps stack collected)

pow-pos : (n : ℕ) → 1 ≤ 2 ^ n
pow-pos zero = omega arith
pow-pos (suc n) = omega (arith, pow-suc 2 n, pow-pos n)

count_child-lt_pow :
    (ps : List String) (o : Option Node)
    → ((m : Node) → visits ps m < 2 ^ suc (length ps))
    → count_child (visits ps) o < 2 ^ suc (length ps)
count_child-lt_pow ps none h = omega (arith, pow-suc 2 (length ps), pow-pos (length ps))
count_child-lt_pow ps (some m) h = h m

-- A key of n parts makes the loop visit fewer than 2 ^ (n + 1) nodes.
visits-lt_pow : (ps : List String) (n : Node) → visits ps n < 2 ^ suc (length ps)
unfolding visits
visits-lt_pow [] n = omega arith
visits-lt_pow (p ∷ ps) (node values cs) =
    let double = pow-suc 2 (suc (length ps)) in
    omega (
      arith,
      double,
      count_child-lt_pow ps (find_child p cs) (λ m. visits-lt_pow ps m),
      count_child-lt_pow ps (find_child "*" cs) (λ m. visits-lt_pow ps m),
    )

-- With fuel 2 ^ (n + 1) for a key of n parts `prefix_search` returns what the search by recursion on the
-- key finds, in its order: at each node all that is found under the wildcard comes before all that is
-- found under the part itself, and both before the node's own handlers.
pub prefix_search-eq :
    (ps : List String) (n : Node) → prefix_search (2 ^ suc (length ps)) ps n ≡ some (search ps n)
unfolding prefix_search
prefix_search-eq ps n =
    get_items-found (2 ^ suc (length ps)) ((n, ps) ∷ []) [] (omega (arith, visits-lt_pow ps n))
    ∙ ap some (append-nil (search ps n))
