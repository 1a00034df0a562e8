-- ===== src/Hooks/Trie.antt =====
-- botocore/hooks.py: `_PrefixTrie`. A key comes split at its dots. A handler is a number, which
-- stands for the identity of a Python callable. A node's `values` is None until a handler is added;
-- the key order of `children` plays no part.
pub mod Search
pub mod Matches
pub mod Removal
use jcsapitest.Prelude.{
  ℕ, zero, suc, ◌+◌, String, Bool, true, false, not, ◌&&◌, ◌||◌, Option, none, some, List, [], ◌∷◌,
  ◌++◌, ◌==◌, str_eq, if◌then◌else◌, any, attribute_error, value_error, Result, ok, raise, ◌>>=◌,
}

pub record NodeList : Type 0 where
  pub first : List ℕ
  pub middle : List ℕ
  pub last : List ℕ

-- _FIRST, _MIDDLE, _LAST
pub data Section : Type 0 where
  first middle last : Section

mutual
  pub data Node : Type 0 where
    node : Option NodeList → Children → Node

  pub data Children : Type 0 where
    nil : Children
    child : String → Node → Children → Children

abbrev pub empty_node : Node
empty_node = node none nil

abbrev pub node_list_of : Option NodeList → NodeList
node_list_of none = record { first = []; middle = []; last = [] }
node_list_of (some l) = l

-- current['values'][section].append(value)
unfoldable pub append_value : ℕ → Section → NodeList → NodeList
append_value h first l = record l { first = l.first ++ h ∷ [] }
append_value h middle l = record l { middle = l.middle ++ h ∷ [] }
append_value h last l = record l { last = l.last ++ h ∷ [] }

unfoldable pub find_child : String → Children → Option Node
find_child p nil = none
find_child p (child q n cs) = if str_eq q p then some n else find_child p cs

-- Changes the child of a name, which is made where it is missing.
unfoldable pub update_child : String → (Node → Node) → Children → Children
update_child p f nil = child p (f empty_node) nil
update_child p f (child q n cs) =
    if str_eq q p then child q (f n) cs else child q n (update_child p f cs)

-- append_item, below the current node
unfoldable pub append_item : List String → ℕ → Section → Node → Node
unfolding append_value update_child
append_item [] h section (node values cs) =
    node (some (append_value h section (node_list_of values))) cs
append_item (p ∷ ps) h section (node values cs) =
    node values (update_child p (append_item ps h section) cs)

abbrev pub complete_order : Option NodeList → List ℕ
complete_order none = []
complete_order (some l) = l.first ++ l.middle ++ l.last

-- The stack of `_get_items`: a node and the parts of the key that are left.
abbrev pub Stack : Type 0
Stack = List (Node × List String)

abbrev pub push : Option Node → List String → Stack → Stack
push none ps stack = stack
push (some n) ps stack = (n, ps) ∷ stack

-- What is on the stack after one node: the direct child on top, then the wildcard.
unfoldable pub push_children : Children → List String → Stack → Stack
unfolding find_child
push_children cs [] stack = stack
push_children cs (p ∷ ps) stack = push (find_child p cs) ps (push (find_child "*" cs) ps stack)

-- The while loop of `_get_items`; none means that the fuel ran out.
unfoldable pub get_items : ℕ → Stack → List ℕ → Option (List ℕ)
unfolding push_children
get_items fuel [] collected = some collected
get_items zero (top ∷ stack) collected = none
get_items (suc fuel) ((node values cs, ps) ∷ stack) collected =
    get_items fuel (push_children cs ps stack) (complete_order values ++ collected)

unfoldable pub prefix_search : ℕ → List String → Node → Option (List ℕ)
unfolding get_items
prefix_search fuel key root = get_items fuel ((root, key) ∷ []) []

-- list.remove, which takes out the first occurrence
unfoldable pub erase : ℕ → List ℕ → List ℕ
erase h [] = []
erase h (x ∷ xs) = if x == h then xs else x ∷ erase h xs

unfoldable pub remove_value : ℕ → NodeList → NodeList
remove_value h l =
    if any (λ x. x == h) l.first
    then record l { first = erase h l.first }
    else if any (λ x. x == h) l.middle
    then record l { middle = erase h l.middle }
    else if any (λ x. x == h) l.last
    then record l { last = erase h l.last }
    else l

-- `not node['children'] and not node['values']`; a NodeList is a tuple of three, so it counts as true.
abbrev pub is_bare : Node → Bool
is_bare (node none nil) = true
is_bare _ = false

unfoldable pub set_child : String → Node → Children → Children
set_child p n nil = nil
set_child p n (child q m cs) = if str_eq q p then child q n cs else child q m (set_child p n cs)

-- del current_node['children'][p]
unfoldable pub drop_child : String → Children → Children
drop_child p nil = nil
drop_child p (child q m cs) =
    let rest = drop_child p cs in if str_eq q p then rest else child q m rest

-- The values of the node at the end of the key; None there has no `first`.
unfoldable pub remove_here : ℕ → Node → Result Node
unfolding remove_value
remove_here h (node none cs) = raise (attribute_error "first")
remove_here h (node (some l) cs) = ok (node (some (remove_value h l)) cs)

unfoldable pub prune : String → Option NodeList → Children → Node → Node
unfolding set_child drop_child
prune p values cs n = node values (if is_bare n then drop_child p cs else set_child p n cs)

abbrev pub key_missing : Result Node
key_missing = raise (value_error "key is not in trie")

-- _remove_item, for the parts that are left; a key has at least one part.
unfoldable pub remove_item : List String → ℕ → Node → Result Node
unfolding find_child remove_here prune
remove_item [] h n = ok n
remove_item (p ∷ []) h (node values cs) = elim (find_child p cs) [
  | none ↦ key_missing
  | some next ↦ remove_here h next >>= λ next'. ok (prune p values cs next')
]
remove_item (p ∷ q ∷ ps) h (node values cs) = elim (find_child p cs) [
  | none ↦ key_missing
  | some next ↦ remove_item (q ∷ ps) h next >>= λ next'. ok (prune p values cs next')
]
