-- ===== src/Hooks/Samples.antt =====
-- Three handlers of an emitter, and what botocore/hooks.py calls for an event.
use jcsapitest.Prelude.{
  ℕ, ◌+◌, String, ◌≡◌, refl, Bool, true, false, Option, none, some, List, [], ◌∷◌, Result, ok, get,
  if◌then◌else◌, ◌==◌,
}
use jcsapitest.Hooks.Trie.{
  first, middle, last, Node, node, child, nil, empty_node, append_item, prefix_search, remove_item,
  find_child, get_items, erase,
}
use jcsapitest.Hooks.Trie.Search.{search, prefix_search-eq}
use jcsapitest.Hooks.Trie.Matches.{when_same}
use jcsapitest.Hooks.Trie.Removal.{holds, one_less}
use jcsapitest.Hooks.Emitter.{
  Emitter, UniqueItem, split_dots, register_section, unregister, emit_with, run_handlers,
}
use jcsapitest.Hooks.Emitter.Cache.{
  Operation, registers, emits, fresh, perform, perform_all, handlers_for, emit-eq,
}
use jcsapitest.Hooks.Emitter.Counted.{calls, ways, calls-register, calls-unregister}

abbrev is_callable : ℕ → Bool
is_callable h = true

abbrev accepts : ℕ → Option Bool
accepts h = some true

abbrev answer : ℕ → Result (Option ℕ)
answer h = ok (if h == 2 then some 20 else none)

abbrev key : List String
key = "needs-retry" ∷ "ec2" ∷ []

abbrev name : List String
name = "needs-retry" ∷ "ec2" ∷ "Run" ∷ []

abbrev root : Node
root = append_item ("needs-retry" ∷ "*" ∷ []) 2 first (append_item key 1 middle empty_node)

abbrev registrations : List Operation
registrations =
    registers middle "needs-retry.ec2" 1 none false
    ∷ emits false "needs-retry.ec2.Run"
    ∷ registers first "needs-retry.*" 2 none false
    ∷ registers last "needs-retry" 3 (some "retry") false
    ∷ []

abbrev filled : Emitter
filled = perform_all is_callable accepts answer registrations fresh

program : Unit {0}
unfolding split_dots append_item find_child search get_items prefix_search remove_item erase holds
    register_section unregister emit_with run_handlers perform perform_all get
program = tt

emit-filled :
    (emit_with answer false "needs-retry.ec2.Run" filled).1
    ≡ ok ((2, some 20) ∷ (1, none) ∷ (3, none) ∷ [])
unfolding program
emit-filled = refl

emit_stop-filled : (emit_with answer true "needs-retry.ec2.Run" filled).1 ≡ ok ((2, some 20) ∷ [])
unfolding program
emit_stop-filled = refl

emit-eq_example :
    (emit_with answer false "needs-retry.ec2.Run" filled).1
    ≡ run_handlers answer false (handlers_for "needs-retry.ec2.Run" filled)
emit-eq_example = emit-eq is_callable accepts answer registrations false "needs-retry.ec2.Run"

prefix_search-eq_example : prefix_search 16 name root ≡ some (2 ∷ 1 ∷ [])
unfolding program
prefix_search-eq_example = prefix_search-eq name root

-- The handler of "*", at depth 1, comes before that of "foo.bar", at depth 2.
abbrev wild_root : Node
wild_root = node none (
    child "foo"
      (node none
        (child "bar" (node (some (record { first = []; middle = 1 ∷ []; last = [] })) nil) nil))
      (child "*" (node (some (record { first = []; middle = 2 ∷ []; last = [] })) nil) nil))

wildcard-before : prefix_search 8 ("foo" ∷ "bar" ∷ []) wild_root ≡ some (2 ∷ 1 ∷ [])
unfolding program
wildcard-before = refl

abbrev root_removed : Node
root_removed = node none (
    child "needs-retry"
      (node none (
        child "ec2" (node (some (record { first = []; middle = []; last = [] })) nil)
          (child "*" (node (some (record { first = 2 ∷ []; middle = []; last = [] })) nil) nil)))
      nil)

remove_item-root : remove_item key 1 root ≡ ok root_removed
unfolding program
remove_item-root = refl

get_new : (i : String) → none ≡ some i → get {V = UniqueItem} i filled.unique_id_handlers ≡ none
get_new i h = cc

calls-register_example :
    calls 4 "needs-retry.ec2.Run" (register_section middle "needs-retry.ec2" 4 none false filled).0
    ≡ calls 4 "needs-retry.ec2.Run" filled
      + when_same 4 4 (ways "needs-retry.ec2" "needs-retry.ec2.Run")
calls-register_example =
    calls-register 4 4 "needs-retry.ec2" "needs-retry.ec2.Run" middle none false filled get_new

calls-unregister_example :
    calls 1 "needs-retry.ec2.Run" (unregister "needs-retry.ec2" 1 none false filled).0
      + one_less
          (holds (split_dots "needs-retry.ec2") 1 filled.handlers)
          1
          1
          (ways "needs-retry.ec2" "needs-retry.ec2.Run")
    ≡ calls 1 "needs-retry.ec2.Run" filled
calls-unregister_example = calls-unregister 1 1 "needs-retry.ec2" "needs-retry.ec2.Run" false filled

calls_once : calls 1 "needs-retry.ec2.Run" filled ≡ 1
unfolding program
calls_once = refl
