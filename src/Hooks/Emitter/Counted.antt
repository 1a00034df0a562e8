-- ===== src/Hooks/Emitter/Counted.antt =====
-- How registrations change what an event calls, in botocore/hooks.py.
use Prim.Native.Char.{code}
use jcsapitest.Prelude.{
  Bool-cases, ◌==◌, ℕ, ◌+◌, String, ◌≡◌, inl, inr, refl, Bool, Option, none, some, List, [], ◌∷◌,
  arith, Result-cases, get,
}
use jcsapitest.Hooks.Trie.{Section, remove_item}
use jcsapitest.Hooks.Trie.Matches.{count, matches, when_same, count-search-append_item}
use jcsapitest.Hooks.Trie.Removal.{holds, one_less, count-search-remove_item, remove_item-raise}
use jcsapitest.Hooks.Emitter.{
  Emitter, UniqueItem, add, split_dots, register_section, discard, unregister,
}
use jcsapitest.Hooks.Emitter.Cache.{handlers_for}

-- How often an event of a name calls a handler.
abbrev pub calls : ℕ → String → Emitter → ℕ
calls h name e = count h (handlers_for name e)

-- In how many ways the key of a registration matches the name of an event.
abbrev pub ways : String → String → ℕ
ways key name = matches (split_dots key) (split_dots name)

calls-add :
    (h k : ℕ) (key name : String) (section : Section) (e : Emitter)
    → calls h name (add key k section e) ≡ calls h name e + when_same h k (ways key name)
unfolding add
calls-add h k key name section e =
    count-search-append_item h k section (split_dots key) (split_dots name) e.handlers

-- Registering a handler without a unique id, or with one that is new, adds one call of it for each
-- way in which the key matches the event, and changes the calls of no other handler.
pub calls-register :
    (h k : ℕ) (key name : String) (section : Section) (id : Option String) (uses_count : Bool)
    (e : Emitter)
    → ((i : String) → id ≡ some i → get i e.unique_id_handlers ≡ none)
    → calls h name (register_section section key k id uses_count e).0
      ≡ calls h name e + when_same h k (ways key name)
unfolding register_section
calls-register h k key name section none uses_count e new = calls-add h k key name section e
calls-register h k key name section (some id) uses_count e new =
    rw (new id refl, register_section) (calls-add h k key name section e)

-- Registering under a unique id that is in use adds no call of anything, whether it raises or not.
calls-register_again :
    (h k : ℕ) (key name : String) (section : Section) (id : String) (uses_count : Bool)
    (e : Emitter) (item : UniqueItem)
    → get id e.unique_id_handlers ≡ some item
    → calls h name (register_section section key k (some id) uses_count e).0 ≡ calls h name e
unfolding register_section
calls-register_again h k key name section id uses_count e item old =
    rw (old, register_section) (ground arith)

split_dots-cons : (s : String) → (p : String) × (ps : List String) × (split_dots s ≡ p ∷ ps)
unfolding split_dots
split_dots-cons String.[] = ("", [], refl)
split_dots-cons (String.◌∷◌ c s) =
    let (p, ps, e) = split_dots-cons s in
    elim (Bool-cases (code c == b'.')) [
      | inl dot ↦ ("", p ∷ ps, ground (arith, dot, e))
      | inr other ↦ (String.◌∷◌ c p, ps, ground (arith, other, e))
    ]

calls-discard :
    (h k : ℕ) (key name : String) (e : Emitter)
    → calls h name (discard key k e).0
        + one_less (holds (split_dots key) k e.handlers) h k (ways key name)
      ≡ calls h name e
unfolding discard
calls-discard h k key name e =
    let (p, ps, split) = split_dots-cons key in
    elim (Result-cases (remove_item (split_dots key) k e.handlers)) [
      | inl (x, failed) ↦
          let nothing = remove_item-raise k p ps e.handlers x (rw split at failed) in
          rw (failed, discard) (ground (arith, nothing, split))
      | inr (trie, removed) ↦
          rw (removed, discard)
            (rw split (
              count-search-remove_item h k p ps e.handlers trie (split_dots name)
                (rw split at removed)))
    ]

-- Unregistering a handler without a unique id takes away, if its key holds it, one call for each way
-- in which the key matches the event, and leaves the calls of every other handler as they were. If
-- the key does not hold the handler nothing changes, whether the call raises or not.
pub calls-unregister :
    (h k : ℕ) (key name : String) (uses_count : Bool) (e : Emitter)
    → calls h name (unregister key k none uses_count e).0
        + one_less (holds (split_dots key) k e.handlers) h k (ways key name)
      ≡ calls h name e
unfolding unregister
calls-unregister h k key name uses_count e = calls-discard h k key name e
