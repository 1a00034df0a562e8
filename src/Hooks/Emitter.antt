-- ===== src/Hooks/Emitter.antt =====
-- botocore/hooks.py: `HierarchicalEmitter`. A handler is a number; `callable` and `accepts_kwargs`
-- are what Python says of it (none where the inspection raises a TypeError, which the code ignores),
-- and `call` is its answer to an event. A handler that the caller leaves out is the number of None,
-- which is in no node. Handlers do not change the emitter while it calls them.
pub mod Cache
pub mod Counted
use Prim.Native.Char.{code}
use jcsapitest.Prelude.{
  ℕ, zero, suc, ◌+◌, ◌-◌, ◌^◌, String, Bool, true, false, ◌&&◌, Option, none, some, List, [], ◌∷◌,
  ◌==◌, length, if◌then◌else◌, Dict, get, put, remove, Exception, isinstance, value_error, Result,
  ok, raise, ◌>>=◌, ◌>>◌,
}
use jcsapitest.Hooks.Trie.{
  Section, first, middle, last, Node, append_item, prefix_search, remove_item,
}

-- s.split('.')
abbrev pub prepend : String → List String → List String
prepend c [] = c ∷ []
prepend c (p ∷ ps) = p ∷ ps

unfoldable pub split_dots : String → List String
split_dots String.[] = "" ∷ []
split_dots (String.◌∷◌ c s) =
    let rest = split_dots s in
    if code c == b'.'
    then "" ∷ rest
    else elim rest [ [] ↦ String.◌∷◌ c "" ∷ [] | p ∷ ps ↦ String.◌∷◌ c p ∷ ps ]

-- An entry of `_unique_id_handlers`; `count` is missing where no counter is used. A counter starts
-- at 1, and an entry with the counter 1 is dropped in place of counting down.
pub record UniqueItem : Type 0 where
  pub handler : ℕ
  pub count : Option ℕ

pub record Emitter : Type 0 where
  pub lookup_cache : Dict (List ℕ)
  pub handlers : Node
  pub unique_id_handlers : Dict UniqueItem

-- `if count:`
abbrev pub is_positive : Option ℕ → Bool
is_positive none = false
is_positive (some zero) = false
is_positive (some (suc n)) = true

abbrev pub count_error : Exception
count_error = value_error "Initial registration of unique id"

-- The item is added and the cache is cleared.
unfoldable pub add : String → ℕ → Section → Emitter → Emitter
unfolding split_dots append_item
add name h section e = record e {
  handlers = append_item (split_dots name) h section e.handlers;
  lookup_cache = [];
}

abbrev pub initial_count : Bool → Option ℕ
initial_count true = some 1
initial_count false = none

abbrev pub increment : Option ℕ → Option ℕ
increment none = none
increment (some n) = some (n + 1)

-- _register_section
unfoldable pub register_section :
    Section → String → ℕ → Option String → Bool → Emitter → Emitter × Result (Unit {0})
unfolding add get put
register_section section name h none uses_count e = (add name h section e, ok tt)
register_section section name h (some id) uses_count e = elim (get id e.unique_id_handlers) [
  | none ↦ (
    record (add name h section e) {
      unique_id_handlers =
          put id (record { handler = h; count = initial_count uses_count }) e.unique_id_handlers;
    },
    ok tt,
  )
  | some item ↦
      if uses_count
      then (if is_positive item.count
          then (
            record e {
              unique_id_handlers =
                  put id (record item { count = increment item.count }) e.unique_id_handlers;
            },
            ok tt,
          )
          else (e, raise count_error))
      else (if is_positive item.count then (e, raise count_error) else (e, ok tt))
]

-- The last step of `unregister`: a ValueError is dropped, and an error of another kind goes up.
unfoldable pub discard : String → ℕ → Emitter → Emitter × Result (Unit {0})
unfolding split_dots remove_item isinstance
discard name h e = elim (remove_item (split_dots name) h e.handlers) [
  | ok trie ↦ (record e { handlers = trie; lookup_cache = [] }, ok tt)
  | raise x ↦ if isinstance x "ValueError" then (e, ok tt) else (e, raise x)
]

abbrev pub forget : String → Emitter → Emitter
forget id e = record e { unique_id_handlers = remove id e.unique_id_handlers }

unfoldable pub unregister :
    String → ℕ → Option String → Bool → Emitter → Emitter × Result (Unit {0})
unfolding discard get put remove
unregister name h none uses_count e = discard name h e
unregister name h (some id) uses_count e = elim (get id e.unique_id_handlers) [
  | none ↦ (e, ok tt)
  | some item ↦
      if uses_count
      then elim item.count [
        | none ↦ (e, raise count_error)
        | some n ↦ if n == 1 then discard name item.handler (forget id e) else (
          record e {
            unique_id_handlers = put id (record item { count = some (n - 1) }) e.unique_id_handlers;
          },
          ok tt,
        )
      ]
      else (if is_positive item.count
          then (e, raise count_error)
          else discard name item.handler (forget id e))
]

-- self._handlers.prefix_search(event_name), with fuel for every node that it can visit
unfoldable pub search_handlers : String → Emitter → List ℕ
unfolding split_dots prefix_search
search_handlers name e =
    elim (prefix_search (2 ^ suc (length (split_dots name))) (split_dots name) e.handlers) [
      | none ↦ []
      | some hs ↦ hs
    ]

-- The handlers to call, from the cache if the name is there.
unfoldable pub handlers_to_call : String → Emitter → List ℕ × Emitter
unfolding search_handlers get put
handlers_to_call name e = elim (get name e.lookup_cache) [
  | some hs ↦ (hs, e)
  | none ↦
      let hs = search_handlers name e in
      (hs, record e { lookup_cache = put name hs e.lookup_cache })
]

module _ (callable : ℕ → Bool) (accepts_kwargs : ℕ → Option Bool) where
  abbrev verify_is_callable : ℕ → Result (Unit {0})
  verify_is_callable h = if callable h then ok tt else raise (value_error "must be callable")

  abbrev verify_accept_kwargs : ℕ → Result (Unit {0})
  verify_accept_kwargs h = elim (accepts_kwargs h) [
    | none ↦ ok tt
    | some accepts ↦ if accepts then ok tt else raise (value_error "must accept keyword arguments")
  ]

  -- The two checks of `_verify_and_register`.
  unfoldable pub verify : ℕ → Result (Unit {0})
  verify h = verify_is_callable h >> verify_accept_kwargs h

  -- _verify_and_register: register, register_first and register_last differ in the section.
  unfoldable pub register :
      Section → String → ℕ → Option String → Bool → Emitter → Emitter × Result (Unit {0})
  unfolding register_section verify
  register section name h unique_id uses_count e = elim (verify h) [
    | raise x ↦ (e, raise x)
    | ok done ↦ register_section section name h unique_id uses_count e
  ]

module _ {ℓ} {R : Type ℓ} (call : ℕ → Result (Option R)) where
  -- The loop of `_emit`; with `stop` it ends at the first answer that is not None.
  unfoldable pub run_handlers : Bool → List ℕ → Result (List (ℕ × Option R))
  run_handlers stop [] = ok []
  run_handlers stop (h ∷ hs) =
      let rest = run_handlers stop hs in
      call h >>= λ response. elim response [
        | some r ↦ if stop then ok ((h, some r) ∷ []) else (rest >>= λ rs. ok ((h, some r) ∷ rs))
        | none ↦ rest >>= λ rs. ok ((h, none) ∷ rs)
      ]

  unfoldable pub emit_with : Bool → String → Emitter → Emitter × Result (List (ℕ × Option R))
  unfolding handlers_to_call run_handlers
  emit_with stop name e = let (hs, e') = handlers_to_call name e in (e', run_handlers stop hs)

  unfoldable pub emit : String → Emitter → Emitter × Result (List (ℕ × Option R))
  unfolding emit_with
  emit = emit_with false

  abbrev pub last_of : List (ℕ × Option R) → Option ℕ × Option R
  last_of [] = (none, none)
  last_of ((h, r) ∷ []) = (some h, r)
  last_of (x ∷ y ∷ rs) = last_of (y ∷ rs)

  unfoldable pub emit_until_response : String → Emitter → Emitter × Result (Option ℕ × Option R)
  unfolding emit_with
  emit_until_response name e =
      let (e', responses) = emit_with true name e in (e', responses >>= λ rs. ok (last_of rs))

  -- first_non_none_response
  unfoldable pub first_non_none_response : Option R → List (ℕ × Option R) → Option R
  first_non_none_response default [] = default
  first_non_none_response default ((h, some r) ∷ rs) = some r
  first_non_none_response default ((h, none) ∷ rs) = first_non_none_response default rs
