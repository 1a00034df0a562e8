-- ===== src/Hooks/Emitter/Cache.antt =====
-- The lookup cache of the emitter in botocore/hooks.py, over all that a program does with it.
use jcsapitest.Prelude.{
  ℕ, String, ◌≡◌, ◌⊎◌, inl, inr, refl, Bool, Option, none, some, List, [], ◌∷◌, arith, Option-cases,
  Result-cases, get, get-put, eq_iff, Result,
}
use jcsapitest.Hooks.Trie.{Section, empty_node, remove_item}
use jcsapitest.Hooks.Trie.Search.{search, prefix_search-eq}
use jcsapitest.Hooks.Emitter.{
  Emitter, split_dots, search_handlers, handlers_to_call, register_section, register, discard,
  unregister, emit_with, run_handlers, verify, forget,
}

-- The handlers of a name, in the order in which they are called.
abbrev pub handlers_for : String → Emitter → List ℕ
handlers_for name e = search (split_dots name) e.handlers

pub record IsCoherent (e : Emitter) : Type 0 where
  pub cached :
      (name : String) (hs : List ℕ) → get name e.lookup_cache ≡ some hs → hs ≡ handlers_for name e

search_handlers-eq : (name : String) (e : Emitter) → search_handlers name e ≡ handlers_for name e
unfolding search_handlers
search_handlers-eq name e = rw (prefix_search-eq (split_dots name) e.handlers, search_handlers)

handlers_to_call-eq :
    (name : String) (e : Emitter) → IsCoherent e → (handlers_to_call name e).0 ≡ handlers_for name e
unfolding handlers_to_call
handlers_to_call-eq name e c = elim (Option-cases (get name e.lookup_cache)) [
  | inl absent ↦ rw (absent, handlers_to_call) (search_handlers-eq name e)
  | inr (hs, there) ↦ rw (there, handlers_to_call) (c.cached name hs there)
]

handlers_to_call-IsCoherent :
    (name : String) (e : Emitter) → IsCoherent e → IsCoherent (handlers_to_call name e).1
unfolding handlers_to_call
handlers_to_call-IsCoherent name e c = elim (Option-cases (get name e.lookup_cache)) [
  | inl absent ↦
      rw (absent, handlers_to_call)
        (record {
          cached = λ other hs there. ground (
            arith,
            get-put name other (search_handlers name e) e.lookup_cache,
            there,
            search_handlers-eq name e,
            c.cached other hs,
            eq_iff name other,
          );
        })
  | inr (hs, there) ↦ rw (there, handlers_to_call) c
]

get_nil : (name : String) → get {V = List ℕ} name [] ≡ none
unfolding get
get_nil name = refl

empty-IsCoherent : (e : Emitter) → e.lookup_cache ≡ [] → IsCoherent e
empty-IsCoherent e h = record { cached = λ name hs there. cc (get_nil name) }

-- An operation cleared the cache, or left the cache and the trie alone.
abbrev Keeps : Emitter → Emitter → Type 0
Keeps e e' =
    (e'.lookup_cache ≡ []) ⊎ ((e'.lookup_cache ≡ e.lookup_cache) × (e'.handlers ≡ e.handlers))

Keeps-IsCoherent : (e e' : Emitter) → Keeps e e' → IsCoherent e → IsCoherent e'
Keeps-IsCoherent e e' (inl h) c = empty-IsCoherent e' h
Keeps-IsCoherent e e' (inr (same, trie)) c = record {
  cached = λ name hs there. rw trie (c.cached name hs (rw same at there));
}

register_section-Keeps :
    (section : Section) (name : String) (h : ℕ) (id : Option String) (uses_count : Bool)
    (e : Emitter)
    → Keeps e (register_section section name h id uses_count e).0
unfolding register_section
register_section-Keeps section name h none uses_count e = inl refl
register_section-Keeps section name h (some id) uses_count e =
    elim (Option-cases (get id e.unique_id_handlers)) [
      | inl new ↦ rw (new, register_section) (inl refl)
      | inr (item, old) ↦ rw (old, register_section) (ground arith)
    ]

discard-Keeps : (name : String) (h : ℕ) (e : Emitter) → Keeps e (discard name h e).0
unfolding discard
discard-Keeps name h e = elim (Result-cases (remove_item (split_dots name) h e.handlers)) [
  | inl (x, failed) ↦ rw (failed, discard) (ground arith)
  | inr (trie, removed) ↦ rw (removed, discard) (inl refl)
]

unregister-Keeps :
    (name : String) (h : ℕ) (id : Option String) (uses_count : Bool) (e : Emitter)
    → Keeps e (unregister name h id uses_count e).0
unfolding unregister
unregister-Keeps name h none uses_count e = discard-Keeps name h e
unregister-Keeps name h (some id) uses_count e = elim (Option-cases (get id e.unique_id_handlers)) [
  | inl new ↦ rw (new, unregister) (inr (refl, refl))
  | inr (item, old) ↦
      rw (old, unregister) (ground (arith, discard-Keeps name item.handler (forget id e)))
]

-- What a program does with an emitter.
pub data Operation : Type 0 where
  registers : Section → String → ℕ → Option String → Bool → Operation
  unregisters : String → ℕ → Option String → Bool → Operation
  emits : Bool → String → Operation

abbrev pub fresh : Emitter
fresh = record { lookup_cache = []; handlers = empty_node; unique_id_handlers = [] }

module _ {ℓ} {R : Type ℓ} (callable : ℕ → Bool) (accepts_kwargs : ℕ → Option Bool)
    (call : ℕ → Result (Option R)) where
  unfoldable pub perform : Operation → Emitter → Emitter
  unfolding register unregister emit_with
  perform (registers section name h id uses_count) e =
      (register callable accepts_kwargs section name h id uses_count e).0
  perform (unregisters name h id uses_count) e = (unregister name h id uses_count e).0
  perform (emits stop name) e = (emit_with call stop name e).0

  unfoldable pub perform_all : List Operation → Emitter → Emitter
  unfolding perform
  perform_all [] e = e
  perform_all (op ∷ ops) e = perform_all ops (perform op e)

  perform-IsCoherent : (op : Operation) (e : Emitter) → IsCoherent e → IsCoherent (perform op e)
  unfolding perform
  perform-IsCoherent (registers section name h id uses_count) e c =
      elim (Result-cases (verify callable accepts_kwargs h)) [
        | inl (x, bad) ↦ rw (bad, perform) c
        | inr (done, good) ↦
            rw (good, perform)
              (Keeps-IsCoherent e (register_section section name h id uses_count e).0
                (register_section-Keeps section name h id uses_count e) c)
      ]
  perform-IsCoherent (unregisters name h id uses_count) e c =
      Keeps-IsCoherent e (unregister name h id uses_count e).0
        (unregister-Keeps name h id uses_count e) c
  perform-IsCoherent (emits stop name) e c = handlers_to_call-IsCoherent name e c

  perform_all-IsCoherent :
      (ops : List Operation) (e : Emitter) → IsCoherent e → IsCoherent (perform_all ops e)
  unfolding perform_all
  perform_all-IsCoherent [] e c = c
  perform_all-IsCoherent (op ∷ ops) e c =
      perform_all-IsCoherent ops (perform op e) (perform-IsCoherent op e c)

  -- Whatever was registered, unregistered and emitted before, an event calls the handlers that a
  -- search of the trie finds, in that order: the cache never shows.
  pub emit-eq :
      (ops : List Operation) (stop : Bool) (name : String)
      → (emit_with call stop name (perform_all ops fresh)).1
        ≡ run_handlers call stop (handlers_for name (perform_all ops fresh))
  unfolding emit_with
  emit-eq ops stop name = rw (
      handlers_to_call-eq name (perform_all ops fresh)
        (perform_all-IsCoherent ops fresh (empty-IsCoherent fresh refl)))
