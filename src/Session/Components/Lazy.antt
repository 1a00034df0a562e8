-- ===== src/Session/Components/Lazy.antt =====
-- When the factory of a component is called.
use jcsapitest.Prelude.{
  String, ◌≡◌, refl, ◌∙◌, none, some, Dict, get, put, remove, get-put, eq_refl, value_error,
  Exception, Result, ok, raise,
}
use jcsapitest.Session.Components.{
  Locator, get_component, lazy_register_component, popped, assigned, found,
}

module _ {ℓ κ} {C : Type ℓ} {F : Type κ} (run : F → Locator C F → Locator C F × Result C)
    (l after : Locator C F) (name : String) (factory : F) where
  get-put_self {μ} : {A : Type μ} (v : A) (d : Dict A) → get name (put name v d) ≡ some v
  get-put_self v d = get-put name name v d ∙ rw (eq_refl name) refl

  abbrev registered : Locator C F
  registered = lazy_register_component run name factory l

  -- What the factory is called with: the locator without it
  abbrev pub without_factory : Locator C F
  without_factory = record registered { deferred = remove name registered.deferred }

  get_component-deferred :
      get_component run registered name ≡ assigned run name (run factory without_factory)
  unfolding get_component lazy_register_component popped
  get_component-deferred = rw (get_component, get-put_self {A = F} factory l.deferred) refl

  get_component-ready :
      (l' : Locator C F)
      → get name l'.deferred ≡ none
      → get_component run l' name ≡ (l', found run (get name l'.components) name)
  unfolding get_component
  get_component-ready l' absent = rw (get_component, absent) refl

  -- Let a factory be registered under a name, and let its call with the locator, from which it is taken
  -- out, make a component; the call may use and change the locator, but it leaves no factory under that name.
  -- Then the first call for the name returns that component, and so does every later one, which changes
  -- nothing; what was registered under the name before does not count.
  pub get_component-lazy :
      (c : C)
      → run factory without_factory ≡ (after, ok c)
      → get name after.deferred ≡ none
      → ((get_component run registered name).1 ≡ ok c)
        × (get_component run (get_component run registered name).0 name
            ≡ ((get_component run registered name).0, ok c))
  get_component-lazy c made absent =
      let again =
        get_component-ready (record after { components = put name c after.components }) absent in
      (
        rw (get_component-deferred, made) refl,
        rw (get_component-deferred, made) (again ∙ rw (get-put_self c after.components) refl),
      )

  -- Let a factory be registered under a name, let its call with the locator, from which it is taken out,
  -- raise, and let the call leave neither a factory nor a component under that name. Then its exception comes
  -- from the first call for the name alone: every later one raises a ValueError, as for a component that is
  -- unknown, and changes nothing.
  pub get_component-failed :
      (e : Exception)
      → run factory without_factory ≡ (after, raise e)
      → get name after.deferred ≡ none
      → get name after.components ≡ none
      → ((get_component run registered name).1 ≡ raise e)
        × (get_component run (get_component run registered name).0 name
            ≡ ((get_component run registered name).0, raise (value_error name)))
  get_component-failed e failed absent missing =
      let again = get_component-ready after absent in
      (
        rw (get_component-deferred, failed) refl,
        rw (get_component-deferred, failed) (again ∙ rw missing refl),
      )
