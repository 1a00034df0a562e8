-- ===== src/Session/Components.antt =====
-- botocore/session.py: `ComponentLocator`. A factory is a value of the type F, and `run` is what it does when it
-- is called: it takes the locator, which the factories of a session use and change, and gives it back with
-- the component or what it raises.
pub mod Lazy
use jcsapitest.Prelude.{
  String, Option, none, some, Dict, get, put, remove, Exception, value_error, Result, ok, raise,
}

pub record Locator {ℓ κ} (C : Type ℓ) (F : Type κ) : Type (ℓ ⊔ κ) where
  pub components : Dict C
  pub deferred : Dict F

abbrev pub unknown : String → Exception
unknown name = value_error name

module _ {ℓ κ} {C : Type ℓ} {F : Type κ} (run : F → Locator C F → Locator C F × Result C) where
  abbrev pub found : Option C → String → Result C
  found none name = raise (unknown name)
  found (some c) name = ok c

  -- self._components[name] = factory(), with what the call made of the locator
  abbrev pub assigned : String → Locator C F × Result C → Locator C F × Result C
  assigned name (l, raise e) = (l, raise e)
  assigned name (l, ok c) = (record l { components = put name c l.components }, ok c)

  -- self._deferred.pop(name)
  unfoldable pub popped : String → Locator C F → Locator C F
  unfolding remove
  popped name l = record l { deferred = remove name l.deferred }

  -- The factory is taken out before it is called.
  abbrev pub called : Locator C F → String → F → Locator C F × Result C
  called l name factory = assigned name (run factory (popped name l))

  -- get_component
  unfoldable pub get_component : Locator C F → String → Locator C F × Result C
  unfolding get put popped
  get_component l name = elim (get name l.deferred) [
    | some factory ↦ called l name factory
    | none ↦ (l, found (get name l.components) name)
  ]

  -- register_component
  unfoldable pub register_component : String → C → Locator C F → Locator C F
  unfolding put remove
  register_component name c l = record {
    components = put name c l.components;
    deferred = remove name l.deferred;
  }

  -- lazy_register_component
  unfoldable pub lazy_register_component : String → F → Locator C F → Locator C F
  unfolding put remove
  lazy_register_component name factory l = record {
    components = remove name l.components;
    deferred = put name factory l.deferred;
  }
