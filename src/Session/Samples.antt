-- ===== src/Session/Samples.antt =====
-- A session with a profile, and what botocore/session.py finds in it.
use jcsapitest.Prelude.{
  put, remove, Result, ◌≡◌, refl, String, Option, none, some, [], ◌∷◌, get, boto_error, value_error,
  Exception, ok, raise,
}
use jcsapitest.Value.{Value, Fields, null, str, field, end, find_field}
use jcsapitest.Session.Components.{Locator, get_component, lazy_register_component}
use jcsapitest.Session.Components.Lazy.{get_component-lazy, get_component-failed}
use jcsapitest.Session.Variables.{
  Variable, Session, all_methods, get_config_variable, get_scoped_config, set_config_variable,
  value_or_null,
}
use jcsapitest.Session.Variables.Precedence.{first_value, text_or_null, get_config_variable-first}

abbrev variable : Option String → Option String → Value → Variable
variable config env default = record { config_name = config; envvar_name = env; default = default }

abbrev dev : Fields
dev = field "region" (str "west") end

abbrev session : Session
session = record {
  session_var_map =
      ("profile", variable none (some "BOTO_DEFAULT_PROFILE") null)
      ∷ ("region", variable (some "region") (some "BOTO_DEFAULT_REGION") null)
      ∷ [];
  profile = none;
  session_instance_vars = [];
  environ = ("BOTO_DEFAULT_PROFILE", "dev") ∷ [];
  profile_map = ok (("dev", dev) ∷ []);
}

program : Unit {0}
unfolding get_config_variable get_scoped_config set_config_variable get put remove find_field
    get_component lazy_register_component
program = tt

region-config : get_config_variable session all_methods (str "x") "region" ≡ ok (str "west")
unfolding program
region-config = refl

-- A profile that is not in the file
profile-missing :
    get_config_variable (record session { profile = some "other" }) all_methods null "region"
    ≡ raise (boto_error "ProfileNotFound" "other")
unfolding program
profile-missing = refl

get_config_variable-first_example :
    get_config_variable session all_methods (str "x") "region"
    ≡ ok (
        first_value (
          text_or_null (get "BOTO_DEFAULT_REGION" session.environ)
          ∷ value_or_null (find_field "region" dev)
          ∷ str "x"
          ∷ null
          ∷ []))
unfolding program
get_config_variable-first_example =
    get_config_variable-first session "region" "region" "BOTO_DEFAULT_REGION" null refl refl refl
      refl dev (str "x") refl refl

-- A factory that makes another component before it returns or raises
abbrev run :
    Result String → Locator String (Result String) → Locator String (Result String) × Result String
run factory l = (record l { components = put "emitter" "made" l.components }, factory)

abbrev old_loader : Locator String (Result String)
old_loader = record { components = ("loader", "old") ∷ []; deferred = [] }

abbrev deferred_loader : Result String → Locator String (Result String)
deferred_loader factory = lazy_register_component run "loader" factory old_loader

abbrev with_emitter : Locator String (Result String)
with_emitter = record { components = ("emitter", "made") ∷ []; deferred = [] }

get_component-lazy_example :
    ((get_component run (deferred_loader (ok "new")) "loader").1 ≡ ok "new")
    × (get_component run (get_component run (deferred_loader (ok "new")) "loader").0 "loader"
        ≡ ((get_component run (deferred_loader (ok "new")) "loader").0, ok "new"))
unfolding program
get_component-lazy_example =
    get_component-lazy run old_loader with_emitter "loader" (ok "new") "new" refl refl

abbrev failure : Exception
failure = boto_error "DataNotFoundError" "aws/_endpoints"

get_component-failed_example :
    ((get_component run (deferred_loader (raise failure)) "loader").1 ≡ raise failure)
    × (get_component run (get_component run (deferred_loader (raise failure)) "loader").0 "loader"
        ≡ (
          (get_component run (deferred_loader (raise failure)) "loader").0,
          raise (value_error "loader"),
        ))
unfolding program
get_component-failed_example =
    get_component-failed run old_loader with_emitter "loader" (raise failure) failure refl refl refl
