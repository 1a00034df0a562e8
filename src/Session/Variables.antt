-- ===== src/Session/Variables.antt =====
-- botocore/session.py: the configuration variables of a `Session`. The profile map is what _build_profile_map
-- returns or raises; `environ` is os.environ.
pub mod Precedence
use jcsapitest.Prelude.{
  String, Bool, true, false, not, ◌&&◌, ◌||◌, Option, none, some, Dict, get, put, has, str_eq,
  if◌then◌else◌, boto_error, Result, ok, raise, ◌>>=◌,
}
use jcsapitest.Value.{Value, Fields, null, str, end, find_field}

-- (config_file, env_var, default_value) of a logical name
pub record Variable : Type 0 where
  pub config_name : Option String
  pub envvar_name : Option String
  pub default : Value

pub record Session : Type 0 where
  pub session_var_map : Dict Variable
  pub profile : Option String
  pub session_instance_vars : Dict Value
  pub environ : Dict String
  pub profile_map : Result (Dict Fields)

-- Which of the methods instance, env and config are tried
pub record Methods : Type 0 where
  pub instance_ : Bool
  pub env : Bool
  pub config : Bool

abbrev pub all_methods : Methods
all_methods = record { instance_ = true; env = true; config = true }

-- if value is None: value = default
abbrev pub or_else : Value → Value → Value
or_else Value.null default = default
or_else v default = v

abbrev pub value_or_null : Option Value → Value
value_or_null none = null
value_or_null (some v) = v

-- config.get(config_name), where there is a name
unfoldable pub config_value : Result Fields → Option String → Result Value
unfolding find_field
config_value scoped none = ok null
config_value scoped (some name) = scoped >>= λ fs. ok (value_or_null (find_field name fs))

abbrev pub no_config_name : String → Bool
no_config_name logical_name = str_eq logical_name "config_file" || str_eq logical_name "profile"

module _ (s : Session) where
  -- A name is truthy if it is not empty.
  abbrev pub env_value : Methods → Option String → Option String
  env_value m none = none
  env_value m (some name) = if m.env && not (str_eq name "") then get name s.environ else none

  -- self._profile, if it is asked for and not empty
  abbrev pub profile_value : String → Option String
  profile_value logical_name =
      if str_eq logical_name "profile"
      then (elim s.profile [ none ↦ none | some p ↦ if str_eq p "" then none else some p ])
      else none

  abbrev pub named_config : String → Option String → Option String
  named_config logical_name none = none
  named_config logical_name (some name) =
      if no_config_name logical_name || str_eq name "" then none else some name

  -- The value of a variable that is in the map, before the defaults
  unfoldable pub variable_value : Result Fields → Methods → String → Variable → Result Value
  unfolding get config_value
  variable_value scoped m logical_name v = elim (profile_value logical_name) [
    | some p ↦ ok (str p)
    | none ↦ elim (env_value m v.envvar_name) [
      | some t ↦ ok (str t)
      | none ↦
          if m.config
          then config_value scoped (named_config logical_name v.config_name)
          else ok null
    ]
  ]

  abbrev pub instance_value : Methods → String → Option Value
  instance_value m logical_name =
      if m.instance_ then get logical_name s.session_instance_vars else none

  -- get_config_variable, where `scoped` is what get_scoped_config gives
  unfoldable pub get_variable : Result Fields → Methods → Value → String → Result Value
  unfolding get variable_value
  get_variable scoped m default logical_name = elim (get logical_name s.session_var_map) [
    | none ↦ ok default
    | some v ↦ elim (instance_value m logical_name) [
      | some w ↦ ok w
      | none ↦ variable_value scoped m logical_name v >>= λ value.
          ok (or_else (or_else value default) v.default)
    ]
  ]

  abbrev pub profile_config : Dict Fields → Value → Result Fields
  profile_config profiles Value.null = elim (get "default" profiles) [
    | none ↦ ok end
    | some fs ↦ ok fs
  ]
  profile_config profiles (Value.str name) = elim (get name profiles) [
    | none ↦ raise (boto_error "ProfileNotFound" name)
    | some fs ↦ ok fs
  ]
  profile_config profiles v = raise (boto_error "ProfileNotFound" "")

  -- get_scoped_config. The profile itself is never read from the configuration.
  unfoldable pub get_scoped_config : Result Fields
  unfolding get_variable get
  get_scoped_config = get_variable (ok end) all_methods null "profile" >>= λ name.
      s.profile_map >>= λ profiles. profile_config profiles name

  -- get_config_variable
  unfoldable pub get_config_variable : Methods → Value → String → Result Value
  unfolding get_variable get_scoped_config
  get_config_variable m default logical_name = get_variable get_scoped_config m default logical_name

  -- set_config_variable
  unfoldable pub set_config_variable : String → Value → Session
  unfolding put
  set_config_variable logical_name value = record s {
    session_instance_vars = put logical_name value s.session_instance_vars;
  }
