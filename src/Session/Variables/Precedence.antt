-- ===== src/Session/Variables/Precedence.antt =====
-- Where the value of a session's variable comes from.
use jcsapitest.Prelude.{
  String, ◌≡◌, refl, inl, inr, false, Option, none, some, List, [], ◌∷◌, get, get-put, eq_refl,
  str_eq, Bool-cases, Option-cases, ok, arith,
}
use jcsapitest.Value.{Value, Fields, null, str, find_field}
use jcsapitest.Session.Variables.{
  Variable, Session, all_methods, or_else, value_or_null, no_config_name, variable_value,
  get_variable, get_scoped_config, get_config_variable, set_config_variable,
}

abbrev pub text_or_null : Option String → Value
text_or_null none = null
text_or_null (some t) = str t

-- The first value that is not None
abbrev pub first_value : List Value → Value
first_value [] = null
first_value (v ∷ vs) = or_else v (first_value vs)

or_else_assoc : (u v w : Value) → or_else (or_else u v) w ≡ or_else u (or_else v w)
or_else_assoc Value.null v w = refl
or_else_assoc (Value.bool b) v w = refl
or_else_assoc (Value.int n) v w = refl
or_else_assoc (Value.float n) v w = refl
or_else_assoc (Value.str t) v w = refl
or_else_assoc (Value.bytes t) v w = refl
or_else_assoc (Value.list vs) v w = refl
or_else_assoc (Value.dict fs) v w = refl
or_else_assoc (Value.other t) v w = refl

or_else-null : (u : Value) → or_else u null ≡ u
or_else-null Value.null = refl
or_else-null (Value.bool b) = refl
or_else-null (Value.int n) = refl
or_else-null (Value.float n) = refl
or_else-null (Value.str t) = refl
or_else-null (Value.bytes t) = refl
or_else-null (Value.list vs) = refl
or_else-null (Value.dict fs) = refl
or_else-null (Value.other t) = refl

module _ (s : Session) (logical_name config_name envvar_name : String) (config_default : Value)
    (known : get logical_name s.session_var_map
      ≡ some (record {
        config_name = some config_name;
        envvar_name = some envvar_name;
        default = config_default;
      }))
    (configured : no_config_name logical_name ≡ false) (named : str_eq config_name "" ≡ false)
    (exported : str_eq envvar_name "" ≡ false) where
  plain_name : str_eq logical_name "profile" ≡ false
  plain_name = elim (Bool-cases (str_eq logical_name "profile")) [
    | inr e ↦ e
    | inl e ↦ ground (arith)
  ]

  -- Let a variable other than the profile and the configuration file have a name in the environment and one in the
  -- configuration, neither of them empty, let it not be set on the session, and let the configuration of
  -- the session's profile be read. Then its value is that of the environment; without one, it is the first
  -- that is not None of the value in the configuration, the default of the call and that of the variable.
  pub get_config_variable-first :
      (scoped : Fields) (default : Value)
      → get logical_name s.session_instance_vars ≡ none
      → get_scoped_config s ≡ ok scoped
      → get_config_variable s all_methods default logical_name
        ≡ ok (
            first_value (
              text_or_null (get envvar_name s.environ)
              ∷ value_or_null (find_field config_name scoped)
              ∷ default
              ∷ config_default
              ∷ []))
  unfolding get_config_variable get_variable variable_value
  get_config_variable-first scoped default unset is_scoped =
      elim (Option-cases (get envvar_name s.environ)) [
        | inr (t, e) ↦ rw (get_variable, known, unset, variable_value, plain_name, exported, e) refl
        | inl missing ↦
            rw
              (
                get_variable,
                known,
                unset,
                variable_value,
                plain_name,
                exported,
                missing,
                configured,
                named,
                is_scoped,
                or_else-null config_default,
                or_else_assoc (value_or_null (find_field config_name scoped)) default
                    config_default,
              )
              refl
      ]

-- A variable that is set on the session has that value, whatever the environment and the files say, if its name is known.
pub get_config_variable-set :
    (s : Session) (name : String) (value default : Value) (v : Variable)
    → get name s.session_var_map ≡ some v
    → get_config_variable (set_config_variable s name value) all_methods default name ≡ ok value
unfolding get_config_variable get_variable set_config_variable
get_config_variable-set s name value default v known =
    rw (get_variable, known, get-put name name value s.session_instance_vars, eq_refl name) refl
