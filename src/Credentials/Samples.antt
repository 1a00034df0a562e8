-- ===== src/Credentials/Samples.antt =====
-- A chain of three providers of botocore/credentials.py, an environment with keys, and credentials that
-- run out.
use jcsapitest.Prelude.{
  ℕ, String, ◌≡◌, ◌⊎◌, refl, false, none, some, [], ◌∷◌, Dict, get, has, item, exception, key_error,
  value_error, Result, ok, raise,
}
use jcsapitest.Value.Int.{pos}
use jcsapitest.Value.{int}
use jcsapitest.Credentials.Refresh.{
  Refreshable, refresh_needed, set_from_data, refresh, access_key_of,
}
use jcsapitest.Credentials.Refresh.Current.{IsFrom, access_key_of-IsFrom}
use jcsapitest.Credentials.Providers.{
  Loaded, fixed, partial_credentials_error, env_load, from_mapping, extract, get_session_token,
}
use jcsapitest.Credentials.Resolver.{
  Provider, Surroundings, insert_before, insert_after, remove_provider, load_credentials,
  get_credentials, session_variables, providers_of, create_credential_resolver,
}
use jcsapitest.Credentials.Resolver.Chain.{IsFirst, load_credentials-IsFirst}
use jcsapitest.Credentials.Resolver.Default.{get_credentials-environ, get_credentials_partial}

abbrev keys : Loaded
keys = fixed (record { access_key = "AK"; secret_key = "SK"; token = none; method = "custom" })

abbrev empty_provider : Provider
empty_provider = record { method = "env"; load = ok none }

abbrev full : Provider
full = record { method = "custom"; load = ok (some keys) }

abbrev broken : Provider
broken = record { method = "config-file"; load = raise (value_error "broken file") }

program : Unit {0}
unfolding load_credentials insert_before insert_after remove_provider get_credentials
    create_credential_resolver session_variables providers_of env_load from_mapping extract
    get_session_token get has item refresh_needed set_from_data refresh access_key_of
program = tt

load_credentials-IsFirst_example : IsFirst (empty_provider ∷ full ∷ broken ∷ []) keys
unfolding program
load_credentials-IsFirst_example =
    load_credentials-IsFirst (empty_provider ∷ full ∷ broken ∷ []) keys refl

abbrev surroundings : Dict String → Surroundings
surroundings environ = record {
  profile = none;
  profile_variable = ok none;
  credentials_file = ok "~/.jcs/credentials";
  config_file = ok "~/.jcs/config";
  metadata_service_timeout = ok (int (pos 1));
  metadata_service_num_attempts = ok (int (pos 1));
  environ = environ;
  ini_parser = λ name. raise (exception "ConfigNotFound" name);
  config_parser = λ name. raise (exception "ConfigNotFound" name);
  key_val_parser = λ name. raise (value_error name);
  expanduser = λ name. name;
  parse = λ text. ok 0;
  metadata = λ timeout attempts. ok [];
}

abbrev both_keys : Dict String
both_keys = ("JCS_ACCESS_KEY_ID", "AK") ∷ ("JCS_SECRET_ACCESS_KEY", "SK") ∷ []

get_credentials-environ_example :
    get_credentials (surroundings both_keys)
    ≡ ok (
        some
          (fixed (record { access_key = "AK"; secret_key = "SK"; token = none; method = "env" })))
unfolding program
get_credentials-environ_example =
    get_credentials-environ (surroundings both_keys) "AK" "SK" refl refl refl

-- A malformed configuration file is reported before the environment is looked at.
malformed-raises :
    get_credentials (record (surroundings both_keys) {
      metadata_service_timeout = raise (exception "ConfigParseError" "~/.jcs/config");
    })
    ≡ raise (exception "ConfigParseError" "~/.jcs/config")
unfolding program
malformed-raises = refl

abbrev one_key : Dict String
one_key = ("JCS_ACCESS_KEY_ID", "AK") ∷ []

get_credentials_partial_example :
    get_credentials (surroundings one_key)
    ≡ raise (partial_credentials_error "JCS_SECRET_ACCESS_KEY")
unfolding program
get_credentials_partial_example = get_credentials_partial (surroundings one_key) "AK" refl refl refl

abbrev parse : String → Result ℕ
parse text = ok 2000000000

abbrev old : Refreshable
old = record {
  access_key = "AK0";
  secret_key = "SK0";
  token = "T0";
  expiry_time = some 1000000000;
  method = "iam-role";
}

abbrev new : Refreshable
new = record {
  access_key = "AK1";
  secret_key = "SK1";
  token = "T1";
  expiry_time = some 2000000000;
  method = "iam-role";
}

abbrev answer : Result (Dict String)
answer = ok (
    ("access_key", "AK1")
    ∷ ("secret_key", "SK1")
    ∷ ("token", "T1")
    ∷ ("expiry_time", "2015-06-01T12:00:00Z")
    ∷ [])

-- A reading with time left, and one without.
early : access_key_of parse 50000000 answer old ≡ (old, ok "AK0")
unfolding program
early = refl

late : access_key_of parse 200000000 answer old ≡ (new, ok "AK1")
unfolding program
late = refl

-- An answer without a secret key leaves the new access key with the old secret key behind.
torn :
    access_key_of parse 200000000 (ok (("access_key", "AK1") ∷ [])) old
    ≡ (record old { access_key = "AK1" }, raise (key_error "secret_key"))
unfolding program
torn = refl

access_key_of-IsFrom_example :
    (new.access_key ≡ "AK1")
    × (((refresh_needed 200000000 old ≡ false) × (new ≡ old))
        ⊎ ((metadata : Dict String) × (answer ≡ ok metadata) × IsFrom parse metadata new))
access_key_of-IsFrom_example = access_key_of-IsFrom parse 200000000 answer old new "AK1" late
