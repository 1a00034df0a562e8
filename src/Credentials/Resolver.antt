-- ===== src/Credentials/Resolver.antt =====
-- botocore/credentials.py: `CredentialResolver` and `create_credential_resolver`. A provider is its
-- METHOD and the answer of its `load`.
pub mod Chain
pub mod Default
use jcsapitest.Prelude.{
  ℕ, String, Bool, true, false, Option, none, some, List, [], ◌∷◌, ◌++◌, str_eq, if◌then◌else◌,
  Dict, Exception, boto_error, Result, ok, raise, ◌>>=◌,
}
use jcsapitest.Value.{Value}
use jcsapitest.Credentials.Providers.{
  Loaded, Profiles, env_load, shared_load, config_load, original_ec2_load, boto_load, metadata_load,
}

pub record Provider : Type 0 where
  pub method : String
  pub load : Result (Option Loaded)

abbrev pub unknown_credential_error : String → Exception
unknown_credential_error name = boto_error "UnknownCredentialError" name

-- insert(methods.index(name), p)
unfoldable pub insert_before : String → Provider → List Provider → Result (List Provider)
insert_before name p [] = raise (unknown_credential_error name)
insert_before name p (q ∷ qs) =
    let rest = insert_before name p qs in
    if str_eq q.method name then ok (p ∷ q ∷ qs) else (rest >>= λ ps. ok (q ∷ ps))

-- insert(methods.index(name) + 1, p)
unfoldable pub insert_after : String → Provider → List Provider → Result (List Provider)
insert_after name p [] = raise (unknown_credential_error name)
insert_after name p (q ∷ qs) =
    let rest = insert_after name p qs in
    if str_eq q.method name then ok (q ∷ p ∷ qs) else (rest >>= λ ps. ok (q ∷ ps))

-- The first provider of the name goes, if there is one.
unfoldable pub remove_provider : String → List Provider → List Provider
remove_provider name [] = []
remove_provider name (q ∷ qs) = if str_eq q.method name then qs else q ∷ remove_provider name qs

unfoldable pub load_credentials : List Provider → Result (Option Loaded)
load_credentials [] = ok none
load_credentials (p ∷ ps) =
    let rest = load_credentials ps in
    p.load >>= λ creds. elim creds [ none ↦ rest | some c ↦ ok (some c) ]

-- What the session's configuration variables say of the credentials
pub record Settings : Type 0 where
  pub profile_variable : Option String
  pub credentials_file : String
  pub config_file : String
  pub metadata_timeout : Value
  pub num_attempts : Value

-- What the resolver is made from: the session, the environment, and what reads files. A variable is what
-- session.get_config_variable returns or raises: to read one can mean to read the configuration file, which
-- raises a ConfigParseError if it is malformed and a ProfileNotFound if it has no such profile. The
-- names of the files are texts.
pub record Surroundings : Type 0 where
  -- session.profile
  pub profile : Option String
  pub profile_variable : Result (Option String)
  pub credentials_file : Result String
  pub config_file : Result String
  pub metadata_service_timeout : Result Value
  pub metadata_service_num_attempts : Result Value
  pub environ : Dict String
  pub ini_parser : String → Result Profiles
  pub config_parser : String → Result (Dict Profiles)
  pub key_val_parser : String → Result (Dict String)
  pub expanduser : String → String
  pub parse : String → Result ℕ
  -- What the metadata service answers with a timeout and a number of attempts
  pub metadata : Value → Value → Result (Dict String)

-- session.get_config_variable('profile') or 'default'
abbrev pub profile_name : Option String → String
profile_name none = "default"
profile_name (some p) = if str_eq p "" then "default" else p

-- The variables are read in this order.
unfoldable pub session_variables : Surroundings → Result Settings
session_variables s = s.profile_variable >>= λ profile. s.credentials_file >>= λ credentials.
    s.config_file >>= λ config. s.metadata_service_timeout >>= λ timeout.
    s.metadata_service_num_attempts >>= λ attempts. ok (record {
      profile_variable = profile;
      credentials_file = credentials;
      config_file = config;
      metadata_timeout = timeout;
      num_attempts = attempts;
    })

abbrev pub other_providers : Surroundings → Settings → List Provider
other_providers s v =
    record {
      method = "shared-credentials-file";
      load = shared_load s.ini_parser v.credentials_file (profile_name v.profile_variable);
    }
    ∷ record {
      method = "config-file";
      load = config_load s.config_parser v.config_file (profile_name v.profile_variable);
    }
    ∷ record {
      method = "ec2-credentials-file";
      load = original_ec2_load s.expanduser s.key_val_parser s.environ;
    }
    ∷ record { method = "boto-config"; load = boto_load s.ini_parser s.environ }
    ∷ record {
      method = "iam-role";
      load = metadata_load s.parse (s.metadata v.metadata_timeout v.num_attempts);
    }
    ∷ []

-- Without a profile the environment comes first; with one it is not looked at.
unfoldable pub providers_of : Surroundings → Settings → List Provider
unfolding env_load shared_load config_load original_ec2_load boto_load metadata_load
providers_of s v = elim s.profile [
  | none ↦ record { method = "env"; load = env_load s.environ } ∷ other_providers s v
  | some p ↦ other_providers s v
]

unfoldable pub create_credential_resolver : Surroundings → Result (List Provider)
unfolding session_variables providers_of
create_credential_resolver s = session_variables s >>= λ v. ok (providers_of s v)

unfoldable pub get_credentials : Surroundings → Result (Option Loaded)
unfolding create_credential_resolver load_credentials
get_credentials s = create_credential_resolver s >>= λ providers. load_credentials providers
