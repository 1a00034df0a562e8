-- ===== src/Credentials/Providers.antt =====
-- botocore/credentials.py: the providers. Each `load` answers with credentials, with None, or with an
-- exception. The environment is a dictionary; the parsers of files, which the providers take as
-- arguments, `os.path.expanduser` and the answer of the metadata service are parameters.
use jcsapitest.Prelude.{
  ℕ, String, Option, none, some, List, [], ◌∷◌, if◌then◌else◌, Dict, get, has, item, Exception,
  boto_error, isinstance, Result, ok, raise, ◌>>=◌,
}
use jcsapitest.Credentials.Refresh.{Credentials, Refreshable, create_from_metadata}

-- What a provider finds: fixed credentials, or credentials that refresh.
pub data Loaded : Type 0 where
  fixed : Credentials → Loaded
  refreshable : Refreshable → Loaded

abbrev pub Profiles : Type 0
Profiles = Dict (Dict String)

abbrev pub partial_credentials_error : String → Exception
partial_credentials_error variable = boto_error "PartialCredentialsError" variable

-- mapping[key], in _extract_creds_from_mapping
unfoldable pub extract : Dict String → String → Result String
unfolding get
extract mapping key = elim (get key mapping) [
  | none ↦ raise (partial_credentials_error key)
  | some v ↦ ok v
]

-- _get_session_token: the first name that is there.
unfoldable pub get_session_token : List String → Dict String → Option String
unfolding get
get_session_token [] mapping = none
get_session_token (name ∷ names) mapping = elim (get name mapping) [
  | none ↦ get_session_token names mapping
  | some v ↦ some v
]

-- The names under which a provider looks, and what it calls itself.
pub record Names : Type 0 where
  pub access_key : String
  pub secret_key : String
  pub tokens : List String
  pub method : String

-- The part that most providers share: None without an access key, and an error without a secret key.
unfoldable pub from_mapping : Names → Dict String → Result (Option Loaded)
unfolding has extract get_session_token
from_mapping names mapping =
    if has names.access_key mapping
    then (extract mapping names.access_key >>= λ access.
        extract mapping names.secret_key >>= λ secret. ok (
          some (
            fixed (record {
              access_key = access;
              secret_key = secret;
              token = get_session_token names.tokens mapping;
              method = names.method;
            }))))
    else ok none

abbrev pub env_names : Names
env_names = record {
  access_key = "JCS_ACCESS_KEY_ID";
  secret_key = "JCS_SECRET_ACCESS_KEY";
  tokens = "JCS_SECURITY_TOKEN" ∷ "JCS_SESSION_TOKEN" ∷ [];
  method = "env";
}

-- EnvProvider.load, with the class's own names
unfoldable pub env_load : Dict String → Result (Option Loaded)
unfolding from_mapping
env_load environ = from_mapping env_names environ

-- `except ConfigNotFound: return None`
abbrev pub unless_missing :
    {A : Type 0} → Result A → (A → Result (Option Loaded)) → Result (Option Loaded)
unless_missing (ok config) use_it = use_it config
unless_missing (raise e) use_it = if isinstance e "ConfigNotFound" then ok none else raise e

abbrev pub file_names : String → Names
file_names method = record {
  access_key = "jcs_access_key_id";
  secret_key = "jcs_secret_access_key";
  tokens = "jcs_security_token" ∷ "jcs_session_token" ∷ [];
  method = method;
}

abbrev in_profile : String → String → Profiles → Result (Option Loaded)
in_profile method profile profiles = elim (get profile profiles) [
  | none ↦ ok none
  | some config ↦ from_mapping (file_names method) config
]

-- SharedCredentialProvider.load
unfoldable pub shared_load : (String → Result Profiles) → String → String → Result (Option Loaded)
unfolding get isinstance from_mapping
shared_load ini_parser filename profile =
    unless_missing (ini_parser filename) (in_profile "shared-credentials-file" profile)

-- ConfigProvider.load
unfoldable pub config_load :
    (String → Result (Dict Profiles)) → String → String → Result (Option Loaded)
unfolding get isinstance from_mapping item
config_load config_parser filename profile =
    unless_missing (config_parser filename)
      (λ full. item "profiles" full >>= in_profile "config-file" profile)

-- OriginalEC2Provider.load, where a secret key that is missing is a KeyError
unfoldable pub original_ec2_load :
    (expanduser : String → String)
    → (String → Result (Dict String))
    → Dict String
    → Result (Option Loaded)
unfolding get has item
original_ec2_load expanduser parser environ = elim (get "JCS_CREDENTIAL_FILE" environ) [
  | none ↦ ok none
  | some path ↦ parser (expanduser path) >>= λ creds.
      if has "JCSSAccessKeyId" creds
      then (item "JCSSAccessKeyId" creds >>= λ access. item "JCSSecretKey" creds >>= λ secret. ok (
          some (
            fixed (record {
              access_key = access;
              secret_key = secret;
              token = none;
              method = "ec2-credentials-file";
            }))))
      else ok none
]

abbrev pub boto_names : Names
boto_names = record (file_names "boto-config") { tokens = [] }

abbrev boto_section : Profiles → Result (Option Loaded)
boto_section config = elim (get "Credentials" config) [
  | none ↦ ok none
  | some credentials ↦ from_mapping boto_names credentials
]

-- The loop of BotoProvider.load over the files.
unfoldable pub boto_load_from : (String → Result Profiles) → List String → Result (Option Loaded)
unfolding get isinstance from_mapping
boto_load_from ini_parser [] = ok none
boto_load_from ini_parser (filename ∷ filenames) =
    let rest = boto_load_from ini_parser filenames in
    unless_missing (ini_parser filename) boto_section >>= λ found. elim found [
      | none ↦ rest
      | some c ↦ ok (some c)
    ]

abbrev pub default_config_filenames : List String
default_config_filenames = "/etc/boto.cfg" ∷ "~/.boto" ∷ []

unfoldable pub boto_load : (String → Result Profiles) → Dict String → Result (Option Loaded)
unfolding get boto_load_from
boto_load ini_parser environ = elim (get "BOTO_CONFIG" environ) [
  | none ↦ boto_load_from ini_parser default_config_filenames
  | some filename ↦ boto_load_from ini_parser (filename ∷ [])
]

-- InstanceMetadataProvider.load; an empty answer counts as none. The message that it logs reads the
-- name of the role.
unfoldable pub metadata_load :
    (parse : String → Result ℕ) → Result (Dict String) → Result (Option Loaded)
unfolding create_from_metadata item
metadata_load parse fetched = fetched >>= λ metadata. elim metadata [
  | [] ↦ ok none
  | entry ∷ entries ↦ item "role_name" (entry ∷ entries) >>= λ role.
      create_from_metadata parse (entry ∷ entries) "iam-role" >>= λ c. ok (some (refreshable c))
]
