-- ===== src/Credentials/Resolver/Default.antt =====
-- What the default chain of botocore/credentials.py does with the environment.
use jcsapitest.Prelude.{
  refl, String, ◌≡◌, ◌≢◌, ◌∙◌, none, some, [], arith, get, has, Dict, ok, raise, inl, inr,
  Result-cases, ◌>>=◌, >>=-congr,
}
use jcsapitest.Credentials.Providers.{
  fixed, env_names, env_load, from_mapping, get_session_token, extract, partial_credentials_error,
}
use jcsapitest.Credentials.Resolver.{
  Surroundings, session_variables, providers_of, create_credential_resolver, get_credentials,
  other_providers,
}
use jcsapitest.Credentials.Resolver.Chain.{load_credentials-append}

-- Without a profile the environment's answer stands, unless it is None, if the session's variables can be read.
env_decides :
    (s : Surroundings)
    → s.profile ≡ none
    → env_load s.environ ≢ ok none
    → get_credentials s ≡ (session_variables s >>= λ v. env_load s.environ)
unfolding get_credentials create_credential_resolver providers_of
env_decides s no_profile found = elim (Result-cases (session_variables s)) [
  | inl (e, failed) ↦ rw (failed) refl
  | inr (v, read) ↦
      rw (read, no_profile)
        (load_credentials-append [] (other_providers s v)
          (record { method = "env"; load = env_load s.environ }) tt found)
]

env_load-both :
    (environ : Dict String) (access secret : String)
    → get "JCS_ACCESS_KEY_ID" environ ≡ some access
    → get "JCS_SECRET_ACCESS_KEY" environ ≡ some secret
    → env_load environ
      ≡ ok (
          some (
            fixed (record {
              access_key = access;
              secret_key = secret;
              token = get_session_token env_names.tokens environ;
              method = "env";
            })))
unfolding env_load from_mapping extract has
env_load-both environ access secret h k = ground arith

env_load_partial :
    (environ : Dict String) (access : String)
    → get "JCS_ACCESS_KEY_ID" environ ≡ some access
    → get "JCS_SECRET_ACCESS_KEY" environ ≡ none
    → env_load environ ≡ raise (partial_credentials_error "JCS_SECRET_ACCESS_KEY")
unfolding env_load from_mapping extract has
env_load_partial environ access h k = ground arith

-- If the session has no profile and the environment has both keys, then the call raises what the reading of
-- one of the session's variables raises, and if all of them can be read, then the credentials are those of
-- the environment, whatever the credential files and the metadata service say.
pub get_credentials-environ :
    (s : Surroundings) (access secret : String)
    → s.profile ≡ none
    → get "JCS_ACCESS_KEY_ID" s.environ ≡ some access
    → get "JCS_SECRET_ACCESS_KEY" s.environ ≡ some secret
    → get_credentials s ≡ (
        session_variables s >>= λ v. ok (
          some (
            fixed (record {
              access_key = access;
              secret_key = secret;
              token = get_session_token env_names.tokens s.environ;
              method = "env";
            }))))
get_credentials-environ s access secret no_profile has_access has_secret =
    let answer = env_load-both s.environ access secret has_access has_secret in
    env_decides s no_profile (λ h. cc) ∙ >>=-congr (session_variables s) _ _ (λ v. answer)

-- If the session has no profile and the environment has the access key alone, then the call raises, also where
-- a later place has complete credentials: what the reading of one of the session's variables raises, and if
-- all of them can be read, the error that names the secret key.
pub get_credentials_partial :
    (s : Surroundings) (access : String)
    → s.profile ≡ none
    → get "JCS_ACCESS_KEY_ID" s.environ ≡ some access
    → get "JCS_SECRET_ACCESS_KEY" s.environ ≡ none
    → get_credentials s
      ≡ (session_variables s >>= λ v. raise (partial_credentials_error "JCS_SECRET_ACCESS_KEY"))
get_credentials_partial s access no_profile has_access no_secret =
    let answer = env_load_partial s.environ access has_access no_secret in
    env_decides s no_profile (λ h. cc) ∙ >>=-congr (session_variables s) _ _ (λ v. answer)
