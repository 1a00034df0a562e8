-- ===== src/Endpoint/Create.antt =====
-- botocore/endpoint.py: `EndpointCreator`. The endpoint object is the record of what it was built
-- from; `verify` is None, or the user's value.
pub mod Region
use jcsapitest.Prelude.{
  ℕ, String, Bool, true, false, Option, none, some, List, [], ◌∷◌, if◌then◌else◌, Exception,
  isinstance, value_error, Result, ok, raise, ◌>>=◌,
}
use jcsapitest.Endpoint.Regions.{Rules, Found, construct_endpoint}
use jcsapitest.Endpoint.Hostname.{is_valid_endpoint_url}

pub record EndpointCreator : Type 0 where
  pub endpoint_resolver : Rules
  pub configured_region : Option String

pub record Endpoint : Type 0 where
  pub region_name : Option String
  pub host : String

-- region_name = self._configured_region, if none is given
unfoldable pub choose_region : Option String → Option String → Option String
choose_region none configured = configured
choose_region (some region) configured = some region

unfoldable pub determine_region_name : Found → Option String → Option String → Option String
determine_region_name found region endpoint_url =
    let override : Option String = elim endpoint_url [
      | some url ↦ elim region [ some r ↦ none | none ↦ found.scope_region ]
      | none ↦ found.scope_region
    ] in
    elim override [ some r ↦ some r | none ↦ region ]

-- The `try` around the resolver: the user's URL stands in where no rule matched.
unfoldable pub resolve : Option String → Result Found → Result Found
unfolding isinstance
resolve endpoint_url (ok found) = ok found
resolve endpoint_url (raise e) =
    if isinstance e "BaseEndpointResolverError"
    then elim endpoint_url [
      | some url ↦ ok (record { uri = url; scope_region = none })
      | none ↦ raise e
    ]
    else raise e

abbrev pub final_url : Option String → Found → String
final_url none found = found.uri
final_url (some url) found = url

abbrev pub scheme : Bool → String
scheme true = "https"
scheme false = "http"

-- `hostname` is that of `urlsplit`.
module _ (hostname : String → Option (List ℕ)) where
  unfoldable pub finish_endpoint : Option String → Option String → Found → Result Endpoint
  unfolding determine_region_name
  finish_endpoint region endpoint_url found =
      is_valid_endpoint_url hostname (final_url endpoint_url found) >>= λ valid.
      if valid
      then ok (record {
        region_name = determine_region_name found region endpoint_url;
        host = final_url endpoint_url found;
      })
      else raise (value_error "Invalid endpoint")

  unfoldable pub after_resolve : Option String → Option String → Result Found → Result Endpoint
  unfolding finish_endpoint
  after_resolve region endpoint_url (ok found) = finish_endpoint region endpoint_url found
  after_resolve region endpoint_url (raise e) = raise e

  unfoldable pub create_endpoint :
      EndpointCreator
      → (endpoint_prefix : String) → (region_name : Option String) → (is_secure : Bool)
      → (endpoint_url : Option String) → Result Endpoint
  unfolding choose_region resolve after_resolve
  create_endpoint c prefix region secure endpoint_url =
      let chosen = choose_region region c.configured_region in
      after_resolve chosen endpoint_url (
        resolve endpoint_url (
          construct_endpoint c.endpoint_resolver prefix chosen
            (("scheme", some (scheme secure)) ∷ [])))
