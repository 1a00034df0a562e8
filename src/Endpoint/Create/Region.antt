-- ===== src/Endpoint/Create/Region.antt =====
-- The endpoints that `EndpointCreator` of botocore/endpoint.py makes.
use jcsapitest.Prelude.{
  ℕ, String, ◌≡◌, ◌≢◌, refl, Bool, true, Option, none, some, List, [], ◌∷◌, arith, Exception,
  isinstance, Result, ok, raise,
}
use jcsapitest.Endpoint.Regions.{
  Found, construct_endpoint, not_found, get_rules_for_service, fold_in, Kwargs,
}
use jcsapitest.Endpoint.Regions.First.{NoneMatches, construct_endpoint-not_found}
use jcsapitest.Endpoint.Hostname.{is_valid_endpoint_url}
use jcsapitest.Endpoint.Create.{
  EndpointCreator, Endpoint, choose_region, determine_region_name, resolve, finish_endpoint,
  after_resolve, create_endpoint, scheme,
}

-- With a URL of the user a region that is known is kept,
region_kept :
    (found : Found) (region : Option String) (url : String)
    → region ≢ none
    → determine_region_name found region (some url) ≡ region
unfolding determine_region_name
region_kept found none url h = absurd (h refl)
region_kept found (some r) url h = refl

-- and none is made up.
region_fresh :
    (region : Option String) (url : String)
    → determine_region_name (record { uri = url; scope_region = none }) region (some url) ≡ region
unfolding determine_region_name
region_fresh none url = refl
region_fresh (some r) url = refl

module _ (hostname : String → Option (List ℕ)) (chosen : Option String) (url : String) where
  after_resolve-url :
      (r : Result Found) (endpoint : Endpoint)
      → after_resolve hostname chosen (some url) r ≡ ok endpoint
      → (endpoint.host ≡ url) × (chosen ≢ none → endpoint.region_name ≡ chosen)
  unfolding finish_endpoint after_resolve
  after_resolve-url (raise e) endpoint h = cc
  after_resolve-url (ok found) endpoint h =
      (ground arith, λ given. ground (arith, region_kept found chosen url given))

  -- A resolver that finds nothing does no harm.
  resolve-url :
      (r : Result Found) (e : Exception)
      → r ≡ raise e
      → isinstance e "BaseEndpointResolverError" ≡ true
      → resolve (some url) r ≡ ok (record { uri = url; scope_region = none })
  unfolding resolve
  resolve-url r e h i = rw (h, resolve) (ground arith)

not_found-resolver :
    (service : String) (region : Option String)
    → isinstance (not_found service region) "BaseEndpointResolverError" ≡ true
unfolding isinstance
not_found-resolver service none = refl
not_found-resolver service (some r) = refl

module _ (hostname : String → Option (List ℕ)) (c : EndpointCreator) (prefix : String)
    (region : Option String) (secure : Bool) where
  abbrev pub chosen : Option String
  chosen = choose_region region c.configured_region

  abbrev pub options : Kwargs
  options = ("scheme", some (scheme secure)) ∷ []

  -- An endpoint that is made for a URL of the user has that URL as its host, whatever the rules say,
  -- and, where a region is given or configured, that region.
  pub create_endpoint-url :
      (url : String) (endpoint : Endpoint)
      → create_endpoint hostname c prefix region secure (some url) ≡ ok endpoint
      → (endpoint.host ≡ url) × (chosen ≢ none → endpoint.region_name ≡ chosen)
  unfolding create_endpoint
  create_endpoint-url url endpoint h =
      after_resolve-url hostname chosen url
        (resolve (some url) (construct_endpoint c.endpoint_resolver prefix chosen options)) endpoint
        h

  -- Where no rule matches, a valid URL of the user still gives an endpoint, with the chosen region.
  pub create_endpoint-unmatched :
      (url : String)
      → NoneMatches
          (fold_in prefix chosen options)
          (get_rules_for_service c.endpoint_resolver prefix)
      → NoneMatches
          (fold_in prefix chosen options)
          (get_rules_for_service c.endpoint_resolver "_default")
      → is_valid_endpoint_url hostname url ≡ ok true
      → create_endpoint hostname c prefix region secure (some url)
        ≡ ok (record { region_name = chosen; host = url })
  unfolding create_endpoint finish_endpoint after_resolve
  create_endpoint-unmatched url own default valid =
      let missing =
        construct_endpoint-not_found c.endpoint_resolver prefix chosen options own default in
      let found =
        resolve-url hostname chosen url
          (construct_endpoint c.endpoint_resolver prefix chosen options) (not_found prefix chosen)
          missing (not_found-resolver prefix chosen) in
      rw (found) (rw (valid, region_fresh chosen url))
