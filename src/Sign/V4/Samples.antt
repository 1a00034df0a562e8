-- ===== src/Sign/V4/Samples.antt =====
-- A request to list buckets that is signed by version 4, and signed again.
use jcsapitest.Prelude.{◌≡◌, refl, String, some, [], ◌∷◌, Result}
use jcsapitest.Text.{concat}
use jcsapitest.Sign.Canonical.{no_body, Request, canonical_query_string_url}
use jcsapitest.Sign.V4.{
  v4, no_body, Signer, Request, Library, add_auth, canonical_query_string_url, prepared,
}
use jcsapitest.Sign.V4.Retry.{add_auth-add_auth}

-- Stand-ins for hashes and quoting
abbrev lib : Library
lib = record {
  quote = λ t. t;
  quote_path = λ p. "/quoted";
  str = λ v. "value";
  sha256_hex = λ t. "sum";
  hmac_digest = λ k t. k;
  hmac_hex = λ k t. "mac";
  formatdate = λ t. t;
}

abbrev signer : Signer
signer = record {
  variant = v4;
  credentials = record { access_key = "AK"; secret_key = "SK"; token = "TK" };
  region_name = "east";
  service_name = "s3";
}

abbrev listing : Request
listing = record {
  method = "get";
  netloc = "host";
  path = "/a";
  query = "b=2&a=1&b=1";
  params = [];
  headers = ("Accept", "x") ∷ [];
  body = no_body;
  timestamp = "";
}

program : Unit {0}
unfolding add_auth canonical_query_string_url prepared concat
program = tt

query-sorted : canonical_query_string_url "b=2&a=1&b=1" ≡ "a=1&b=1&b=2"
unfolding program
query-sorted = refl

headers-set :
    (prepared lib signer "20150101T000000Z" listing).headers
    ≡ ("Accept", "x") ∷ ("X-Amz-Date", "20150101T000000Z") ∷ ("X-Amz-Security-Token", "TK") ∷ []
unfolding program
headers-set = refl

abbrev sign_at : String → Request → Result Request
sign_at timestamp r = add_auth lib (some signer) timestamp r

abbrev signed_listing : Request
signed_listing = record listing {
  headers =
      ("Accept", "x")
      ∷ ("X-Amz-Date", "20150101T000000Z")
      ∷ ("X-Amz-Security-Token", "TK")
      ∷ (
        "Authorization",
        "AWS4-HMAC-SHA256 Credential=AK/20150101/east/s3/aws4_request, SignedHeaders=accept;host;x-amz-date;x-amz-security-token, Signature=mac",
      )
      ∷ [];
  timestamp = "20150101T000000Z";
}

add_auth-add_auth_example :
    sign_at "20150102T000000Z" signed_listing ≡ sign_at "20150102T000000Z" listing
unfolding program
add_auth-add_auth_example =
    add_auth-add_auth lib signer "20150101T000000Z" "20150102T000000Z" listing signed_listing refl
