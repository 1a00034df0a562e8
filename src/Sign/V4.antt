-- ===== src/Sign/V4.antt =====
-- botocore/auth.py: `SigV4Auth` and `S3SigV4Auth`. The standard library's hmac, sha256, quote and urlsplit,
-- str of a value and the dates of e-mail are parameters. The path of a URL starts with a slash or is empty, so that the
-- loop of normalize_url_path ends.
pub mod Retry
pub mod Samples
use Prim.Native.Char.{code}
use jcsapitest.Prelude.{
  ℕ, String, Bool, true, false, not, ◌&&◌, ◌||◌, Option, none, some, List, [], ◌∷◌, ◌++◌, Dict,
  ◌==◌, str_eq, if◌then◌else◌, exception, Result, ok, raise,
}
use jcsapitest.Value.{Value}
use jcsapitest.Text.{concat, strip}
use jcsapitest.Text.Case.{lower, upper}
use jcsapitest.Utils.Path.{normalize_url_path}
use jcsapitest.Text.Sorted.{text_leb, insert_text, sorted_texts}
use jcsapitest.Sign.{Entry, Credentials, sorted, join_pairs}
use jcsapitest.Sign.Canonical.{
  Body, no_body, text, file, Request, join_with, name_set, canonical_query_string_url,
  headers_to_sign, canonical_headers, signed_headers,
}
use jcsapitest.Sign.Headers.{Headers, has_header, remove_header, add_header, get_header, get_all}

-- timestamp[0:8]
unfoldable pub first_eight : ℕ → String → String
first_eight ℕ.zero s = ""
first_eight (ℕ.suc n) String.[] = ""
first_eight (ℕ.suc n) (String.◌∷◌ c s) = String.◌∷◌ c (first_eight n s)

unfoldable pub codes : String → List ℕ
codes String.[] = []
codes (String.◌∷◌ c s) = code c ∷ codes s

-- The class: S3 signs the path as it is and a header with the checksum of the body.
pub data Variant : Type 0 where
  v4 s3 : Variant

pub record Signer : Type 0 where
  pub variant : Variant
  pub credentials : Credentials
  pub region_name : String
  pub service_name : String

abbrev pub empty_sha256_hash : String
empty_sha256_hash = "e3b0c44298fc1c149afbf4c8996fb92427ae41e4649b934ca495991b7852b855"

-- What the standard library computes
pub record Library : Type 0 where
  pub quote : String → String
  pub quote_path : List ℕ → String
  pub str : Value → String
  pub sha256_hex : String → String
  pub hmac_digest : String → String → String
  pub hmac_hex : String → String → String
  pub formatdate : String → String

module _ (lib : Library) where
  open lib use {quote, quote_path, str, sha256_hex, hmac_digest, hmac_hex, formatdate}

  unfoldable pub quoted : List Entry → List String
  unfolding concat
  quoted [] = []
  quoted ((k, v) ∷ params) = concat (quote k) (concat "=" (quote (str v))) ∷ quoted params

  -- canonical_query_string
  unfoldable pub canonical_query_string : Request → String
  unfolding quoted sorted join_with canonical_query_string_url
  canonical_query_string r = elim r.params [
    | [] ↦ canonical_query_string_url r.query
    | p ∷ ps ↦ join_with "&" (quoted (sorted (p ∷ ps)))
  ]

  -- payload
  unfoldable pub payload : Body → String
  payload no_body = empty_sha256_hash
  payload (file rest) = sha256_hex rest
  payload (text t) = if str_eq t "" then empty_sha256_hash else sha256_hex t

  -- _normalize_url_path
  unfoldable pub signed_path : Variant → String → String
  unfolding normalize_url_path codes
  signed_path s3 path = path
  signed_path v4 path = elim (normalize_url_path (codes path)) [ none ↦ "" | some p ↦ quote_path p ]

  abbrev pub checksum : Request → String
  checksum r = elim (get_header "x-amz-content-sha256" r.headers) [
    | none ↦ payload r.body
    | some sum ↦ sum
  ]

  -- canonical_request
  unfoldable pub canonical_request : Variant → Request → String
  unfolding upper signed_path canonical_query_string headers_to_sign canonical_headers
      signed_headers get_header payload join_with concat
  canonical_request variant r = join_with "\n" (
      upper r.method
      ∷ signed_path variant r.path
      ∷ canonical_query_string r
      ∷ concat (canonical_headers (headers_to_sign r)) "\n"
      ∷ signed_headers (headers_to_sign r)
      ∷ checksum r
      ∷ [])

  -- credential_scope
  unfoldable pub credential_scope : Signer → Request → String
  unfolding first_eight join_with
  credential_scope s r =
      join_with "/"
        (first_eight 8 r.timestamp ∷ s.region_name ∷ s.service_name ∷ "aws4_request" ∷ [])

  -- string_to_sign
  unfoldable pub string_to_sign : Signer → Request → String → String
  unfolding credential_scope join_with
  string_to_sign s r canonical =
      join_with "\n"
        ("AWS4-HMAC-SHA256" ∷ r.timestamp ∷ credential_scope s r ∷ sha256_hex canonical ∷ [])

  -- signature
  unfoldable pub signature : Signer → Request → String → String
  unfolding first_eight concat
  signature s r to_sign =
      let k_date =
        hmac_digest (concat "AWS4" s.credentials.secret_key) (first_eight 8 r.timestamp) in
      let k_region = hmac_digest k_date s.region_name in
      let k_service = hmac_digest k_region s.service_name in
      hmac_hex (hmac_digest k_service "aws4_request") to_sign

  -- _set_necessary_date_headers
  unfoldable pub set_necessary_date_headers : String → Headers → Headers
  unfolding has_header remove_header
  set_necessary_date_headers timestamp headers =
      if has_header "date" headers
      then remove_header "x-amz-date"
          (add_header "Date" (formatdate timestamp) (remove_header "date" headers))
      else add_header "X-Amz-Date" timestamp (remove_header "x-amz-date" headers)

  abbrev pub set_token : String → Headers → Headers
  set_token token headers =
      if str_eq token ""
      then headers
      else add_header "X-Amz-Security-Token" token (remove_header "x-amz-security-token" headers)

  abbrev pub set_checksum : Variant → Body → Headers → Headers
  set_checksum v4 body headers = headers
  set_checksum s3 body headers =
      add_header "X-Amz-Content-SHA256" (payload body)
        (remove_header "x-amz-content-sha256" headers)

  -- _modify_request_before_signing
  unfoldable pub modify_request_before_signing : Signer → String → Body → Headers → Headers
  unfolding remove_header set_necessary_date_headers payload
  modify_request_before_signing s timestamp body headers = set_checksum s.variant body (
      set_token s.credentials.token
        (set_necessary_date_headers timestamp (remove_header "authorization" headers)))

  -- scope, and the header of _inject_signature_to_request
  unfoldable pub authorization : Signer → Request → String → String
  unfolding concat credential_scope headers_to_sign signed_headers join_with
  authorization s r signed = join_with ", " (
      concat "AWS4-HMAC-SHA256 Credential="
        (concat s.credentials.access_key (concat "/" (credential_scope s r)))
      ∷ concat "SignedHeaders=" (signed_headers (headers_to_sign r))
      ∷ concat "Signature=" signed
      ∷ [])

  -- What is signed, with the headers that are set before
  unfoldable pub prepared : Signer → String → Request → Request
  unfolding modify_request_before_signing
  prepared s timestamp r = record r {
    headers = modify_request_before_signing s timestamp r.body r.headers;
    timestamp = timestamp;
  }

  -- add_auth at a time
  unfoldable pub add_auth : Option Signer → String → Request → Result Request
  unfolding prepared canonical_request string_to_sign signature authorization
  add_auth none timestamp r = raise (exception "NoCredentialsError" "Unable to locate credentials")
  add_auth (some s) timestamp r =
      let ready = prepared s timestamp r in
      let signed = signature s ready (string_to_sign s ready (canonical_request s.variant ready)) in
      ok (record ready {
        headers = add_header "Authorization" (authorization s ready signed) ready.headers;
      })
