-- ===== src/Sign.antt =====
-- botocore/auth.py: `SigV2Auth`. The standard library's hmac, base64, quote and urlsplit, and the text of a
-- value, are parameters. Keys are sorted by their characters' codes.
pub mod Order
pub mod Headers
pub mod Canonical
pub mod V4
pub mod Samples
use jcsapitest.Prelude.{
  String, Bool, true, false, Option, none, some, List, [], ◌∷◌, Dict, put, ◌==◌, ltb, str_eq,
  if◌then◌else◌, exception, Result, ok, raise,
}
use jcsapitest.Value.{Value, str}
use jcsapitest.Text.{concat}
use jcsapitest.Text.Sorted.{text_leb}

abbrev pub Entry : Type 0
Entry = String × Value

unfoldable pub insert : Entry → List Entry → List Entry
unfolding text_leb
insert p [] = p ∷ []
insert p (q ∷ ps) = let rest = insert p ps in if text_leb p.0 q.0 then p ∷ q ∷ ps else q ∷ rest

-- sorted(params), with the values
unfoldable pub sorted : List Entry → List Entry
unfolding insert
sorted [] = []
sorted (p ∷ ps) = insert p (sorted ps)

-- '&'.join(pairs)
unfoldable pub join_pairs : List String → String
unfolding concat
join_pairs [] = ""
join_pairs (p ∷ []) = p
join_pairs (p ∷ q ∷ ps) = concat p (concat "&" (join_pairs (q ∷ ps)))

pub record Credentials : Type 0 where
  pub access_key : String
  pub secret_key : String
  pub token : String

-- The parts of request.url and the method
pub record Target : Type 0 where
  pub method : String
  pub netloc : String
  pub path : String

module _ (quote_key quote_value : String → String) (text_type : Value → String)
    (hmac_sha256 : String → String → String) where
  -- The loop over the sorted keys; an earlier signature is skipped.
  unfoldable pub pairs : List Entry → List String
  unfolding concat
  pairs [] = []
  pairs ((key, value) ∷ ps) =
      let rest = pairs ps in
      if str_eq key "Signature"
      then rest
      else concat (quote_key key) (concat "=" (quote_value (text_type value))) ∷ rest

  abbrev pub path_of : Target → String
  path_of t = if str_eq t.path "" then "/" else t.path

  unfoldable pub string_to_sign : Target → String → String
  unfolding concat
  string_to_sign t qs =
      concat t.method
        (concat "\n" (concat t.netloc (concat "\n" (concat (path_of t) (concat "\n" qs)))))

  -- calc_signature
  unfoldable pub calc_signature : Credentials → Target → Dict Value → String × String
  unfolding sorted pairs join_pairs string_to_sign
  calc_signature credentials t params =
      let qs = join_pairs (pairs (sorted params)) in
      (qs, hmac_sha256 credentials.secret_key (string_to_sign t qs))

  abbrev pub with_token : String → Dict Value → Dict Value
  with_token token params =
      if str_eq token "" then params else put "SecurityToken" (str token) params

  -- What add_auth sets before it signs
  unfoldable pub auth_params : Credentials → String → Dict Value → Dict Value
  unfolding put
  auth_params credentials timestamp params = with_token credentials.token (
      put "Timestamp" (str timestamp) (
        put "SignatureMethod" (str "HmacSHA256") (
          put "SignatureVersion" (str "2")
            (put "JCSAccessKeyId" (str credentials.access_key) params))))

  -- add_auth, for the parameters in request.data
  unfoldable pub add_auth : Option Credentials → String → Target → Dict Value → Result (Dict Value)
  unfolding auth_params calc_signature put
  add_auth none timestamp t params =
      raise (exception "NoCredentialsError" "Unable to locate credentials")
  add_auth (some credentials) timestamp t params =
      let signed = auth_params credentials timestamp params in
      ok (put "Signature" (str (calc_signature credentials t signed).1) signed)
