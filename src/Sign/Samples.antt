-- ===== src/Sign/Samples.antt =====
-- A request that botocore/auth.py signs, with stand-ins for the hash and the quoting.
use jcsapitest.Prelude.{String, ◌≡◌, refl, some, [], ◌∷◌, arith, eq_iff, ok}
use jcsapitest.Value.{Value, str}
use jcsapitest.Text.{concat}
use jcsapitest.Sign.{Credentials, Target, calc_signature, add_auth}
use jcsapitest.Sign.Order.{Reorders, swap, calc_signature-Reorders}

abbrev quote : String → String
quote s = s

abbrev text_type : Value → String
text_type (str s) = s
text_type v = "?"

abbrev hmac_sha256 : String → String → String
hmac_sha256 key text = concat key text

abbrev credentials : Credentials
credentials = record { access_key = "AK"; secret_key = "SK"; token = "" }

abbrev target : Target
target = record { method = "POST"; netloc = "compute.ind-west-1.jiocloudservices.com"; path = "" }

program : Unit {0}
unfolding calc_signature add_auth concat
program = tt

signature-sorted :
    calc_signature quote quote text_type
      (λ key text. key)
      credentials
      target
      (("Version", str "1") ∷ ("Signature", str "old") ∷ ("Action", str "Run") ∷ [])
    ≡ ("Action=Run&Version=1", "SK")
unfolding program
signature-sorted = refl

add_auth-signed :
    add_auth quote quote text_type
      (λ key text. key)
      (some credentials)
      "2015-01-01T00:00:00Z"
      target
      (("Action", str "Run") ∷ [])
    ≡ ok (
        ("Action", str "Run")
        ∷ ("JCSAccessKeyId", str "AK")
        ∷ ("SignatureVersion", str "2")
        ∷ ("SignatureMethod", str "HmacSHA256")
        ∷ ("Timestamp", str "2015-01-01T00:00:00Z")
        ∷ ("Signature", str "SK")
        ∷ [])
unfolding program
add_auth-signed = refl

swapped :
    Reorders
      (("Version", str "1") ∷ ("Action", str "Run") ∷ [])
      (("Action", str "Run") ∷ ("Version", str "1") ∷ [])
swapped =
    swap ("Version", str "1") ("Action", str "Run") (ground (arith, eq_iff "Version" "Action"))

calc_signature-Reorders_example :
    calc_signature quote quote text_type hmac_sha256 credentials target
      (("Version", str "1") ∷ ("Action", str "Run") ∷ [])
    ≡ calc_signature quote quote text_type hmac_sha256 credentials target
        (("Action", str "Run") ∷ ("Version", str "1") ∷ [])
calc_signature-Reorders_example =
    calc_signature-Reorders quote quote text_type hmac_sha256 credentials target
      (("Version", str "1") ∷ ("Action", str "Run") ∷ [])
      (("Action", str "Run") ∷ ("Version", str "1") ∷ []) swapped
