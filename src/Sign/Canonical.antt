-- ===== src/Sign/Canonical.antt =====
-- botocore/auth.py: the request that `SigV4Auth` sees, and the parts of the text that it signs which need no
-- hash: the query of the URL and the headers.
use Prim.Native.Char.{code}
use jcsapitest.Prelude.{String, Bool, false, ◌||◌, List, [], ◌∷◌, Dict, ◌==◌, str_eq, if◌then◌else◌}
use jcsapitest.Value.{Value}
use jcsapitest.Text.{concat, strip}
use jcsapitest.Text.Case.{lower}
use jcsapitest.Text.Sorted.{text_leb, sorted_texts}
use jcsapitest.Sign.Headers.{Headers, has_header, add_header, get_all}

-- request.body: nothing, a text, or a file with what is left to read of it
pub data Body : Type 0 where
  no_body : Body
  text file : String → Body

-- What a signer sees of an AWSRequest; the URL is split.
pub record Request : Type 0 where
  pub method : String
  pub netloc : String
  pub path : String
  pub query : String
  pub params : Dict Value
  pub headers : Headers
  pub body : Body
  pub timestamp : String

-- sep.join(parts)
unfoldable pub join_with : String → List String → String
unfolding concat
join_with sep [] = ""
join_with sep (p ∷ []) = p
join_with sep (p ∷ q ∷ ps) = concat p (concat sep (join_with sep (q ∷ ps)))

unfoldable pub has_text : String → List String → Bool
has_text t [] = false
has_text t (u ∷ us) = str_eq u t || has_text t us

-- set(names), each name once
unfoldable pub name_set : Headers → List String
unfolding has_text
name_set [] = []
name_set ((k, v) ∷ headers) =
    let rest = name_set headers in if has_text k rest then rest else k ∷ rest

-- (key, value) of a part of the query, by its first '='
unfoldable pub partition : String → String × String
partition String.[] = ("", "")
partition (String.◌∷◌ c s) =
    let rest = partition s in if code c == b'=' then ("", s) else (String.◌∷◌ c rest.0, rest.1)

-- query.split('&')
unfoldable pub split_amp : String → List String
split_amp String.[] = "" ∷ []
split_amp (String.◌∷◌ c s) = elim (split_amp s) [
  | [] ↦ []
  | p ∷ ps ↦ if code c == b'&' then "" ∷ p ∷ ps else String.◌∷◌ c p ∷ ps
]

-- The order of pairs: by the key, and for one key by the value
unfoldable pub pair_leb : String × String → String × String → Bool
unfolding text_leb
pair_leb p q = if str_eq p.0 q.0 then text_leb p.1 q.1 else text_leb p.0 q.0

unfoldable pub insert_pair : String × String → List (String × String) → List (String × String)
unfolding pair_leb
insert_pair p [] = p ∷ []
insert_pair p (q ∷ qs) =
    let rest = insert_pair p qs in if pair_leb p q then p ∷ q ∷ qs else q ∷ rest

unfoldable pub sorted_pairs : List String → List (String × String)
unfolding insert_pair partition
sorted_pairs [] = []
sorted_pairs (t ∷ ts) = insert_pair (partition t) (sorted_pairs ts)

unfoldable pub equations : List (String × String) → List String
unfolding concat
equations [] = []
equations ((k, v) ∷ pairs) = concat k (concat "=" v) ∷ equations pairs

-- _canonical_query_string_url
unfoldable pub canonical_query_string_url : String → String
unfolding equations sorted_pairs split_amp join_with
canonical_query_string_url query =
    if str_eq query "" then "" else join_with "&" (equations (sorted_pairs (split_amp query)))

unfoldable pub lower_names : Headers → Headers
unfolding lower
lower_names [] = []
lower_names ((k, v) ∷ headers) = (lower k, v) ∷ lower_names headers

-- headers_to_sign
unfoldable pub headers_to_sign : Request → Headers
unfolding lower_names has_header
headers_to_sign r =
    let signed = lower_names r.headers in
    if has_header "host" signed then signed else add_header "host" r.netloc signed

unfoldable pub stripped : List String → List String
unfolding strip
stripped [] = []
stripped (t ∷ ts) = strip t ∷ stripped ts

unfoldable pub header_lines : Headers → List String → List String
unfolding stripped sorted_texts get_all join_with concat
header_lines headers [] = []
header_lines headers (k ∷ ks) =
    concat k (concat ":" (join_with "," (stripped (sorted_texts (get_all k headers)))))
    ∷ header_lines headers ks

-- canonical_headers
unfoldable pub canonical_headers : Headers → String
unfolding header_lines sorted_texts name_set join_with
canonical_headers headers = join_with "\n" (header_lines headers (sorted_texts (name_set headers)))

unfoldable pub plain_names : List String → List String
unfolding lower strip
plain_names [] = []
plain_names (k ∷ ks) = strip (lower k) ∷ plain_names ks

-- signed_headers
unfoldable pub signed_headers : Headers → String
unfolding plain_names sorted_texts name_set join_with
signed_headers headers = join_with ";" (sorted_texts (plain_names (name_set headers)))
