-- ===== src/Sign/Headers.antt =====
-- botocore/compat.py: `HTTPHeaders`, the headers of a request in their order. A name is found in whatever
-- case it is written; an assignment adds a header and replaces none.
pub mod Removal
use jcsapitest.Prelude.{
  String, Bool, false, ◌||◌, Option, none, some, List, [], ◌∷◌, ◌++◌, Dict, str_eq, if◌then◌else◌,
}
use jcsapitest.Text.Case.{lower}

abbrev pub Headers : Type 0
Headers = Dict String

-- Whether a header has that name, which is in lower case
abbrev pub is_named : String → String → Bool
is_named name k = str_eq (lower k) name

-- name in headers
unfoldable pub has_header : String → Headers → Bool
unfolding lower
has_header name [] = false
has_header name ((k, v) ∷ headers) = is_named name k || has_header name headers

-- del headers[name], which removes every header of the name
unfoldable pub remove_header : String → Headers → Headers
unfolding lower
remove_header name [] = []
remove_header name ((k, v) ∷ headers) =
    let rest = remove_header name headers in if is_named name k then rest else (k, v) ∷ rest

-- headers[k] = v
abbrev pub add_header : String → String → Headers → Headers
add_header k v headers = headers ++ (k, v) ∷ []

-- headers.get(name)
unfoldable pub get_header : String → Headers → Option String
unfolding lower
get_header name [] = none
get_header name ((k, v) ∷ headers) = if is_named name k then some v else get_header name headers

-- headers.get_all(name)
unfoldable pub get_all : String → Headers → List String
unfolding lower
get_all name [] = []
get_all name ((k, v) ∷ headers) =
    let rest = get_all name headers in if is_named name k then v ∷ rest else rest
