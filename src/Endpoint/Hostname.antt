-- ===== src/Endpoint/Hostname.antt =====
-- botocore/utils.py: `is_valid_endpoint_url`. A host name is the list of its characters' codes; the
-- host name of a URL is that of the standard library's `urlsplit`, a parameter, which gives None for
-- a URL without one.
pub mod Labels
use jcsapitest.Prelude.{
  ℕ, ◌+◌, String, Bool, true, false, not, ◌&&◌, ◌||◌, Option, none, some, List, [], ◌∷◌, leb, ◌==◌,
  length, split_on, exception, Result, ok, raise, if◌then◌else◌,
}

-- [A-Z\d-] without regard to case
unfoldable pub is_allowed : ℕ → Bool
is_allowed c =
    leb b'A' c && leb c b'Z' || leb b'a' c && leb c b'z' || leb b'0' c && leb c b'9' || c == b'-'

-- `$` also matches in front of a newline that ends the text.
unfoldable pub at_end : List ℕ → Bool
at_end [] = true
at_end (c ∷ []) = c == 10
at_end (c ∷ d ∷ cs) = false

-- (?<!-)$ behind a run of {1,63} characters, of which `last` is the last.
abbrev pub run_ends : (last count : ℕ) → Bool
run_ends last count = leb 1 count && leb count 63 && not (last == b'-')

unfoldable pub match_from : (last count : ℕ) → List ℕ → Bool
unfolding at_end
match_from last count [] = run_ends last count
match_from last count (c ∷ cs) =
    let rest = match_from c (count + 1) cs in
    if is_allowed c then rest else at_end (c ∷ cs) && run_ends last count

abbrev pub starts_with_dash : List ℕ → Bool
starts_with_dash [] = false
starts_with_dash (c ∷ cs) = c == b'-'

-- allowed.match(x)
unfoldable pub label_matches : List ℕ → Bool
unfolding match_from
label_matches cs = not (starts_with_dash cs) && match_from 0 0 cs

unfoldable pub all_match : List (List ℕ) → Bool
unfolding label_matches
all_match [] = true
all_match (l ∷ ls) = label_matches l && all_match ls

-- One dot at the end is dropped.
unfoldable pub drop_last_dot : List ℕ → List ℕ
drop_last_dot [] = []
drop_last_dot (c ∷ []) = if c == b'.' then [] else c ∷ []
drop_last_dot (c ∷ d ∷ cs) = c ∷ drop_last_dot (d ∷ cs)

-- From the length test on, for a host name that is not empty.
unfoldable pub is_valid_hostname : List ℕ → Bool
unfolding all_match drop_last_dot split_on
is_valid_hostname host = leb (length host) 255 && all_match (split_on b'.' (drop_last_dot host))

-- hostname[-1] fails for an empty host name, as that of "http://:80".
unfoldable pub is_valid_endpoint_url : (String → Option (List ℕ)) → String → Result Bool
unfolding is_valid_hostname
is_valid_endpoint_url hostname url = elim (hostname url) [
  | none ↦ ok false
  | some [] ↦ raise (exception "IndexError" "string index out of range")
  | some (c ∷ cs) ↦ ok (is_valid_hostname (c ∷ cs))
]
