-- ===== src/Utils/Path.antt =====
-- botocore/utils.py: `normalize_url_path` and `remove_dot_segments`. A path is the list of its characters'
-- codes, `output` has its last segment first, and the loop runs on fuel: none is a loop cut short.
pub mod Normal
pub mod Rounds
pub mod Idempotent
use jcsapitest.Prelude.{
  ℕ, zero, suc, Bool, true, false, ◌&&◌, Option, none, some, List, [], ◌∷◌, ◌++◌, ◌==◌, length,
  drop, if◌then◌else◌,
}

abbrev pub slash : ℕ
slash = b'/'

abbrev pub dot : ℕ
dot = b'.'

abbrev pub Text : Type 0
Text = List ℕ

-- url.startswith(prefix)
unfoldable pub starts_with : Text → Text → Bool
starts_with [] url = true
starts_with (c ∷ prefix) [] = false
starts_with (c ∷ prefix) (d ∷ url) = c == d && starts_with prefix url

-- url == '.' or url == '..'
unfoldable pub is_dots : Text → Bool
is_dots (c ∷ []) = c == dot
is_dots (c ∷ d ∷ []) = c == dot && d == dot
is_dots url = false

-- What stands in front of the next slash, and from it on.
unfoldable pub before_slash : Text → Text
before_slash [] = []
before_slash (c ∷ cs) = let rest = before_slash cs in if c == slash then [] else c ∷ rest

unfoldable pub from_slash : Text → Text
from_slash [] = []
from_slash (c ∷ cs) = let rest = from_slash cs in if c == slash then c ∷ cs else rest

-- output.pop(), if there is something
abbrev pub pop : List Text → List Text
pop [] = []
pop (segment ∷ output) = output

-- The first character belongs to the segment, be it a slash or not.
unfoldable pub push_segment : Text → List Text → Text × List Text
unfolding before_slash from_slash
push_segment [] output = ([], output)
push_segment (c ∷ cs) output = (from_slash cs, (c ∷ before_slash cs) ∷ output)

-- One round of the loop
unfoldable pub step : Text → List Text → Text × List Text
unfolding starts_with is_dots push_segment
step url output =
    if starts_with (dot ∷ dot ∷ slash ∷ []) url
    then (drop 3 url, output)
    else if starts_with (dot ∷ slash ∷ []) url
    then (drop 2 url, output)
    else if starts_with (slash ∷ dot ∷ slash ∷ []) url
    then (slash ∷ drop 3 url, output)
    else if starts_with (slash ∷ dot ∷ dot ∷ slash ∷ []) url
    then (slash ∷ drop 4 url, pop output)
    else if starts_with (slash ∷ dot ∷ dot ∷ []) url
    then (slash ∷ drop 3 url, pop output)
    else if starts_with (slash ∷ dot ∷ []) url
    then (slash ∷ drop 2 url, output)
    else if is_dots url
    then ([], output)
    else if starts_with (slash ∷ slash ∷ []) url
    then (drop 1 url, output)
    else push_segment url output

-- ''.join(output)
unfoldable pub join_output : List Text → Text
join_output [] = []
join_output (segment ∷ output) = join_output output ++ segment

unfoldable pub loop : ℕ → Text → List Text → Option Text
unfolding step join_output
loop fuel [] output = some (join_output output)
loop zero (c ∷ cs) output = none
loop (suc fuel) (c ∷ cs) output = let next = step (c ∷ cs) output in loop fuel next.0 next.1

-- Each round shortens the path.
unfoldable pub remove_dot_segments : Text → Option Text
unfolding loop
remove_dot_segments url = loop (length url) url []

unfoldable pub normalize_url_path : Text → Option Text
unfolding remove_dot_segments
normalize_url_path [] = some (slash ∷ [])
normalize_url_path (c ∷ cs) = remove_dot_segments (c ∷ cs)
