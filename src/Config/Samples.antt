-- ===== src/Config/Samples.antt =====
-- Two configuration files, as botocore/config.py reads them.
use jcsapitest.Prelude.{
  ◌≡◌, refl, String, Bool, true, Option, some, List, [], ◌∷◌, Dict, get, str_eq, if◌then◌else◌,
  Result, ok,
}
use jcsapitest.Value.{str, dict, field, end}
use jcsapitest.Config.{
  Config, splitlines, raw_config_parse, load_all, multi_file_load_config, sections_of, profiles_of,
  build_profile_map,
}
use jcsapitest.Config.Merge.{first_of, get-multi_file_load_config}

-- shlex.split for the names of this sample
abbrev words : String → Option (List String)
words key = if str_eq key "profile a" then some ("profile" ∷ "a" ∷ []) else some (key ∷ [])

abbrev isfile : String → Bool
isfile path = if str_eq path "missing" then str_eq path "" else true

abbrev same : String → String
same path = path

abbrev read : String → Result (Dict (Dict String))
read path =
    if str_eq path "first"
    then ok (("foo", ("a", "1") ∷ []) ∷ ("profile a", ("region", "\nx = 1\ny=2") ∷ []) ∷ [])
    else ok (("foo", ("a", "2") ∷ []) ∷ ("default", []) ∷ ("profiles", []) ∷ [])

abbrev first : Config
first = record {
  sections = ("foo", field "a" (str "1") end) ∷ [];
  profiles = ("a", field "region" (dict (field "x" (str "1") (field "y" (str "2") end))) end) ∷ [];
}

-- A section named profiles is lost.
abbrev second : Config
second = record {
  sections = ("foo", field "a" (str "2") end) ∷ [];
  profiles = ("default", end) ∷ [];
}

program : Unit {0}
unfolding splitlines load_all multi_file_load_config sections_of profiles_of get raw_config_parse
    build_profile_map
program = tt

-- Both ends of a line, and one after the other
lines-split : splitlines "a\r\nb\rc\n" ≡ "a" ∷ "b" ∷ "c" ∷ []
unfolding program
lines-split = refl

files-loaded :
    load_all words isfile same read ("first" ∷ "missing" ∷ "second" ∷ []) ≡ ok (first ∷ second ∷ [])
unfolding program
files-loaded = refl

get-multi_file_load_config_example :
    (c : Config) × (multi_file_load_config words isfile same read
        ("first" ∷ "missing" ∷ "second" ∷ [])
      ≡ ok c)
    × (get "foo" c.sections ≡ first_of "foo" (sections_of (first ∷ second ∷ [])))
    × (get "foo" c.profiles ≡ first_of "foo" (profiles_of (first ∷ second ∷ [])))
unfolding program
get-multi_file_load_config_example =
    get-multi_file_load_config words isfile same read ("first" ∷ "missing" ∷ "second" ∷ [])
      (first ∷ second ∷ []) "foo" refl
