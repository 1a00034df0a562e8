-- ===== src/Config.antt =====
-- botocore/config.py: `load_config`, `multi_file_load_config` and what they are made of. A file is the
-- sections and options that configparser reads; `read` raises its Error, `isfile` and `expand` ask the
-- operating system, and `shlex_split` splits a section's name or raises a ValueError. Dictionaries are
-- iterated in their order.
pub mod Merge
pub mod Samples
use Prim.Native.Char.{Char, code}
use jcsapitest.Prelude.{
  String, Bool, true, false, not, ◌&&◌, ◌||◌, Option, none, some, List, [], ◌∷◌, Dict, get, has,
  put, remove, ◌==◌, str_eq, ltb, leb, if◌then◌else◌, Exception, boto_error, value_error,
  isinstance, Result, ok, raise, ◌>>=◌,
}
use jcsapitest.Value.{Value, Fields, str, dict, end, field, set_field}
use jcsapitest.Text.{strip}

-- A section is the values of its options; a configuration has its sections and its profiles.
abbrev pub Sections : Type 0
Sections = Dict Fields

pub record Config : Type 0 where
  pub sections : Sections
  pub profiles : Sections

abbrev pub starts_newline : String → Bool
starts_newline String.[] = false
starts_newline (String.◌∷◌ c s) = code c == 10

-- '\n' or '\r'
abbrev pub ends_line : Char → Bool
ends_line c = code c == 10 || code c == 13

-- The rest of a line in front of the other lines
abbrev pub first_line : Char → List String → List String
first_line c [] = if ends_line c then "" ∷ [] else String.◌∷◌ c "" ∷ []
first_line c (l ∷ ls) = if ends_line c then "" ∷ l ∷ ls else String.◌∷◌ c l ∷ ls

-- config_value.splitlines(), where '\r' and a '\n' behind it are one end of a line
unfoldable pub splitlines : String → List String
splitlines String.[] = []
splitlines (String.◌∷◌ c s) =
    let rest = splitlines s in if code c == 13 && starts_newline s then rest else first_line c rest

-- line.split('=', 1), for a line that has one
unfoldable pub split_equation : String → Option (String × String)
split_equation String.[] = none
split_equation (String.◌∷◌ c s) =
    let rest = split_equation s in
    if code c == b'='
    then some ("", s)
    else elim rest [ none ↦ none | some p ↦ some (String.◌∷◌ c p.0, p.1) ]

abbrev pub put_equation : Option (String × String) → Fields → Result Fields
put_equation none parsed = raise (value_error "need more than 1 value to unpack")
put_equation (some p) parsed = ok (set_field (strip p.0) (str (strip p.1)) parsed)

-- _parse_nested
unfoldable pub parse_lines : Fields → List String → Result Fields
unfolding strip split_equation set_field
parse_lines parsed [] = ok parsed
parse_lines parsed (line ∷ lines) =
    if str_eq (strip line) ""
    then parse_lines parsed lines
    else put_equation (split_equation (strip line)) parsed >>= λ more. parse_lines more lines

unfoldable pub parse_nested : String → Result Fields
unfolding parse_lines splitlines
parse_nested config_value = parse_lines end (splitlines config_value)

abbrev pub parse_error : String → Exception
parse_error path = boto_error "ConfigParseError" path

-- The value of one option
unfoldable pub option_value : String → String → Result Value
unfolding parse_nested isinstance
option_value path text =
    if starts_newline text
    then elim (parse_nested text) [
      | ok fs ↦ ok (dict fs)
      | raise e ↦ if isinstance e "ValueError" then raise (parse_error path) else raise e
    ]
    else ok (str text)

unfoldable pub read_options : String → Dict String → Result Fields
unfolding option_value
read_options path [] = ok end
read_options path ((option, text) ∷ options) =
    let rest = read_options path options in
    option_value path text >>= λ v. rest >>= λ fs. ok (field option v fs)

unfoldable pub read_sections : String → Dict (Dict String) → Result Sections
unfolding read_options
read_sections path [] = ok []
read_sections path ((section, options) ∷ sections) =
    let rest = read_sections path sections in
    read_options path options >>= λ fs. rest >>= λ more. ok ((section, fs) ∷ more)

-- key.startswith("profile")
unfoldable pub has_profile_prefix : String → String → Bool
has_profile_prefix String.[] key = true
has_profile_prefix (String.◌∷◌ c p) String.[] = false
has_profile_prefix (String.◌∷◌ c p) (String.◌∷◌ d key) =
    code c == code d && has_profile_prefix p key

abbrev pub is_profile : String → Bool
is_profile key = has_profile_prefix "profile" key

-- if key not in merged_dicts: merged_dicts[key] = value
unfoldable pub add_missing : Sections → Sections → Sections
unfolding has put
add_missing merged [] = merged
add_missing merged ((k, v) ∷ single) =
    add_missing (if has k merged then merged else put k v merged) single

-- _merge_list_of_dicts
unfoldable pub merge_from : Sections → List Sections → Sections
unfolding add_missing
merge_from merged [] = merged
merge_from merged (single ∷ dicts) = merge_from (add_missing merged single) dicts

unfoldable pub merge_list_of_dicts : List Sections → Sections
unfolding merge_from
merge_list_of_dicts dicts = merge_from [] dicts

unfoldable pub sections_of : List Config → List Sections
sections_of [] = []
sections_of (c ∷ cs) = c.sections ∷ sections_of cs

unfoldable pub profiles_of : List Config → List Sections
profiles_of [] = []
profiles_of (c ∷ cs) = c.profiles ∷ profiles_of cs

module _ (shlex_split : String → Option (List String)) where
  -- The name of the profile of a section that begins with "profile"
  abbrev pub profile_name : String → Option String
  profile_name key = elim (shlex_split key) [ some (word ∷ name ∷ []) ↦ some name | other ↦ none ]

  -- The loop of build_profile_map
  unfoldable pub sort_sections : Config → Sections → Config
  unfolding has_profile_prefix put
  sort_sections c [] = c
  sort_sections c ((key, values) ∷ sections) =
      sort_sections
        (if is_profile key
          then (elim (profile_name key) [
            | none ↦ c
            | some name ↦ record c { profiles = put name values c.profiles }
          ])
          else if str_eq key "default"
          then record c { profiles = put key values c.profiles }
          else record c { sections = put key values c.sections })
        sections

  unfoldable pub build_profile_map : Sections → Config
  unfolding sort_sections
  build_profile_map parsed = sort_sections (record { sections = []; profiles = [] }) parsed

  module _ (isfile : String → Bool) (expand : String → String)
      (read : String → Result (Dict (Dict String))) where
    -- raw_config_parse
    unfoldable pub raw_config_parse : Option String → Result Sections
    unfolding read_sections isinstance
    raw_config_parse none = ok []
    raw_config_parse (some filename) =
        let path = expand filename in
        if isfile path
        then elim (read path) [
          | ok sections ↦ read_sections path sections
          | raise e ↦ if isinstance e "Error" then raise (parse_error path) else raise e
        ]
        else raise (boto_error "ConfigNotFound" path)

    -- load_config
    unfoldable pub load_config : Option String → Result Config
    unfolding raw_config_parse build_profile_map
    load_config filename = raw_config_parse filename >>= λ parsed. ok (build_profile_map parsed)

    -- The loop of multi_file_load_config; a file that is not there is passed over.
    unfoldable pub load_all : List String → Result (List Config)
    unfolding load_config isinstance
    load_all [] = ok []
    load_all (filename ∷ filenames) =
        let rest = load_all filenames in
        elim (load_config (some filename)) [
          | ok c ↦ rest >>= λ cs. ok (c ∷ cs)
          | raise e ↦ if isinstance e "ConfigNotFound" then rest else raise e
        ]

    -- multi_file_load_config
    unfoldable pub multi_file_load_config : List String → Result Config
    unfolding load_all sections_of profiles_of merge_list_of_dicts
    multi_file_load_config filenames = load_all filenames >>= λ cs. ok (record {
      sections = merge_list_of_dicts (sections_of cs);
      profiles = merge_list_of_dicts (profiles_of cs);
    })
