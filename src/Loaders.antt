-- ===== src/Loaders.antt =====
-- botocore/loaders.py: `Loader`, which finds and caches the data files. What it asks of the file system and
-- of os.path is `Files`; joining, splitting off the extension and expanding a path are the library's.
pub mod Latest
pub mod Cached
pub mod Samples
use Prim.Native.Char.{code}
use jcsapitest.Prelude.{
  ℕ, zero, suc, ◌+◌, ◌-◌, String, Bool, true, false, not, ◌&&◌, ◌||◌, Option, none, some, List, [],
  ◌∷◌, ◌++◌, Dict, get, put, ◌==◌, str_eq, if◌then◌else◌, exception, boto_error, index_error,
  isinstance, Result, ok, raise, ◌>>=◌,
}
use jcsapitest.Value.{Value, Items, str, list, nil, cons}
use jcsapitest.Text.{concat}
use jcsapitest.Text.Sorted.{text_leb, sorted_texts}

pub record Files : Type 0 where
  -- open and json.load: an IOError, or a DataNotFoundError for bad JSON
  pub load_file : String → Result Value
  pub isdir : String → Bool
  pub glob : String → List String
  pub join : String → String → String
  -- splitext(p)[0] and basename(p)
  pub splitext : String → String
  pub basename : String → String
  -- expanduser(expandvars(p))
  pub expand : String → String

-- search_path.split(':')
unfoldable pub split_paths : String → List String
split_paths String.[] = "" ∷ []
split_paths (String.◌∷◌ c s) = elim (split_paths s) [
  | [] ↦ []
  | p ∷ ps ↦ if code c == b':' then "" ∷ p ∷ ps else String.◌∷◌ c p ∷ ps
]

unfoldable pub has_prefix : String → String → Bool
has_prefix String.[] s = true
has_prefix (String.◌∷◌ c p) String.[] = false
has_prefix (String.◌∷◌ c p) (String.◌∷◌ d s) = code c == code d && has_prefix p s

unfoldable pub size : String → ℕ
size String.[] = 0
size (String.◌∷◌ c s) = suc (size s)

-- opt.replace(path, ''), with the number of characters that are still dropped; an empty path changes nothing.
unfoldable pub erase : String → ℕ → String → String
unfolding has_prefix size
erase path n String.[] = ""
erase path (suc n) (String.◌∷◌ c s) = erase path n s
erase path zero (String.◌∷◌ c s) =
    if has_prefix path (String.◌∷◌ c s) && not (str_eq path "")
    then erase path (size path - 1) s
    else String.◌∷◌ c (erase path 0 s)

unfoldable pub count_dashes : String → ℕ
count_dashes String.[] = 0
count_dashes (String.◌∷◌ c s) = (if code c == b'-' then 1 else 0) + count_dashes s

-- opt.split('.')[0]
unfoldable pub before_dot : String → String
before_dot String.[] = ""
before_dot (String.◌∷◌ c s) =
    let rest = before_dot s in if code c == b'.' then "" else String.◌∷◌ c rest

-- The option without a separator in front; an empty one has no first character.
unfoldable pub without_separator : String → Result String
without_separator String.[] = raise (index_error "string index out of range")
without_separator (String.◌∷◌ c s) = if code c == b'/' then ok s else ok (String.◌∷◌ c s)

unfoldable pub insert_down : String → List String → List String
unfolding text_leb
insert_down t [] = t ∷ []
insert_down t (u ∷ us) =
    let rest = insert_down t us in if text_leb u t then t ∷ u ∷ us else u ∷ rest

-- sorted(ts, reverse=True)
unfoldable pub sorted_down : List String → List String
unfolding insert_down
sorted_down [] = []
sorted_down (t ∷ ts) = insert_down t (sorted_down ts)

-- opt.split('.')[0] == api_version or opt < api_version
unfoldable pub is_eligible : Option String → String → Bool
unfolding before_dot text_leb
is_eligible none opt = true
is_eligible (some version) opt = str_eq (before_dot opt) version || not (text_leb version opt)

-- The loop over the options in reverse order; without a version, the first one
unfoldable pub first_eligible : Option String → List String → Option String
unfolding is_eligible
first_eligible version [] = none
first_eligible version (opt ∷ opts) =
    let rest = first_eligible version opts in if is_eligible version opt then some opt else rest

module _ (files : Files) (root : String) where
  open files use {load_file, isdir, glob, join, splitext, basename, expand}

  unfoldable pub expand_all : List String → List String
  expand_all [] = []
  expand_all (p ∷ ps) = expand p ∷ expand_all ps

  -- get_search_paths
  unfoldable pub get_search_paths : Option String → List String
  unfolding expand_all split_paths
  get_search_paths none = join root "data" ∷ []
  get_search_paths (some search_path) =
      expand_all (split_paths search_path) ++ join root "data" ∷ []

  -- The options of one directory, in the loop over raw_opt
  unfoldable pub version_options : String → List String → Result (List String)
  unfolding erase without_separator count_dashes
  version_options path [] = ok []
  version_options path (raw_opt ∷ raw_opts) =
      let rest = version_options path raw_opts in
      without_separator (erase path 0 (splitext raw_opt)) >>= λ opt.
      rest >>= λ opts. ok (if count_dashes opt == 2 then opt ∷ opts else opts)

  -- The options of all search paths; a path that is no directory is skipped.
  unfoldable pub all_options : String → List String → Result (List String)
  unfolding version_options
  all_options data_path [] = ok []
  all_options data_path (base_path ∷ paths) =
      let rest = all_options data_path paths in
      let path = join base_path data_path in
      if isdir path
      then (version_options path (glob (join path "*normal.json")) >>= λ opts.
          rest >>= λ more. ok (opts ++ more))
      else rest

  abbrev pub version_not_found : String → Result String
  version_not_found data_path = raise (boto_error "ApiVersionNotFoundError" data_path)

  -- What is made of the best match; an empty one does not count.
  abbrev pub matched : String → Option String → Result String
  matched data_path none = version_not_found data_path
  matched data_path (some best) =
      if str_eq best "" then version_not_found data_path else ok (join data_path best)

  -- determine_latest
  unfoldable pub determine_latest : Option String → String → Option String → Result String
  unfolding all_options get_search_paths first_eligible sorted_down
  determine_latest search_path data_path version =
      all_options data_path (get_search_paths search_path) >>= λ options.
      matched data_path (first_eligible version (sorted_down options))

  -- _load_data: the first search path that has the file
  unfoldable pub load_from : String → List String → Result Value
  unfolding isinstance concat
  load_from data_path [] = raise (boto_error "DataNotFoundError" data_path)
  load_from data_path (p ∷ ps) =
      let rest = load_from data_path ps in
      elim (load_file (join p (concat data_path ".json"))) [
        | ok v ↦ ok v
        | raise e ↦ if isinstance e "IOError" then rest else raise e
      ]

  abbrev pub Cache : Type 0
  Cache = Dict Value

  -- @cachable: the key is the path with the keyword arguments behind it.
  abbrev pub keep : Cache → String → Result Value → Cache × Result Value
  keep cache key (ok v) = (put key v cache, ok v)
  keep cache key (raise e) = (cache, raise e)

  unfoldable pub cachable : Cache → String → Result Value → Cache × Result Value
  unfolding get put
  cachable cache key called = elim (get key cache) [
    | some v ↦ (cache, ok v)
    | none ↦ keep cache key called
  ]

  -- load_data
  unfoldable pub load_data : Option String → Cache → String → Cache × Result Value
  unfolding cachable load_from get_search_paths
  load_data search_path cache data_path =
      cachable cache data_path (load_from data_path (get_search_paths search_path))

  -- orig_key + '/api_version/' + version, if the argument is given
  unfoldable pub service_key : String → Option (Option String) → String
  unfolding concat
  service_key data_path none = data_path
  service_key data_path (some none) = concat data_path "/api_version/None"
  service_key data_path (some (some version)) = concat data_path (concat "/api_version/" version)

  abbrev pub version_of : Option (Option String) → Option String
  version_of none = none
  version_of (some version) = version

  -- load_service_model
  unfoldable pub load_service_model :
      Option String → Cache → String → Option (Option String) → Cache × Result Value
  unfolding cachable service_key determine_latest load_from get_search_paths
  load_service_model search_path cache data_path version =
      cachable cache (service_key data_path version) (
        determine_latest search_path data_path (version_of version) >>= λ actual_data_path.
        load_from actual_data_path (get_search_paths search_path))

  unfoldable pub directories : List String → List String
  directories [] = []
  directories (p ∷ ps) = let rest = directories ps in if isdir p then basename p ∷ rest else rest

  unfoldable pub service_names : String → List String → List String
  unfolding directories
  service_names data_path [] = []
  service_names data_path (p ∷ ps) =
      directories (glob (join (join p data_path) "*")) ++ service_names data_path ps

  unfoldable pub texts : List String → Items
  texts [] = nil
  texts (t ∷ ts) = cons (str t) (texts ts)

  -- list_available_services
  unfoldable pub list_available_services : Option String → Cache → String → Cache × Result Value
  unfolding cachable texts sorted_texts service_names get_search_paths
  list_available_services search_path cache data_path =
      cachable cache data_path
        (ok (list (texts (sorted_texts (service_names data_path (get_search_paths search_path))))))
