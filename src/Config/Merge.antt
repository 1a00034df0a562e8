-- ===== src/Config/Merge.antt =====
-- Which file a section of several configuration files comes from.
use jcsapitest.Prelude.{
  String, ◌≡◌, refl, sym, ap, ◌∙◌, inl, inr, Bool, true, false, Option, none, some, List, [], ◌∷◌,
  Dict, get, has, put, get-put, eq_iff, str_eq, if◌then◌else◌, Bool-cases, Option-cases, Result, ok,
}
use jcsapitest.Value.{Fields}
use jcsapitest.Config.{
  Sections, Config, add_missing, merge_from, merge_list_of_dicts, load_all, multi_file_load_config,
  sections_of, profiles_of,
}

abbrev pub or_else : Option Fields → Option Fields → Option Fields
or_else none other = other
or_else (some v) other = some v

-- What the first dictionary with the key has under it
abbrev pub first_of : String → List Sections → Option Fields
first_of k [] = none
first_of k (d ∷ ds) = or_else (get k d) (first_of k ds)

or_else_assoc : (a b c : Option Fields) → or_else (or_else a b) c ≡ or_else a (or_else b c)
or_else_assoc none b c = refl
or_else_assoc (some v) b c = refl

or_else-none : (a : Option Fields) → or_else a none ≡ a
or_else-none none = refl
or_else-none (some v) = refl

get-add_one :
    (k j : String) (v : Fields) (merged : Sections)
    → get k (if has j merged then merged else put j v merged)
      ≡ or_else (get k merged) (if str_eq j k then some v else none)
unfolding has
get-add_one k j v merged = elim (Option-cases (get j merged)) [
  | inl missing ↦
      let added = get-put j k v merged in
      elim (Bool-cases (str_eq j k)) [
        | inl same ↦
            let absent : get k merged ≡ none = rw (← (eq_iff j k).0 same) missing in
            rw (has, missing, added, same, absent) refl
        | inr differs ↦ rw (has, missing, added, differs, or_else-none (get k merged)) refl
      ]
  | inr (w, there) ↦ elim (Bool-cases (str_eq j k)) [
    | inl same ↦
        let found : get k merged ≡ some w = rw (← (eq_iff j k).0 same) there in
        rw (has, there, found) refl
    | inr differs ↦ rw (has, there, differs, or_else-none (get k merged)) refl
  ]
]

get-add_missing :
    (k : String) (merged single : Sections)
    → get k (add_missing merged single) ≡ or_else (get k merged) (get k single)
unfolding add_missing get
get-add_missing k merged [] = sym (or_else-none (get k merged))
get-add_missing k merged ((j, v) ∷ single) =
    get-add_missing k (if has j merged then merged else put j v merged) single
    ∙ (ap (λ a. or_else a (get k single)) (get-add_one k j v merged)
        ∙ (or_else_assoc (get k merged) (if str_eq j k then some v else none) (get k single)
            ∙ ap (or_else (get k merged)) (choose (str_eq j k) v (get k single))))
  where
    choose :
        (b : Bool) (v : Fields) (o : Option Fields)
        → or_else (if b then some v else none) o ≡ (if b then some v else o)
    choose true v o = refl
    choose false v o = refl

get-merge_from :
    (k : String) (merged : Sections) (dicts : List Sections)
    → get k (merge_from merged dicts) ≡ or_else (get k merged) (first_of k dicts)
unfolding merge_from
get-merge_from k merged [] = sym (or_else-none (get k merged))
get-merge_from k merged (d ∷ dicts) =
    get-merge_from k (add_missing merged d) dicts
    ∙ (ap (λ a. or_else a (first_of k dicts)) (get-add_missing k merged d)
        ∙ or_else_assoc (get k merged) (get k d) (first_of k dicts))

get-merge_list_of_dicts :
    (k : String) (dicts : List Sections) → get k (merge_list_of_dicts dicts) ≡ first_of k dicts
unfolding merge_list_of_dicts get
get-merge_list_of_dicts k dicts = get-merge_from k [] dicts

-- If the files that are there can be read, then a section of several files is that of the first file that has it,
-- and so is a profile: neither is merged from several files.
pub get-multi_file_load_config :
    (shlex_split : String → Option (List String)) (isfile : String → Bool)
    (expand : String → String) (read : String → Result (Dict (Dict String)))
    (filenames : List String) (configs : List Config) (name : String)
    → load_all shlex_split isfile expand read filenames ≡ ok configs
    → (c : Config) × (multi_file_load_config shlex_split isfile expand read filenames ≡ ok c)
      × (get name c.sections ≡ first_of name (sections_of configs))
      × (get name c.profiles ≡ first_of name (profiles_of configs))
unfolding multi_file_load_config
get-multi_file_load_config shlex_split isfile expand read filenames configs name loaded = (
  record {
    sections = merge_list_of_dicts (sections_of configs);
    profiles = merge_list_of_dicts (profiles_of configs);
  },
  rw loaded refl,
  get-merge_list_of_dicts name (sections_of configs),
  get-merge_list_of_dicts name (profiles_of configs),
)
