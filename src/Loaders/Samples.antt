-- ===== src/Loaders/Samples.antt =====
-- A directory with two versions of a service, as botocore/loaders.py searches it.
use jcsapitest.Prelude.{
  ◌≡◌, ◌⊎◌, refl, String, true, false, none, some, List, [], ◌∷◌, str_eq, if◌then◌else◌, boto_error,
  ok, raise,
}
use jcsapitest.Value.{Value, str}
use jcsapitest.Text.{concat}
use jcsapitest.Loaders.{
  Files, is_eligible, all_options, get_search_paths, determine_latest, load_data,
  load_service_model, list_available_services,
}
use jcsapitest.Loaders.Latest.{Each, Within, holds, determine_latest-Best}
use jcsapitest.Loaders.Cached.{load_data-shared}

-- splitext for the names of this sample
unfoldable cut : String → String
cut path =
    if str_eq path "/r/data/aws/rds/2013-01-10.normal.json"
    then "/r/data/aws/rds/2013-01-10.normal"
    else if str_eq path "/r/data/aws/rds/2013-05-15.normal.json"
    then "/r/data/aws/rds/2013-05-15.normal"
    else "/r/data/aws/rds/readme"

abbrev files : Files
files = record {
  load_file = λ path. ok (str path);
  isdir = λ path. str_eq path "/r/data/aws/rds";
  glob = λ pattern.
      "/r/data/aws/rds/2013-01-10.normal.json" ∷ "/r/data/aws/rds/readme.json"
      ∷ "/r/data/aws/rds/2013-05-15.normal.json" ∷ [];
  join = λ a b. concat a (concat "/" b);
  splitext = cut;
  basename = λ path. path;
  expand = λ path. path;
}

program : Unit {0}
unfolding determine_latest all_options get_search_paths is_eligible concat cut load_data
    load_service_model list_available_services
program = tt

latest : determine_latest files "/r" none "aws/rds" none ≡ ok "aws/rds/2013-05-15.normal"
unfolding program
latest = refl

closest :
    determine_latest files "/r" none "aws/rds" (some "2013-01-31") ≡ ok "aws/rds/2013-01-10.normal"
unfolding program
closest = refl

exact :
    determine_latest files "/r" none "aws/rds" (some "2013-05-15") ≡ ok "aws/rds/2013-05-15.normal"
unfolding program
exact = refl

too_old :
    determine_latest files "/r" none "aws/rds" (some "2010-05-16")
    ≡ raise (boto_error "ApiVersionNotFoundError" "aws/rds")
unfolding program
too_old = refl

abbrev options : List String
options = "2013-01-10.normal" ∷ "2013-05-15.normal" ∷ []

determine_latest-Best_example :
    ((best : String) × (determine_latest files "/r" none "aws/rds" (some "2013-01-31")
        ≡ ok (files.join "aws/rds" best))
      × (is_eligible (some "2013-01-31") best ≡ true)
      × (holds best options ≡ true)
      × Each (Within (some "2013-01-31") best) options)
    ⊎ ((determine_latest files "/r" none "aws/rds" (some "2013-01-31")
          ≡ raise (boto_error "ApiVersionNotFoundError" "aws/rds"))
        × Each (λ opt. is_eligible (some "2013-01-31") opt ≡ false) options)
unfolding program
determine_latest-Best_example =
    determine_latest-Best files "/r" none "aws/rds" (some "2013-01-31") options refl

abbrev value : Value
value = str "/r/data/aws.json"

load_data-shared_example :
    (load_data files "/x" none (load_data files "/r" none [] "aws").0 "aws"
      ≡ ((load_data files "/r" none [] "aws").0, ok value))
    × (load_service_model files "/x" none (load_data files "/r" none [] "aws").0 "aws" none
        ≡ ((load_data files "/r" none [] "aws").0, ok value))
    × (list_available_services files "/x" none (load_data files "/r" none [] "aws").0 "aws"
        ≡ ((load_data files "/r" none [] "aws").0, ok value))
unfolding program
load_data-shared_example = load_data-shared files files "/r" "/x" none none [] "aws" value refl
