-- ===== src/Paginate/Samples.antt =====
-- A service that lists seven users in two pages, and what botocore/paginate.py does with it.
use jcsapitest.Prelude.{
  ℕ, ◌≤◌, String, ◌≡◌, ◌⊎◌, refl, false, none, some, Option, [], ◌∷◌, arith, eq_iff, Result, ok,
  raise, value_error,
}
use jcsapitest.Value.Int.{ℤ, pos}
use jcsapitest.Value.{
  Value, Items, Fields, str, int, list, dict, null, nil, cons, end, field, find_field, append_items,
}
use jcsapitest.Text.{show_int}
use jcsapitest.Utils.{split_dot}
use jcsapitest.Utils.Dotted.{dotted, is_identifier, AreKeys}
use jcsapitest.Paginate.Tokens.{resume_text, parse_starting_token, split}
use jcsapitest.Paginate.Tokens.Split.{IsSafe}
use jcsapitest.Paginate.Tokens.RoundTrip.{
  AllTokens, no_token, a_text, parse_starting_token-resume_text,
}
use jcsapitest.Paginate.State.{PageIterator, PageState, Run, inject_token}
use jcsapitest.Paginate.Page.{truncate_response, handle_first_request}
use jcsapitest.Paginate.Page.Counts.{LooksUp}
use jcsapitest.Paginate.Page.Resume.{truncate_response-resume}
use jcsapitest.Paginate.Paginator.{paginate}
use jcsapitest.Paginate.Iterator.{iterate, build_full_result}
use jcsapitest.Paginate.Iterator.Bounded.{all_items, iterate_bound}

unfoldable search : String → Value → Value
unfolding dotted split_dot
search e v = dotted (split_dot e) v

search-LooksUp : LooksUp search
unfolding search
search-LooksUp e v keys = refl

abbrev to_text : Value → String
to_text v = "?"

abbrev users : Option ℤ → Option String → PageIterator
users maximum start = record {
  input_token = "Marker" ∷ [];
  output_token = "Next" ∷ [];
  more_results = none;
  primary_result_key = "Users";
  secondary_result_keys = [];
  non_aggregate_keys = [];
  limit_key = "Max";
  max_items = maximum;
  starting_token = start;
  page_size = none;
}

abbrev number : ℕ → Value
number n = int (pos n)

abbrev first_page : Value
first_page = dict (
    field "Users" (list (cons (number 0) (cons (number 1) (cons (number 2) (cons (number 3) nil)))))
      (field "Next" (str "b") end))

abbrev second_page : Value
second_page =
    dict (field "Users" (list (cons (number 4) (cons (number 5) (cons (number 6) nil)))) end)

-- The second page stands behind the marker b.
unfoldable describe : ℕ → Fields → Result Value
unfolding find_field
describe n kwargs = elim (find_field "Marker" kwargs) [
  | none ↦ ok first_page
  | some marker ↦ ok second_page
]

abbrev run : Option ℤ → Option String → Run
run maximum start = iterate search to_text (users maximum start) 5 describe end

program : Unit {0}
unfolding is_identifier search describe iterate all_items build_full_result parse_starting_token
    truncate_response handle_first_request split_dot split inject_token paginate
program = tt

users_key : AreKeys (split_dot "Users")
unfolding program
users_key = refl

abbrev config : Fields
config = field "input_token" (str "Marker") (
    field "output_token" (str "Next")
      (field "result_key" (list (cons (str "Users") nil)) (field "limit_key" (str "Max") end)))

abbrev compile : String → Result String
compile e = ok e

paginate-users :
    paginate compile config (
      field "Path"
        (str "/")
        (field "max_items" (str " 5") (field "starting_token" (str "b___1") end)))
    ≡ ok (users (some (pos 5)) (some "b___1"), field "Path" (str "/") end)
unfolding program
paginate-users = refl

full-run :
    build_full_result search to_text (users none none) (run none none)
    ≡ ok (
        dict (
          field "Users"
            (list (
              cons (number 0) (
                cons (number 1) (
                  cons
                    (number 2)
                    (cons (number 3) (cons (number 4) (cons (number 5) (cons (number 6) nil))))))))
            end))
unfolding program
full-run = refl

-- Five users, and the token for the others.
cut-run :
    build_full_result search to_text (users (some (pos 5)) none) (run (some (pos 5)) none)
    ≡ ok (
        dict (
          field "Users"
            (list (
              cons
                (number 0)
                (cons (number 1) (cons (number 2) (cons (number 3) (cons (number 4) nil))))))
            (field "NextToken" (str "b___1") end)))
unfolding program
cut-run = refl

resumed-run :
    build_full_result search to_text (users none (some "b___1")) (run none (some "b___1"))
    ≡ ok (dict (field "Users" (list (cons (number 5) (cons (number 6) nil))) end))
unfolding program
resumed-run = refl

-- The index of the starting token is added to the index into a later page.
later_page_token : (run (some (pos 4)) (some "None___1")).state.resume_token ≡ some "b___2"
unfolding program
later_page_token = refl

-- So the user 5 is in neither run.
later_page_lost :
    (build_full_result search to_text
        (users (some (pos 4)) (some "None___1"))
        (run (some (pos 4)) (some "None___1"))
      ≡ ok (
          dict (
            field "Users"
              (list (cons (number 1) (cons (number 2) (cons (number 3) (cons (number 4) nil)))))
              (field "NextToken" (str "b___2") end))))
    × (build_full_result search to_text (users none (some "b___2")) (run none (some "b___2"))
        ≡ ok (dict (field "Users" (list (cons (number 6) nil)) end)))
unfolding program
later_page_lost = (refl, refl)

-- The marker of the starting token is not in the token that resumes its own page.
first_page_token : (run (some (pos 1)) (some "b___1")).state.resume_token ≡ some "None___2"
unfolding program
first_page_token = refl

-- A marker that ends in an underscore does not come back.
underscore_marker :
    parse_starting_token 1 (resume_text to_text (str "b_" ∷ str "2" ∷ []))
    ≡ raise (value_error "Bad starting token")
unfolding program resume_text
underscore_marker = refl

-- A token of an earlier page stays when the later page has none.
stale_token :
    inject_token
      ("A" ∷ "B" ∷ [])
      (str "c" ∷ null ∷ [])
      (field "A" (str "a") (field "B" (str "b") end))
    ≡ field "A" (str "c") (field "B" (str "b") end)
unfolding program
stale_token = refl

marker : AllTokens (str "b" ∷ null ∷ [])
unfolding IsSafe
marker = (a_text (ground (arith, eq_iff "b" "None")) (refl, tt), (no_token, tt))

parse_starting_token-resume_text_example :
    (parse_starting_token 2 (resume_text to_text (str "b" ∷ null ∷ []))
      ≡ ok (str "b" ∷ null ∷ [], pos 0))
    × (parse_starting_token 2 (resume_text to_text (str "b" ∷ null ∷ str (show_int (pos 12)) ∷ []))
        ≡ ok (str "b" ∷ null ∷ [], pos 12))
parse_starting_token-resume_text_example =
    parse_starting_token-resume_text to_text (str "b") (null ∷ []) 12 marker

iterate_bound_example :
    (all_items search to_text (users (some (pos 5)) none) (run (some (pos 5)) none).pages ≤ 5)
    × (((run (some (pos 5)) none).state.resume_token ≡ none)
        ⊎ (all_items search to_text (users (some (pos 5)) none) (run (some (pos 5)) none).pages
            ≡ 5))
iterate_bound_example =
    iterate_bound search to_text (users (some (pos 5)) none) search-LooksUp users_key describe 5
      refl 5 end

-- The state in front of the second page
abbrev second_state : PageState
second_state = record {
  current_kwargs = field "Marker" (str "b") end;
  previous_next_token = some (str "b" ∷ []);
  next_token = str "b" ∷ [];
  total_items = 4;
  first_request = false;
  starting_truncation = pos 0;
  resume_token = none;
  non_aggregate_part = dict end;
}

abbrev second_items : Items
second_items = cons (number 4) (cons (number 5) (cons (number 6) nil))

abbrev cut_page : Value
cut_page = dict (field "Users" (list (cons (number 4) nil)) end)

truncate_response-resume_example :
    (token : String) × (rest : Value) × (kept : Items) × (left : Items) × (some "b___1"
      ≡ some token)
    × (handle_first_request search to_text (users (some (pos 5)) none) token second_page
        ≡ ok (rest, pos 1))
    × (search "Users" cut_page ≡ list kept)
    × (search "Users" rest ≡ list left)
    × (append_items kept left ≡ second_items)
unfolding program
truncate_response-resume_example =
    truncate_response-resume search to_text (users (some (pos 5)) none) search-LooksUp users_key
      second_state second_page cut_page second_items (pos 2) 1
      (record second_state { next_token = str "b" ∷ str "1" ∷ []; resume_token = some "b___1" })
      (str "b") [] refl refl refl (marker.0, tt) refl refl refl refl
