-- ===== src/Paginate/Iterator.antt =====
-- botocore/paginate.py: `PageIterator.__iter__` and `build_full_result`. `method n kwargs` is the answer to
-- the call number n. A run on fuel has at most as many pages as fuel: the consumer asks for no more.
pub mod Bounded
use jcsapitest.Prelude.{
  ℕ, zero, suc, ◌+◌, String, Bool, true, false, not, ◌&&◌, ◌||◌, Option, none, some, List, [], ◌∷◌,
  ◌++◌, str_eq, length, if◌then◌else◌, boto_error, type_error, Result, ok, raise, ◌>>=◌,
}
use jcsapitest.Value.Int.{ℤ, pos, int_eq, ltb_ℤ}
use jcsapitest.Value.{
  Value, Items, Fields, null, str, int, list, dict, end, nil, value_eq, set_field, count_items,
  append_items, is_true,
}
use jcsapitest.Text.{show_int}
use jcsapitest.Utils.{set_key, set_value_from_jmespath, merge_dicts}
use jcsapitest.Paginate.Slices.{plus_ℤ, minus_ℤ, slice_to, slice_from}
use jcsapitest.Paginate.Tokens.{resume_text, parse_starting_token}
use jcsapitest.Paginate.State.{
  PageIterator, PageState, End, Run, found_items, found_slice, all_none, tokens_equal, is_previous,
  inject_token, nones,
}
use jcsapitest.Paginate.Page.{set_empty, round}

module _ (search : String → Value → Value) (to_text : Value → String) (it : PageIterator) where
  module _ (method : ℕ → Fields → Result Value) where
    unfoldable pub loop : ℕ → ℕ → PageState → Run
    unfolding round
    loop zero n st = record { pages = []; state = st; outcome = none }
    loop (suc fuel) n st =
        elim (method n st.current_kwargs >>= λ response. round search to_text it st response) [
          | raise e ↦ record { pages = []; state = st; outcome = some (raise e) }
          | ok (page, st', some r) ↦ record { pages = page ∷ []; state = st'; outcome = some r }
          | ok (page, st', none) ↦
              let rest = loop fuel (suc n) st' in
              record { pages = page ∷ rest.pages; state = rest.state; outcome = rest.outcome }
        ]

  -- _inject_starting_params
  unfoldable pub inject_starting_params : Fields → Result Fields
  unfolding inject_token parse_starting_token set_field
  inject_starting_params kwargs =
      elim it.starting_token [
        | none ↦ ok kwargs
        | some token ↦ parse_starting_token (length it.input_token) token >>= λ start.
            ok (inject_token it.input_token start.0 kwargs)
      ]
      >>= λ started. elim it.page_size [
        | none ↦ ok started
        | some n ↦ ok (set_field it.limit_key (int n) started)
      ]

  abbrev pub initial_state : Fields → PageState
  initial_state kwargs = record {
    current_kwargs = kwargs;
    previous_next_token = none;
    next_token = nones it.input_token;
    total_items = 0;
    first_request = true;
    starting_truncation = pos 0;
    resume_token = none;
    non_aggregate_part = dict end;
  }

  -- __iter__
  unfoldable pub iterate : (fuel : ℕ) → (ℕ → Fields → Result Value) → Fields → Run
  unfolding inject_starting_params loop nones
  iterate fuel method op_kwargs = elim (inject_starting_params op_kwargs) [
    | raise e ↦ record { pages = []; state = initial_state op_kwargs; outcome = some (raise e) }
    | ok kwargs ↦ loop method fuel 0 (initial_state kwargs)
  ]

  abbrev pub result_keys : List String
  result_keys = it.primary_result_key ∷ it.secondary_result_keys

  -- existing_value.extend(result_value), for a list that is there
  unfoldable pub extend_result : Value → List String → Value → Result Value
  unfolding found_items append_items set_value_from_jmespath
  extend_result page [] result = ok result
  extend_result page (e ∷ es) result = found_items (search e page) >>= λ new.
      found_items (search e result) >>= λ existing.
      set_value_from_jmespath result e (list (append_items existing new)) >>= λ changed.
      extend_result page es changed

  unfoldable pub extend_all : List Value → Value → Result Value
  unfolding extend_result
  extend_all [] result = ok result
  extend_all (page ∷ pages) result =
      extend_result page result_keys result >>= λ more. extend_all pages more

  abbrev pub with_next_token : Option String → Value → Result Value
  with_next_token none result = ok result
  with_next_token (some token) result = set_key "NextToken" (str token) result

  abbrev pub merge_part : Value → Value → Result Value
  merge_part (dict part) result = merge_dicts result part
  merge_part part result = ok result

  -- build_full_result, for a run that ends: an exception of the run ends it too.
  unfoldable pub build_full_result : Run → Result Value
  unfolding set_empty extend_all merge_dicts set_key
  build_full_result run = set_empty search to_text it result_keys (dict end) >>= λ empty.
      extend_all run.pages empty >>= λ extended. elim run.outcome [
        | none ↦ ok extended
        | some (raise e) ↦ raise e
        | some (ok done) ↦ merge_part run.state.non_aggregate_part extended >>= λ merged.
            with_next_token run.state.resume_token merged
      ]
