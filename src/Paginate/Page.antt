-- ===== src/Paginate/Page.antt =====
-- botocore/paginate.py: what PageIterator does with one response. `search` is JMESPath's search, which finds
-- a list or None at a result key; `to_text` is str of a token that is no text, int or bool.
pub mod Counts
pub mod Resume
use jcsapitest.Prelude.{
  ℕ, zero, suc, ◌+◌, String, Bool, true, false, not, ◌&&◌, ◌||◌, Option, none, some, List, [], ◌∷◌,
  ◌++◌, str_eq, length, if◌then◌else◌, boto_error, type_error, Result, ok, raise, ◌>>=◌,
}
use jcsapitest.Value.Int.{ℤ, pos, int_eq, ltb_ℤ}
use jcsapitest.Value.{
  Value, Items, Fields, null, str, int, list, dict, end, nil, value_eq, set_field, count_items,
  append_items, is_true,
}
use jcsapitest.Text.{show_int}
use jcsapitest.Utils.{set_key, set_value_from_jmespath, merge_dicts}
use jcsapitest.Paginate.Slices.{plus_ℤ, minus_ℤ, slice_to, slice_from}
use jcsapitest.Paginate.Tokens.{resume_text, parse_starting_token}
use jcsapitest.Paginate.State.{
  PageIterator, PageState, End, Run, found_items, found_slice, all_none, tokens_equal, is_previous,
  inject_token, nones,
}

module _ (search : String → Value → Value) (to_text : Value → String) (it : PageIterator) where
  unfoldable pub set_empty : List String → Value → Result Value
  unfolding set_value_from_jmespath
  set_empty [] parsed = ok parsed
  set_empty (e ∷ es) parsed =
      set_value_from_jmespath parsed e (list nil) >>= λ changed. set_empty es changed

  -- _handle_first_request
  unfoldable pub handle_first_request : String → Value → Result (Value × ℤ)
  unfolding parse_starting_token found_slice set_empty
  handle_first_request starting_token parsed =
      parse_starting_token (length it.input_token) starting_token >>= λ start.
      found_slice (search it.primary_result_key parsed) start.1 >>= λ items.
      set_value_from_jmespath parsed it.primary_result_key (list items) >>= λ sliced.
      set_empty it.secondary_result_keys sliced >>= λ changed. ok (changed, start.1)

  -- _record_non_aggregate_key_values
  unfoldable pub non_aggregate_values : List String → Value → Value → Result Value
  unfolding set_value_from_jmespath
  non_aggregate_values [] response part = ok part
  non_aggregate_values (e ∷ es) response part =
      set_value_from_jmespath part e (search e response) >>= λ more.
      non_aggregate_values es response more

  -- _get_next_token
  unfoldable pub search_all : List String → Value → List Value
  search_all [] parsed = []
  search_all (e ∷ es) parsed = search e parsed ∷ search_all es parsed

  abbrev pub has_more : Option String → Value → Bool
  has_more none parsed = true
  has_more (some e) parsed = is_true (search e parsed)

  unfoldable pub get_next_token : Value → List Value
  unfolding search_all is_true
  get_next_token parsed =
      if has_more it.more_results parsed then search_all it.output_token parsed else null ∷ []

  -- What the first page is made of: the slice from the starting token's index, and the values that
  -- are kept once.
  unfoldable pub start_page : Value → Result (Value × ℤ)
  unfolding handle_first_request
  start_page parsed = elim it.starting_token [
    | none ↦ ok (parsed, pos 0)
    | some token ↦ handle_first_request token parsed
  ]

  unfoldable pub receive_first : PageState → Value → Result (Value × PageState)
  unfolding start_page non_aggregate_values
  receive_first st parsed = start_page parsed >>= λ start.
      non_aggregate_values it.non_aggregate_keys start.0 (dict end) >>= λ part. ok (
        start.0,
        record st {
          starting_truncation = start.1;
          first_request = false;
          non_aggregate_part = part;
        },
      )

  unfoldable pub receive : PageState → Value → Result (Value × PageState)
  unfolding receive_first
  receive st parsed = if st.first_request then receive_first st parsed else ok (parsed, st)

  -- truncate_amount, which counts when it is positive
  abbrev pub truncate_amount : ℕ → ℕ → ℤ
  truncate_amount total n = elim it.max_items [
    | none ↦ pos 0
    | some m ↦ minus_ℤ (pos (total + n)) m
  ]

  -- _truncate_response
  unfoldable pub truncate_response : PageState → Value → Items → ℤ → Result (Value × PageState)
  unfolding resume_text slice_to show_int set_value_from_jmespath
  truncate_response st parsed original amount =
      let amount_to_keep = minus_ℤ (pos (count_items original)) amount in
      let next_token =
        st.next_token ++ str (show_int (plus_ℤ amount_to_keep st.starting_truncation)) ∷ [] in
      set_value_from_jmespath parsed it.primary_result_key (list (slice_to original amount_to_keep))
      >>= λ truncated. ok (
        truncated,
        record st { next_token = next_token; resume_token = some (resume_text to_text next_token) },
      )

  abbrev pub reaches : ℕ → Bool
  reaches total = elim it.max_items [ none ↦ false | some m ↦ int_eq (pos total) m ]

  -- What follows a page that was yielded whole.
  unfoldable pub follow : PageState → ℕ → List Value → PageState × End
  unfolding all_none tokens_equal inject_token int_eq resume_text
  follow st total next =
      let counted = record st { total_items = total; next_token = next } in
      if all_none next
      then (counted, some (ok tt))
      else if reaches total
      then (record counted { resume_token = some (resume_text to_text next) }, some (ok tt))
      else if is_previous st.previous_next_token next
      then (
        counted,
        some (raise (boto_error "PaginationError" "The same next token was received twice")),
      )
      else (
        record counted {
          current_kwargs = inject_token it.input_token next st.current_kwargs;
          previous_next_token = some next;
        },
        none,
      )

  -- A page that the maximum cuts ends the run; another is yielded whole.
  unfoldable pub finish_page : PageState → Value → Items → Result (Value × PageState × End)
  unfolding truncate_response follow get_next_token count_items
  finish_page st parsed items =
      let amount = truncate_amount st.total_items (count_items items) in
      if ltb_ℤ (pos 0) amount
      then (truncate_response st parsed items amount >>= λ cut. ok (cut.0, cut.1, some (ok tt)))
      else let followed = follow st (st.total_items + count_items items) (get_next_token parsed) in
        ok (parsed, followed.0, followed.1)

  -- One page: what is yielded, the state, and how it ends the run.
  unfoldable pub round : PageState → Value → Result (Value × PageState × End)
  unfolding receive found_items finish_page
  round st response = receive st response >>= λ received.
      found_items (search it.primary_result_key received.0) >>= λ items.
      finish_page received.1 received.0 items
