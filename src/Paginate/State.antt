-- ===== src/Paginate/State.antt =====
-- botocore/paginate.py: what a page iterator is given, what it keeps from page to page, and the steps
-- that do not ask the service or JMESPath. A JMESPath expression is its text; the secondary result keys
-- are those that are not the primary one.
use jcsapitest.Prelude.{
  ℕ, String, Bool, true, false, ◌&&◌, Option, none, some, List, [], ◌∷◌, str_eq, if◌then◌else◌,
  type_error, Result, ok, raise,
}
use jcsapitest.Value.Int.{ℤ}
use jcsapitest.Value.{Value, Items, Fields, null, nil, value_eq, set_field}
use jcsapitest.Paginate.Slices.{slice_from}

-- What PageIterator.__init__ is given.
pub record PageIterator : Type 0 where
  pub input_token : List String
  pub output_token : List String
  pub more_results : Option String
  pub primary_result_key : String
  pub secondary_result_keys : List String
  pub non_aggregate_keys : List String
  pub limit_key : String
  pub max_items : Option ℤ
  pub starting_token : Option String
  pub page_size : Option ℤ

-- The local variables of __iter__, with the resume token and the non-aggregate part.
pub record PageState : Type 0 where
  pub current_kwargs : Fields
  pub previous_next_token : Option (List Value)
  pub next_token : List Value
  pub total_items : ℕ
  pub first_request : Bool
  pub starting_truncation : ℤ
  pub resume_token : Option String
  pub non_aggregate_part : Value

-- How a page ends a run, or none for another page.
abbrev pub End : Type 0
End = Option (Result (Unit {0}))

pub record Run : Type 0 where
  pub pages : List Value
  pub state : PageState
  pub outcome : End

-- A list that a result key finds; None counts as no items. A result key is assumed to find one of the two: for a
-- text or a dictionary, which have a length too, this raises where the source does not.
unfoldable pub found_items : Value → Result Items
found_items Value.null = ok nil
found_items (Value.list vs) = ok vs
found_items v = raise (type_error "object has no len()")

-- all_data[starting_truncation:], where None is an error
unfoldable pub found_slice : Value → ℤ → Result Items
unfolding slice_from
found_slice (Value.list vs) i = ok (slice_from vs i)
found_slice v i = raise (type_error "object has no attribute '__getitem__'")

abbrev pub is_none : Value → Bool
is_none Value.null = true
is_none v = false

unfoldable pub all_none : List Value → Bool
all_none [] = true
all_none (v ∷ vs) = is_none v && all_none vs

-- Python's == of two lists of tokens
unfoldable pub tokens_equal : List Value → List Value → Bool
unfolding value_eq
tokens_equal [] [] = true
tokens_equal (v ∷ vs) (w ∷ ws) = value_eq v w && tokens_equal vs ws
tokens_equal _ _ = false

abbrev pub is_previous : Option (List Value) → List Value → Bool
is_previous none next = false
is_previous (some previous) next = tokens_equal previous next

-- token is None or token == 'None'
unfoldable pub is_no_token : Value → Bool
is_no_token Value.null = true
is_no_token (Value.str s) = str_eq s "None"
is_no_token v = false

-- _inject_token_into_kwargs
unfoldable pub inject_token : List String → List Value → Fields → Fields
unfolding is_no_token set_field
inject_token (name ∷ names) (token ∷ tokens) kwargs =
    inject_token names tokens (if is_no_token token then kwargs else set_field name token kwargs)
inject_token _ _ kwargs = kwargs

-- [None for _ in range(n)]
unfoldable pub nones : List String → List Value
nones [] = []
nones (name ∷ names) = null ∷ nones names
