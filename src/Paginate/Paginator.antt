-- ===== src/Paginate/Paginator.antt =====
-- botocore/paginate.py: `PaginatorModel`, and `Paginator`, which reads the configuration of a listing and makes
-- its page iterator. `compile` is jmespath.compile, which refuses some texts; an expression stays its
-- text. A page iterator without a result key, or with a page size and no limit key, raises its
-- TypeError or IndexError with the first page, and here when it is made.
use jcsapitest.Prelude.{
  ◌/◌, ◌+◌, String, true, false, Option, none, some, List, [], ◌∷◌, Dict, get, str_eq,
  if◌then◌else◌, key_error, value_error, type_error, index_error, attribute_error, Result, ok,
  raise, ◌>>=◌,
}
use jcsapitest.Value.Int.{ℤ, pos, negsuc}
use jcsapitest.Value.{Value, Items, Fields, end, field, find_field, null}
use jcsapitest.Text.{int_of, negate}
use jcsapitest.Paginate.State.{PageIterator}

-- PaginatorModel.get_paginator
unfoldable pub get_paginator : Dict Fields → String → Result Fields
unfolding get
get_paginator configs operation_name = elim (get operation_name configs) [
  | none ↦ raise (value_error "Paginator for operation does not exist")
  | some config ↦ ok config
]

-- config[key], and config.get(key), where None is as good as no value
unfoldable pub required : String → Fields → Result Value
unfolding find_field
required key config = elim (find_field key config) [ none ↦ raise (key_error key) | some v ↦ ok v ]

unfoldable pub optional : String → Fields → Value
unfolding find_field
optional key config = elim (find_field key config) [ none ↦ null | some v ↦ v ]

unfoldable pub texts : Items → Result (List String)
texts Items.nil = ok []
texts (Items.cons (Value.str s) vs) = texts vs >>= λ rest. ok (s ∷ rest)
texts (Items.cons v vs) = raise (type_error "expected string")

-- A value that is no list counts as the list of it.
unfoldable pub as_texts : Value → Result (List String)
unfolding texts
as_texts (Value.list vs) = texts vs
as_texts (Value.str s) = ok (s ∷ [])
as_texts v = raise (type_error "expected string")

abbrev pub keyword : Value → Result (Option String)
keyword Value.null = ok none
keyword (Value.str s) = ok (some s)
keyword v = raise (type_error "keywords must be strings")

-- int(v), which cuts off the fraction of a float
unfoldable pub int_of_value : Value → Result ℤ
unfolding int_of
int_of_value (Value.int z) = ok z
int_of_value (Value.bool true) = ok (pos 1)
int_of_value (Value.bool false) = ok (pos 0)
int_of_value (Value.float (pos n)) = ok (pos (n / 1000))
int_of_value (Value.float (negsuc n)) = ok (negate ((n + 1) / 1000))
int_of_value (Value.str s) = int_of s
int_of_value v = raise (type_error "int() argument must be a string or a number")

abbrev pub optional_int : Value → Result (Option ℤ)
optional_int Value.null = ok none
optional_int v = int_of_value v >>= λ z. ok (some z)

-- kwargs.pop(key, None)
unfoldable pub without : String → Fields → Fields
without key Fields.end = end
without key (Fields.field k v fs) =
    let rest = without key fs in if str_eq k key then rest else field k v rest

-- The result keys that are not the primary one
unfoldable pub secondary_keys : String → List String → List String
secondary_keys primary [] = []
secondary_keys primary (e ∷ es) =
    let rest = secondary_keys primary es in if str_eq e primary then rest else e ∷ rest

unfoldable pub split_result_keys : List String → Result (String × List String)
unfolding secondary_keys
split_result_keys [] = raise (index_error "list index out of range")
split_result_keys (e ∷ es) = ok (e, secondary_keys e es)

module _ (compile : String → Result String) where
  unfoldable pub compile_all : List String → Result (List String)
  compile_all [] = ok []
  compile_all (e ∷ es) = let rest = compile_all es in compile e >>= λ c. rest >>= λ cs. ok (c ∷ cs)

  -- _get_more_results_token
  unfoldable pub get_more_results_token : Value → Result (Option String)
  get_more_results_token Value.null = ok none
  get_more_results_token (Value.str e) = compile e >>= λ c. ok (some c)
  get_more_results_token v = raise (type_error "expected string")

  -- _get_non_aggregate_keys, for a list of texts
  unfoldable pub get_non_aggregate_keys : Option Value → Result (List String)
  unfolding texts compile_all
  get_non_aggregate_keys none = ok []
  get_non_aggregate_keys (some (Value.list vs)) = texts vs >>= λ es. compile_all es
  get_non_aggregate_keys (some v) = raise (type_error "object is not iterable")

  -- _get_result_keys
  unfoldable pub get_result_keys : Value → Result (List String)
  unfolding as_texts compile_all
  get_result_keys Value.null = raise (type_error "object has no attribute '__getitem__'")
  get_result_keys v = as_texts v >>= λ es. compile_all es

  abbrev pub page_limit : Option String → Option ℤ → Result String
  page_limit (some key) size = ok key
  page_limit none none = ok ""
  page_limit none (some n) = raise (type_error "keywords must be strings")

  abbrev pub starting : Value → Result (Option String)
  starting Value.null = ok none
  starting (Value.str s) = ok (some s)
  starting v = raise (attribute_error "split")

  -- Paginator(config).paginate(**kwargs): the iterator, with the arguments that are left.
  unfoldable pub paginate : Fields → Fields → Result (PageIterator × Fields)
  unfolding required optional as_texts compile_all get_more_results_token get_non_aggregate_keys
      get_result_keys split_result_keys int_of_value without find_field
  paginate config kwargs = required "output_token" config >>= λ output.
      as_texts output >>= λ outputs. compile_all outputs >>= λ output_token.
      required "input_token" config >>= λ input. as_texts input >>= λ input_token.
      get_more_results_token (optional "more_results" config) >>= λ more_results.
      get_non_aggregate_keys (find_field "non_aggregate_keys" config) >>= λ non_aggregate_keys.
      get_result_keys (optional "result_key" config) >>= λ keys.
      split_result_keys keys >>= λ result_keys. keyword (optional "limit_key" config) >>= λ limit.
      optional_int (optional "max_items" kwargs) >>= λ max_items.
      optional_int (optional "page_size" kwargs) >>= λ page_size.
      page_limit limit page_size >>= λ limit_key.
      starting (optional "starting_token" kwargs) >>= λ starting_token. ok (
        record {
          input_token = input_token;
          output_token = output_token;
          more_results = more_results;
          primary_result_key = result_keys.0;
          secondary_result_keys = result_keys.1;
          non_aggregate_keys = non_aggregate_keys;
          limit_key = limit_key;
          max_items = max_items;
          starting_token = starting_token;
          page_size = page_size;
        },
        without "starting_token" (without "page_size" (without "max_items" kwargs)),
      )
