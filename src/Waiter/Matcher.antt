-- ===== src/Waiter/Matcher.antt =====
-- botocore/waiter.py: `WaiterModel`, `SingleWaiterConfig` and `AcceptorConfig`. JMESPath is a library
-- that the source only calls: `compile` and `search` are parameters. A response is a dictionary.
use jcsapitest.Prelude.{
  ℕ, String, Bool, true, false, Option, none, some, List, [], ◌∷◌, ◌==◌, str_eq, if◌then◌else◌,
  Dict, get, Exception, boto_error, value_error, Result, ok, raise, ◌>>=◌,
}
use jcsapitest.Value.{Value, Items, Fields, null, str, list, dict, nil, cons, end, value_eq, get_or}

-- One entry of the "acceptors" of a waiter.
pub record AcceptorConfig : Type 0 where
  pub state : String
  pub matcher : String
  pub expected : Value
  pub argument : Option String

pub record SingleWaiterConfig : Type 0 where
  pub operation : String
  pub delay : ℕ
  pub max_attempts : ℕ
  pub acceptors : List AcceptorConfig

pub record WaiterConfig : Type 0 where
  pub version : Option ℕ
  pub waiters : Dict SingleWaiterConfig

abbrev pub waiter_config_error : String → Exception
waiter_config_error text = boto_error "WaiterConfigError" text

abbrev pub supported_version : ℕ
supported_version = 2

-- _verify_supported_version; without a version the code compares 'unknown'.
abbrev is_supported : Option ℕ → Bool
is_supported none = false
is_supported (some v) = v == supported_version

-- WaiterModel(config).get_waiter(name)
unfoldable pub get_waiter : WaiterConfig → String → Result SingleWaiterConfig
unfolding get
get_waiter config name =
    if is_supported config.version
    then elim (get name config.waiters) [ none ↦ raise (value_error name) | some w ↦ ok w ]
    else raise (waiter_config_error "Unsupported waiter version")

-- The five kinds of matcher function, over compiled expressions.
pub data Matcher {ℓ} (Expression : Type ℓ) : Type ℓ where
  path path_all path_any : Expression → Value → Matcher Expression
  status error : Value → Matcher Expression

-- A state and its matcher function.
pub record Acceptor {ℓ} (Expression : Type ℓ) : Type ℓ where
  pub state : String
  pub matcher_func : Matcher Expression

-- for element in result: all of them are, or one of them is, as expected
unfoldable pub all_equal : Items → Value → Bool
all_equal nil expected = true
all_equal (cons x xs) expected = if value_eq x expected then all_equal xs expected else false

unfoldable pub any_equal : Items → Value → Bool
any_equal nil expected = false
any_equal (cons x xs) expected = if value_eq x expected then true else any_equal xs expected

-- An empty list matches neither, and nor does a value that is no list.
unfoldable pub matches_all : Value → Value → Bool
unfolding all_equal
matches_all (list (cons x xs)) expected = all_equal (cons x xs) expected
matches_all v expected = false

unfoldable pub matches_any : Value → Value → Bool
unfolding any_equal
matches_any (list (cons x xs)) expected = any_equal (cons x xs) expected
matches_any v expected = false

module _ {ℓ} {Expression : Type ℓ} (compile : Option String → Result Expression) where
  -- _create_matcher_func
  unfoldable pub create_matcher_func : AcceptorConfig → Result (Matcher Expression)
  create_matcher_func c =
      if str_eq c.matcher "path"
      then (compile c.argument >>= λ e. ok (path e c.expected))
      else if str_eq c.matcher "pathAll"
      then (compile c.argument >>= λ e. ok (path_all e c.expected))
      else if str_eq c.matcher "pathAny"
      then (compile c.argument >>= λ e. ok (path_any e c.expected))
      else if str_eq c.matcher "status"
      then ok (status c.expected)
      else if str_eq c.matcher "error"
      then ok (error c.expected)
      else raise (waiter_config_error "Unknown acceptor")

  -- SingleWaiterConfig.acceptors
  unfoldable pub create_acceptors : List AcceptorConfig → Result (List (Acceptor Expression))
  unfolding create_matcher_func
  create_acceptors [] = ok []
  create_acceptors (c ∷ cs) =
      let rest = create_acceptors cs in
      create_matcher_func c >>= λ m.
      rest >>= λ others. ok (record { state = c.state; matcher_func = m } ∷ others)

module _ {ℓ} {Expression : Type ℓ} (search : Expression → Fields → Value) where
  -- acceptor_matches(response)
  unfoldable pub acceptor_matches : Matcher Expression → Fields → Result Bool
  unfolding value_eq get_or matches_all matches_any
  acceptor_matches (path e expected) r = ok (value_eq (search e r) expected)
  acceptor_matches (path_all e expected) r = ok (matches_all (search e r) expected)
  acceptor_matches (path_any e expected) r = ok (matches_any (search e r) expected)
  acceptor_matches (status expected) r =
      get_or "ResponseMetadata" (dict end) (dict r) >>= λ metadata.
      get_or "HTTPStatusCode" null metadata >>= λ code. ok (value_eq code expected)
  acceptor_matches (error expected) r = get_or "Error" (dict end) (dict r) >>= λ found.
      get_or "Code" (str "") found >>= λ code. ok (value_eq code expected)

  -- The for loop over the acceptors: the state of the first that matches.
  unfoldable pub first_state : List (Acceptor Expression) → Fields → Result (Option String)
  unfolding acceptor_matches
  first_state [] r = ok none
  first_state (a ∷ others) r =
      let rest = first_state others r in
      acceptor_matches a.matcher_func r >>= λ b. if b then ok (some a.state) else rest
