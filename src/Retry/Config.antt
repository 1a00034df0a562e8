-- ===== src/Retry/Config.antt =====
-- botocore/retryhandler.py: from a retry configuration to the checker and the action. The
-- configuration's dictionaries are records, with an Option where the code tests for a key.
pub mod Built
pub mod Policies
pub mod Sockets
use jcsapitest.Prelude.{
  ℕ, String, Bool, true, false, Option, none, some, List, [], ◌∷◌, ◌++◌, str_eq, if◌then◌else◌,
  Dict, get, exception, key_error, Result, ok, raise, ◌>>=◌,
}
use jcsapitest.Retry.Delay.{Base, create_exponential_delay_function}
use jcsapitest.Retry.Checker.{
  Checker, Checkers, absent, exception_raiser, http_status_code, service_error_code, crc32_checker,
  multi_checker, max_attempts, nil, cons,
}

-- applies_when['response']
pub record ResponseRule : Type 0 where
  pub error_code : Option String
  pub status : Option ℕ
  pub crc32body : Option String

-- applies_when
pub record Policy : Type 0 where
  pub response : Option ResponseRule
  pub socket_errors : Option (List String)

pub record DelayConfig : Type 0 where
  pub kind : String
  pub base : Base
  pub growth_factor : ℕ

-- config['__default__'] and config[operation_name]
pub record Section : Type 0 where
  pub policies : Option (List Policy)
  pub max : Option ℕ
  pub delay : Option DelayConfig

pub record Config : Type 0 where
  pub default : Option Section
  pub operations : Dict Section

-- EXCEPTION_MAP
unfoldable pub exception_map : Dict (List String)
exception_map =
    (
      "GENERAL_CONNECTION_ERROR",
      "ConnectionError" ∷ "ClosedPoolError" ∷ "Timeout" ∷ "EndpointConnectionError" ∷ [],
    )
    ∷ []

-- d[k] where the Option says whether the key is there.
abbrev pub required {ℓ} : {A : Type ℓ} → String → Option A → Result A
required key none = raise (key_error key)
required key (some a) = ok a

-- In the last branch the code means a ValueError, and its message names an undefined `config`.
unfoldable pub create_single_response_checker : ResponseRule → Result Checker
create_single_response_checker r = elim r.error_code [
  | some code ↦ required "http_status_code" r.status >>= λ s. ok (service_error_code s code)
  | none ↦ elim r.status [
    | some s ↦ ok (http_status_code s)
    | none ↦ elim r.crc32body [
      | some header ↦ ok (crc32_checker header)
      | none ↦ raise (exception "NameError" "global name 'config' is not defined")
    ]
  ]
]

unfoldable pub create_single_checker : Policy → Result Checker
unfolding create_single_response_checker
create_single_checker p = elim p.response [
  | some r ↦ create_single_response_checker r
  | none ↦ elim p.socket_errors [ some names ↦ ok exception_raiser | none ↦ ok absent ]
]

unfoldable pub exceptions_of : List String → Result (List String)
unfolding get exception_map
exceptions_of [] = ok []
exceptions_of (name ∷ names) =
    let rest = exceptions_of names in
    required name (get name exception_map) >>= λ found. rest >>= λ more. ok (found ++ more)

abbrev pub crc32_of : Option ResponseRule → Option String
crc32_of none = none
crc32_of (some r) = r.crc32body

-- _extract_retryable_exception; no answer and an empty list extend the list in the same way.
unfoldable pub extract_retryable_exception : Policy → Result (List String)
unfolding exceptions_of
extract_retryable_exception p = elim (crc32_of p.response) [
  | some header ↦ ok ("ChecksumError" ∷ [])
  | none ↦ elim p.socket_errors [ some names ↦ exceptions_of names | none ↦ ok [] ]
]

-- The loop over the policies of a section: its checkers, and the exceptions to retry.
unfoldable pub from_policies : List Policy → Result (Checkers × List String)
unfolding create_single_checker extract_retryable_exception
from_policies [] = ok (nil, [])
from_policies (p ∷ ps) =
    let rest = from_policies ps in
    create_single_checker p >>= λ c.
    extract_retryable_exception p >>= λ names. rest >>= λ (cs, more). ok (cons c cs, names ++ more)

abbrev pub append : Checkers → Checkers → Checkers
append nil ds = ds
append (cons c cs) ds = cons c (append cs ds)

-- A lone checker is decorated without the retryable exceptions.
abbrev pub decorate : Checkers → Option ℕ → List String → Checker
decorate (cons c nil) m names = max_attempts c m []
decorate cs m names = max_attempts (multi_checker cs) m names

abbrev pub default_policies : Option Section → Result (List Policy)
default_policies none = ok []
default_policies (some s) = elim s.policies [ none ↦ ok [] | some ps ↦ ok ps ]

abbrev pub default_max : Option Section → Result (Option ℕ)
default_max none = ok none
default_max (some s) = required "max_attempts" s.max >>= λ m. ok (some m)

abbrev pub operation_policies : Option String → Dict Section → Result (List Policy)
operation_policies none ops = ok []
operation_policies (some name) ops = elim (get name ops) [
  | none ↦ ok []
  | some s ↦ required "policies" s.policies
]

unfoldable pub create_checker_from_retry_config : Config → Option String → Result Checker
unfolding get from_policies
create_checker_from_retry_config config operation = default_policies config.default >>= λ ps.
    default_max config.default >>= λ m. from_policies ps >>= λ (cs, names).
    operation_policies operation config.operations >>= λ qs.
    from_policies qs >>= λ (ds, more). ok (decorate (append cs ds) m (names ++ more))

-- No action for a delay of another type.
unfoldable pub create_retry_action_from_config :
    (random : ℕ → ℕ) → Config → Result (Option (ℕ → Result ℕ))
unfolding create_exponential_delay_function
create_retry_action_from_config random config = required "__default__" config.default >>= λ s.
    required "delay" s.delay >>= λ d.
    if str_eq d.kind "exponential"
    then ok (some (create_exponential_delay_function random d.base d.growth_factor))
    else ok none

-- The parts that `RetryHandler` holds.
unfoldable pub create_retry_handler :
    (random : ℕ → ℕ) → Config → Option String → Result (Checker × Option (ℕ → Result ℕ))
unfolding create_checker_from_retry_config create_retry_action_from_config
create_retry_handler random config operation =
    create_checker_from_retry_config config operation >>= λ checker.
    create_retry_action_from_config random config >>= λ action. ok (checker, action)
