-- ===== src/Retry/Checker.antt =====
-- botocore/retryhandler.py: the checkers and `RetryHandler`. A checker object is a value of
-- `Checker`, with a constructor for each class, and `check` is its `__call__`. A checker that
-- returns None counts as one that returns False: only the truth of the answer is used.
-- `absent` is None in a checker's place, which `_create_single_checker` returns for a policy
-- with neither key. None is smaller than every number, as in Python 2.
pub mod Attempts
use jcsapitest.Prelude.{
  ℕ, ◌+◌, ◌%◌, ◌^◌, String, Bool, true, false, not, ◌&&◌, Option, none, some, List, [], ◌∷◌, ltb,
  leb, ◌==◌, str_eq, any, if◌then◌else◌, Dict, get, Exception, exception, boto_error, value_error,
  isinstance, Result, ok, raise, ◌>>=◌,
}

pub record HttpResponse : Type 0 where
  pub status_code : ℕ
  pub headers : Dict String
  pub content : String

-- `response` of the handlers: the HTTP response and the parsed body's "Error" entry, if any.
pub record Response : Type 0 where
  pub http : HttpResponse
  pub error : Option (Dict String)

mutual
  pub data Checker : Type 0 where
    absent : Checker
    exception_raiser : Checker
    http_status_code : ℕ → Checker
    service_error_code : ℕ → String → Checker
    crc32_checker : String → Checker
    multi_checker : Checkers → Checker
    max_attempts : Checker → Option ℕ → List String → Checker

  pub data Checkers : Type 0 where
    nil : Checkers
    cons : Checker → Checkers → Checkers

abbrev pub type_error : Exception
type_error = exception "TypeError" "'NoneType' object is not callable"

abbrev pub checksum_error : Exception
checksum_error = boto_error "ChecksumError" "crc32"

-- attempt_number < max_attempts
abbrev pub below_max : ℕ → Option ℕ → Bool
below_max n none = false
below_max n (some m) = ltb n m

-- except self._retryable_exceptions
unfoldable pub catches : List String → Exception → Bool
unfolding any isinstance
catches names e = any (isinstance e) names

-- BaseChecker.__call__, given what the class does with a response and with an exception.
abbrev dispatch :
    (Response → Result Bool)
    → (Exception → Result Bool)
    → Option Response
    → Option Exception
    → Result Bool
dispatch on_response on_exception (some r) e = on_response r
dispatch on_response on_exception none (some e) = on_exception e
dispatch on_response on_exception none none =
    raise (value_error "Both response and caught_exception are None.")

abbrev pass : Exception → Result Bool
pass e = ok false

-- The `try` of `_should_retry`: a retryable exception counts as True.
abbrev rescue : List String → Result Bool → Result Bool
rescue names (ok b) = ok b
rescue names (raise e) = if catches names e then ok true else raise e

abbrev cap : Bool → Result Bool → Result Bool
cap below (ok b) = ok (b && below)
cap below (raise e) = raise e

abbrev non_empty : List String → Bool
non_empty [] = false
non_empty (n ∷ ns) = true

-- HTTPStatusCodeChecker._check_response
unfoldable pub check_status : ℕ → Response → Result Bool
check_status status r = ok (r.http.status_code == status)

-- ServiceErrorCodeChecker._check_response
unfoldable pub check_error_code : ℕ → String → Response → Result Bool
check_error_code status code r =
    if r.http.status_code == status
    then elim r.error [
      | none ↦ ok false
      | some error ↦ elim (get "Code" error) [ none ↦ ok false | some c ↦ ok (str_eq c code) ]
    ]
    else ok false

-- `crc32` is that of binascii, read as an unsigned number, and `int` is Python's conversion of a text,
-- which may raise.
module _ (crc32 : String → ℕ) (int : String → Result ℕ) where
  -- CRC32Checker._check_response
  unfoldable pub check_crc32 : String → Response → Result Bool
  check_crc32 header r = elim (get header r.http.headers) [
    | none ↦ ok false
    | some expected ↦ int expected >>= λ e.
        if crc32 r.http.content % 2 ^ 32 == e then ok false else raise checksum_error
  ]

  unfoldable mutual
    unfolding check_status check_error_code check_crc32 catches

    pub check : Checker → ℕ → Option Response → Option Exception → Result Bool
    check absent n r e = raise type_error
    check exception_raiser n r e = dispatch (λ _. ok false) (λ e. raise e) r e
    check (http_status_code s) n r e = dispatch (check_status s) pass r e
    check (service_error_code s c) n r e = dispatch (check_error_code s c) pass r e
    check (crc32_checker h) n r e = dispatch (check_crc32 h) pass r e
    check (multi_checker cs) n r e = check_all cs n r e
    check (max_attempts c m names) n r e =
        let answer = check c n r e in
        cap (below_max n m)
          (if non_empty names && below_max n m then rescue names answer else answer)

    -- The loop of MultiChecker: the first true answer wins, and an exception ends it.
    pub check_all : Checkers → ℕ → Option Response → Option Exception → Result Bool
    check_all nil n r e = ok false
    check_all (cons c cs) n r e =
        let rest = check_all cs n r e in check c n r e >>= λ b. if b then ok true else rest

  -- RetryHandler.__call__: the time to sleep, or none for no retry. `action` is None in Python where
  -- the configuration names no exponential delay.
  unfoldable pub retry_handler :
      Checker → Option (ℕ → Result ℕ) → ℕ → Option Response → Option Exception → Result (Option ℕ)
  unfolding check
  retry_handler checker action attempts r e = check checker attempts r e >>= λ b.
      if b
      then elim action [
        | none ↦ raise type_error
        | some delay ↦ delay attempts >>= λ d. ok (some d)
      ]
      else ok none
