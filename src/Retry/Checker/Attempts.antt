-- ===== src/Retry/Checker/Attempts.antt =====
-- The bound on attempts of botocore/retryhandler.py.
use jcsapitest.Prelude.{ℕ, ◌≤◌, String, ◌≢◌, true, Option, some, List, arith, Exception, Result, ok}
use jcsapitest.Retry.Checker.{Response, Checker, max_attempts, check, retry_handler}

module _ (crc32 : String → ℕ) (int : String → Result ℕ) where
  -- At the last attempt the decorator never asks for a retry: the inner checker's exception goes
  -- up, or the answer is False.
  pub check-max_attempts_last :
      (c : Checker) (m n : ℕ) (names : List String) (r : Option Response) (e : Option Exception)
      → m ≤ n
      → check crc32 int (max_attempts c (some m) names) n r e ≢ ok true
  unfolding check
  check-max_attempts_last c m n names r e h = ground arith

  -- So the handler asks for no sleep from then on.
  pub retry_handler_last :
      (c : Checker) (m n : ℕ) (names : List String) (action : Option (ℕ → Result ℕ))
      (r : Option Response) (e : Option Exception) (d : ℕ)
      → m ≤ n
      → retry_handler crc32 int (max_attempts c (some m) names) action n r e ≢ ok (some d)
  unfolding retry_handler
  retry_handler_last c m n names action r e d h =
      ground (arith, check-max_attempts_last c m n names r e h)
