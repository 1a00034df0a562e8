-- ===== src/Functional/Polling.antt =====
-- jcsapi/tests/functional/base.py: `EC2Waiter`. The polled function's answer to call number k and the
-- time that has passed when the loop looks at the clock for the k-th time are parameters. Its three
-- loops share the part that checks the timeout and sleeps, `poll_until`, which has fuel.
pub mod Timeout
use jcsapitest.Prelude.{
  ℕ, zero, suc, ◌+◌, String, Bool, true, false, not, Option, none, some, List, [], ◌∷◌, ltb, any,
  if◌then◌else◌, Exception, exception, isinstance, Result, ok, raise,
}
use jcsapitest.Value.{Value, str, list, dict, value_eq}

-- CONF.aws.build_timeout and CONF.aws.build_interval
pub record Waiter : Type 0 where
  pub default_timeout : ℕ
  pub default_check_interval : ℕ

-- A finished loop: the calls that were made, the seconds slept in it, and the result. The five seconds
-- that two of the functions sleep before they start the clock are not counted.
pub data Run {ℓ} (S : Type ℓ) : Type ℓ where
  out_of_fuel : Run S
  finished : (polls slept : ℕ) (result : Result S) → Run S

abbrev pub failure_exception : String → Exception
failure_exception text = exception "AssertionError" text

module _ {ℓ} {S : Type ℓ} (w : Waiter) (elapsed : ℕ → ℕ) (decide : ℕ → Option (Result S))
    (timeout : Exception) where
  -- `decide k` is what the body does with the answer to call number k: it leaves the loop, or not.
  unfoldable pub poll_until : (fuel k interval slept : ℕ) → Run S
  poll_until zero k interval slept = out_of_fuel
  poll_until (suc fuel) k interval slept = elim (decide k) [
    | some result ↦ finished (suc k) slept result
    | none ↦
        let rest =
          poll_until fuel (suc k) (interval + w.default_check_interval) (slept + interval) in
        if ltb w.default_timeout (elapsed k) then finished (suc k) slept (raise timeout) else rest
  ]

-- `except exceptions.NotFound: status = "NotFound"`
unfoldable pub status_of : Result Value → Result Value
unfolding isinstance
status_of (ok status) = ok status
status_of (raise e) = if isinstance e "NotFound" then ok (str "NotFound") else raise e

abbrev pub is_member : Value → List Value → Bool
is_member s xs = any (value_eq s) xs

abbrev pub in_error_set : Value → Option (List Value) → Bool
in_error_set s none = false
in_error_set s (some xs) = is_member s xs

-- A list or a dictionary is in no set: the test raises a TypeError.
unfoldable pub is_hashable : Value → Bool
is_hashable (list xs) = false
is_hashable (dict fs) = false
is_hashable v = true

-- The body of the loop of `_state_wait`.
unfoldable pub decide_state :
    List Value → Option (List Value) → Result Value → Option (Result Value)
unfolding is_hashable
decide_state final error (raise e) = some (raise e)
decide_state final error (ok status) =
    if not (is_hashable status)
    then some (raise (exception "TypeError" "unhashable type"))
    else if is_member status final
    then some (ok status)
    else if in_error_set status error
    then some (raise (failure_exception "State changes to error state!"))
    else none

-- The body of the loop of `_state_wait_gone`: NotFound is what it waits for.
unfoldable pub decide_gone : Result Value → Option (Result (Unit {0}))
unfolding isinstance
decide_gone (ok status) = none
decide_gone (raise e) = if isinstance e "NotFound" then some (ok tt) else some (raise e)

-- The body of the loop of `wait_no_exception`.
unfoldable pub decide_no_exception : Result Value → Option (Result (Unit {0}))
unfolding isinstance
decide_no_exception (ok status) = some (ok tt)
decide_no_exception (raise e) = if isinstance e "Exception" then none else some (raise e)

module _ (w : Waiter) (elapsed : ℕ → ℕ) (f : ℕ → Result Value) where
  unfoldable pub state_wait : ℕ → List Value → Option (List Value) → Run Value
  unfolding poll_until decide_state status_of
  state_wait fuel final error =
      poll_until w elapsed (λ k. decide_state final error (status_of (f k)))
        (failure_exception "State change timeout exceeded!") fuel 0 w.default_check_interval 0

  unfoldable pub state_wait_gone : ℕ → Run (Unit {0})
  unfolding poll_until decide_gone
  state_wait_gone fuel =
      poll_until w elapsed (λ k. decide_gone (f k))
        (failure_exception "State change timeout exceeded while waiting for deleting") fuel 0
        w.default_check_interval 0

  unfoldable pub wait_no_exception : ℕ → Run (Unit {0})
  unfolding poll_until decide_no_exception
  wait_no_exception fuel =
      poll_until w elapsed (λ k. decide_no_exception (f k))
        (failure_exception "Timeout exceeded while waiting") fuel 0 w.default_check_interval 0
