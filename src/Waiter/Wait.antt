-- ===== src/Waiter/Wait.antt =====
-- botocore/waiter.py: `NormalizedOperationMethod`, `LegacyOperationMethod` and `Waiter.wait`. What the
-- service answers to the call number n is a parameter. The loop has fuel.
pub mod Verdict
use jcsapitest.Prelude.{
  ℕ, zero, suc, ◌+◌, String, Bool, true, false, Option, none, some, List, [], ◌∷◌, leb, str_eq,
  if◌then◌else◌, Exception, boto_error, Result, ok, raise, ◌>>=◌,
}
use jcsapitest.Value.{Value, Fields, str, dict, end, field, has_field}
use jcsapitest.Waiter.Matcher.{SingleWaiterConfig, Acceptor, create_acceptors, first_state}

-- How a call of the client or of an operation object ends: with a parsed response, with a ClientError,
-- which carries one, or with another exception, which may have an error code and a message.
pub data Outcome : Type 0 where
  returned : Fields → Outcome
  client_error : Exception → Fields → Outcome
  failed : Exception → Option (String × String) → Outcome

unfoldable pub normalized_operation : Outcome → Result Fields
normalized_operation (returned r) = ok r
normalized_operation (client_error e r) = ok r
normalized_operation (failed e attributes) = raise e

unfoldable pub legacy_operation : Outcome → Result Fields
legacy_operation (returned r) = ok r
legacy_operation (client_error e r) = raise e
legacy_operation (failed e none) = raise e
legacy_operation (failed e (some (code, message))) =
    ok (field "Error" (dict (field "Code" (str code) (field "Message" (str message) end))) end)

abbrev pub waiter_error : String → Exception
waiter_error reason = boto_error "WaiterError" reason

-- A finished wait: the calls that were made, how often it slept, and the result.
pub data Run : Type 0 where
  out_of_fuel : Run
  finished : (calls sleeps : ℕ) (result : Result (Unit {0})) → Run

-- The state after the acceptors: without a match an error response ends the wait.
unfoldable pub next_state : String → Option String → Fields → Result String
unfolding has_field
next_state current (some state) r = ok state
next_state current none r =
    if has_field "Error" r then raise (waiter_error "Unexpected error encountered.") else ok current

-- What the state says about going on: none to sleep and call again.
unfoldable pub conclude : String → Option (Result (Unit {0}))
conclude state =
    if str_eq state "success"
    then some (ok tt)
    else if str_eq state "failure"
    then some (raise (waiter_error "Waiter encountered a terminal failure state"))
    else none

module _ {ℓ} {Expression : Type ℓ} (search : Expression → Fields → Value)
    (acceptors : List (Acceptor Expression)) (max_attempts : ℕ)
    (operation : ℕ → Result Fields) where
  -- One round: the new state, or the end of the wait.
  unfoldable pub round : String → ℕ → Result String
  unfolding next_state first_state
  round current n =
      operation n >>= λ r. first_state search acceptors r >>= λ found. next_state current found r

  -- `n` calls were made so far, with a sleep after each.
  unfoldable pub loop : ℕ → ℕ → String → Run
  unfolding round conclude
  loop zero n current = out_of_fuel
  loop (suc fuel) n current = elim (round current n) [
    | raise e ↦ finished (suc n) n (raise e)
    | ok state ↦ elim (conclude state) [
      | some result ↦ finished (suc n) n result
      | none ↦
          let rest = loop fuel (suc n) state in
          if leb max_attempts (suc n)
          then finished (suc n) n (raise (waiter_error "Max attempts exceeded"))
          else rest
    ]
  ]

-- Waiter.wait: the acceptors are made once, in front of the loop.
module _ {ℓ} {Expression : Type ℓ} (compile : Option String → Result Expression)
    (search : Expression → Fields → Value) where
  unfoldable pub wait : (fuel : ℕ) → SingleWaiterConfig → (ℕ → Result Fields) → Run
  unfolding loop create_acceptors
  wait fuel config operation = elim (create_acceptors compile config.acceptors) [
    | raise e ↦ finished 0 0 (raise e)
    | ok acceptors ↦ loop search acceptors config.max_attempts operation fuel 0 "waiting"
  ]
