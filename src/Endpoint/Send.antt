-- ===== src/Endpoint/Send.antt =====
-- botocore/endpoint.py: `_send_request`, `_get_response` and `_needs_retry` of `Endpoint`.
-- The HTTP session, the request objects and the parser are the fields of `Transport`. The
-- handlers of the event needs-retry come as a list, in the order in which the emitter calls them.
pub mod Rounds
use text.Mathlib.Text.{find?}
use jcsapitest.Prelude.{
  ℕ, zero, suc, ◌+◌, String, Bool, true, false, ◌&&◌, Option, none, some, List, [], ◌∷◌, ◌++◌,
  if◌then◌else◌, Exception, isinstance, boto_error, Result, ok, raise, ◌>>=◌, ◌>>◌,
}
use jcsapitest.Retry.Checker.{HttpResponse, Response}

-- What the loop calls, by the number of the attempt where the outside world answers.
pub record Transport : Type 1 where
  pub Request : Type 0
  pub create_request : ℕ → Result Request
  pub reset_stream : Request → Result (Unit {0})
  pub send : Request → ℕ → Result HttpResponse
  pub parse : HttpResponse → Result Response
  -- e.request.url, for an exception that has a request
  pub request_url : Exception → Option String

abbrev pub Handler : Type 0
Handler = ℕ → Option Response → Option Exception → Result (Option ℕ)

-- A finished run: the attempts that were made, the sleeps between them, and the result.
-- `out_of_fuel` stands for a loop that did not end within the fuel.
pub data Run : Type 0 where
  out_of_fuel : Run
  done : (attempts : ℕ) (sleeps : List ℕ) (result : Result (Option Response)) → Run

-- first_non_none_response, on the handlers' responses alone.
unfoldable pub first_non_none {ℓ} : {A : Type ℓ} → List (Option A) → Option A
first_non_none [] = none
first_non_none (none ∷ rs) = first_non_none rs
first_non_none (some a ∷ rs) = some a

-- The emitter calls every handler, and an exception of one goes up.
unfoldable pub emit :
    List Handler → ℕ → Option Response → Option Exception → Result (List (Option ℕ))
emit [] n r e = ok []
emit (h ∷ hs) n r e =
    let rest = emit hs n r e in h n r e >>= λ a. rest >>= λ answers. ok (a ∷ answers)

-- _needs_retry: the time to sleep before the next attempt, or none.
unfoldable pub needs_retry :
    List Handler → ℕ → Option Response → Option Exception → Result (Option ℕ)
unfolding emit first_non_none
needs_retry hs n r e = emit hs n r e >>= λ rs. ok (first_non_none rs)

-- if exception is not None: raise exception
unfoldable pub finish : Option Response → Option Exception → Result (Option Response)
finish r none = ok r
finish r (some e) = raise e

module _ (t : Transport) where
  open t use {Request, create_request, reset_stream, send, parse, request_url}

  -- 'gaierror' in str(e) and e.request is not None, with the better exception
  unfoldable pub connection_failure : Exception → Exception
  connection_failure e = elim (find? e.message "gaierror") [
    | none ↦ e
    | some i ↦ elim (request_url e) [
      | none ↦ e
      | some url ↦ boto_error "EndpointConnectionError" url
    ]
  ]

  unfoldable pub get_response : Request → ℕ → Result (Option Response × Option Exception)
  unfolding connection_failure isinstance
  get_response request n = elim (send request n) [
    | ok http ↦ parse http >>= λ r. ok (some r, none)
    | raise e ↦
        if isinstance e "ConnectionError"
        then ok (none, some (connection_failure e))
        else if isinstance e "Exception"
        then ok (none, some e)
        else raise e
  ]

  -- The body of the loop: a new request for the next attempt, and its outcome.
  unfoldable pub resend : Request → ℕ → Result (Request × (Option Response × Option Exception))
  unfolding get_response
  resend request n = do
    reset_stream request
    request' ← create_request n
    outcome ← get_response request' n
    ok (request', outcome)

  -- The first attempt.
  unfoldable pub first : Result (Request × (Option Response × Option Exception))
  unfolding get_response
  first = do request ← create_request 1; outcome ← get_response request 1; ok (request, outcome)

  module _ (handlers : List Handler) where
    -- The while loop, after attempt `n` and the sleeps so far.
    unfoldable pub loop : ℕ → ℕ → Request → Option Response × Option Exception → List ℕ → Run
    unfolding needs_retry finish resend
    loop zero n request outcome slept = out_of_fuel
    loop (suc fuel) n request outcome slept = elim (needs_retry handlers n outcome.0 outcome.1) [
      | raise x ↦ done n slept (raise x)
      | ok none ↦ done n slept (finish outcome.0 outcome.1)
      | ok (some d) ↦ elim (resend request (suc n)) [
        | raise x ↦ done (suc n) (slept ++ d ∷ []) (raise x)
        | ok (request', outcome') ↦ loop fuel (suc n) request' outcome' (slept ++ d ∷ [])
      ]
    ]

    unfoldable pub send_request : (fuel : ℕ) → Run
    unfolding loop first
    send_request fuel = elim first [
      | raise x ↦ done 1 [] (raise x)
      | ok (request, outcome) ↦ loop fuel 1 request outcome []
    ]
