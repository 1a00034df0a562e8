-- ===== src/Functional/States/Gone.antt =====
-- What the polled functions of jcsapi/tests/functional/base.py say of the service's answers.
use jcsapitest.Prelude.{
  ℕ, suc, String, ◌≡◌, ◌≢◌, inl, inr, refl, exception, key_error, Option-cases, true, false, some,
  List, arith, isinstance, Bool-cases, Result-cases, Exception, Result, ok, raise, any, ◌==◌,
}
use jcsapitest.Value.{Value, str, list, dict, nil, cons, find_field, value_eq}
use jcsapitest.Functional.Polling.{
  Waiter, finished, decide_gone, state_wait_gone, failure_exception,
}
use jcsapitest.Functional.Polling.Timeout.{poll_until_sound}
use jcsapitest.Functional.States.{
  Reply, item_of, head_of, otherwise, response_exception, bad_request, get_password_data,
  vpc_get_state, is_there,
}

-- The answer is an error of status 400 with a code.
pub record SaysMissing (code : String) (r : Reply) : Type 0 where
  pub status : r.status_code ≡ 400
  pub error : Value
  pub has_error : item_of "Error" r.body ≡ ok error
  pub found : Value
  pub has_code : item_of "Code" error ≡ ok found
  pub same : value_eq found (str code) ≡ true

otherwise-ne-ok :
    (statuses : List ℕ) (code : String) (r : Reply) (v : Value) → otherwise statuses code r ≢ ok v
unfolding otherwise
otherwise-ne-ok statuses code r v h = ground arith

-- The password of an instance is never returned: the call raises on every answer of the service.
pub get_password_data_raises : (r : Reply) (v : Value) → get_password_data r ≢ ok v
unfolding get_password_data
get_password_data_raises r v h =
    ground (arith, otherwise-ne-ok bad_request "InvalidInstanceID.NotFound" r v)

-- What the accesses to the answer raise is no NotFound.
same_error :
    (a e : Exception)
    → ◌≡◌ {A = Result Value} (raise a) (raise e)
    → isinstance a "NotFound" ≡ false
    → isinstance e "NotFound" ≡ false
same_error a e h k = let same : a ≡ e = cc in rw (same) at k

item_of-error :
    (k : String) (v : Value) (e : Exception)
    → item_of k v ≡ raise e
    → isinstance e "NotFound" ≡ false
unfolding item_of isinstance
item_of-error k (dict fs) e h = elim (Option-cases (find_field k fs)) [
  | inl missing ↦ same_error (key_error k) e (rw (missing, item_of) at h) refl
  | inr (v, there) ↦ cc (rw (there, item_of) at h)
]
item_of-error k v e h = same_error (exception "TypeError" k) e h refl

head_of-error : (v : Value) (e : Exception) → head_of v ≡ raise e → isinstance e "NotFound" ≡ false
unfolding head_of isinstance
head_of-error (list (cons x xs)) e h = cc
head_of-error (list nil) e h =
    same_error (exception "IndexError" "list index out of range") e h refl
head_of-error v e h = same_error (exception "TypeError" "0") e h refl

is_there-error :
    (c : String) (v : Value) (e : Exception)
    → is_there c v ≡ raise e
    → isinstance e "NotFound" ≡ false
is_there-error c v e h = elim (Result-cases (item_of c v)) [
  | inl (x, missing) ↦ same_error x e (rw (missing) at h) (item_of-error c v x missing)
  | inr (w, there) ↦ elim (Result-cases (head_of w)) [
    | inl (x, empty) ↦ same_error x e (rw (there, empty) at h) (head_of-error w x empty)
    | inr (y, found) ↦ cc (rw (there, found) at h)
  ]
]

response_exception-other : isinstance response_exception "NotFound" ≡ false
unfolding isinstance
response_exception-other = refl

-- A NotFound of `otherwise` comes from an answer that says so.
otherwise-missing :
    (code : String) (r : Reply) (e : Exception)
    → otherwise bad_request code r ≡ raise e
    → isinstance e "NotFound" ≡ true
    → SaysMissing code r
unfolding otherwise any
otherwise-missing code r e h k = elim (Bool-cases (r.status_code == 400)) [
  | inr other ↦
      cc (same_error response_exception e (rw (other, otherwise) at h) response_exception-other)
  | inl bad ↦ elim (Result-cases (item_of "Error" r.body)) [
    | inl (x, none_there) ↦ cc (
        same_error x e (rw (bad, none_there, otherwise) at h)
          (item_of-error "Error" r.body x none_there))
    | inr (error, has_error) ↦ elim (Result-cases (item_of "Code" error)) [
      | inl (x, none_there) ↦ cc (
          same_error x e (rw (bad, has_error, none_there, otherwise) at h)
            (item_of-error "Code" error x none_there))
      | inr (found, has_code) ↦ elim (Bool-cases (value_eq found (str code))) [
        | inl same ↦ record {
          status = ground arith;
          error = error;
          has_error = has_error;
          found = found;
          has_code = has_code;
          same = same;
        }
        | inr differs ↦ cc (
            same_error response_exception e (rw (bad, has_error, has_code, differs, otherwise) at h)
              response_exception-other)
      ]
    ]
  ]
]

vpc-missing :
    (r : Reply) (e : Exception)
    → vpc_get_state r ≡ raise e
    → isinstance e "NotFound" ≡ true
    → SaysMissing "InvalidVpcID.NotFound" r
unfolding vpc_get_state
vpc-missing r e h k = elim (Bool-cases (r.status_code == 200)) [
  | inl fine ↦ cc (is_there-error "Vpcs" r.body e (rw (fine, vpc_get_state) at h))
  | inr other ↦ otherwise-missing "InvalidVpcID.NotFound" r e (rw (other, vpc_get_state) at h) k
]

decide_gone-ok :
    (r : Result Value) (u : Unit {0})
    → decide_gone r ≡ some (ok u)
    → (e : Exception) × (r ≡ raise e) × (isinstance e "NotFound" ≡ true)
unfolding decide_gone
decide_gone-ok (ok v) u h = cc
decide_gone-ok (raise e) u h = (e, refl, ground arith)

-- Waiting for a VPC to go away returns only after a call that the service answered with status 400 and the
-- code InvalidVpcID.NotFound, whatever its answers, the clock and the fuel.
pub state_wait_gone-SaysMissing :
    (w : Waiter) (elapsed : ℕ → ℕ) (replies : ℕ → Reply) (fuel polls slept : ℕ)
    → state_wait_gone w elapsed (λ k. vpc_get_state (replies k)) fuel ≡ finished polls slept (ok tt)
    → (last : ℕ) × (polls ≡ suc last) × SaysMissing "InvalidVpcID.NotFound" (replies last)
unfolding state_wait_gone
state_wait_gone-SaysMissing w elapsed replies fuel polls slept h =
    let (last, p, le, left, quiet) =
      poll_until_sound w elapsed (λ k. decide_gone (vpc_get_state (replies k)))
        (failure_exception "State change timeout exceeded while waiting for deleting") fuel 0
        w.default_check_interval 0 polls slept tt h in
    let (e, raised, missing) = decide_gone-ok (vpc_get_state (replies last)) tt left in
    (last, p, vpc-missing (replies last) e raised missing)
