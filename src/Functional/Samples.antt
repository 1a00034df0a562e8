-- ===== src/Functional/Samples.antt =====
-- A volume that becomes available, as the waiters of jcsapi/tests/functional/base.py see it.
use jcsapitest.Prelude.{
  raise, List, if◌then◌else◌, str_eq, exception, get, ℕ, zero, suc, ◌≤◌, String, ◌≡◌, refl, none,
  [], ◌∷◌, arith, Result, ok,
}
use jcsapitest.Value.{Value, str, list, dict, end, field, nil, cons}
use jcsapitest.Functional.Polling.{
  Waiter, finished, poll_until, state_wait, state_wait_gone, status_of,
}
use jcsapitest.Functional.Polling.Timeout.{Ends, IsTimely, slept_before, state_wait-Ends}
use jcsapitest.Functional.Trash.{
  Cleanup, set_up, clean_up, clean_up_item, remove_at, cleanup_waiters, object_id,
}
use jcsapitest.Functional.Trash.Order.{Operation, adds, cancels, perform_all, clean_up-pending}
use jcsapitest.Functional.States.{
  item_of, Reply, vpc_get_state, volume_get_state, get_password_data,
}
use jcsapitest.Functional.States.Gone.{SaysMissing, state_wait_gone-SaysMissing}

abbrev waiter : Waiter
waiter = record { default_timeout = 10; default_check_interval = 2 }

-- A service that answers at once.
abbrev clock : ℕ → ℕ
clock k = slept_before 2 k

on_time : (k : ℕ) → slept_before 2 k ≤ clock k
on_time k = omega arith

abbrev volume : String → Reply
volume state = record {
  status_code = 200;
  body = dict (field "Volumes" (list (cons (dict (field "State" (str state) end)) nil)) end);
}

abbrev describe : ℕ → Result Value
describe zero = volume_get_state (volume "creating")
describe (suc k) = volume_get_state (volume "available")

abbrev deleted : Reply
deleted = record {
  status_code = 404;
  body = dict (field "Error" (dict (field "Code" (str "InvalidVolume.NotFound") end)) end);
}

abbrev gone : ℕ → Result Value
gone zero = volume_get_state (volume "deleting")
gone (suc k) = volume_get_state deleted

program : Unit {0}
unfolding volume_get_state get_password_data state_wait state_wait_gone poll_until status_of
program = tt

gone-run : state_wait_gone waiter clock gone 12 ≡ finished 2 2 (ok tt)
unfolding program
gone-run = refl

state_wait-run :
    state_wait waiter clock describe 12 (str "available" ∷ []) none
    ≡ finished 2 2 (ok (str "available"))
unfolding program
state_wait-run = refl

state_wait-Ends_example :
    Ends (IsTimely waiter) (state_wait waiter clock describe 12 (str "available" ∷ []) none)
state_wait-Ends_example =
    state_wait-Ends waiter clock describe on_time (omega arith) 12 (str "available" ∷ []) none
      (omega arith)

abbrev cleanup : String → String → Cleanup
cleanup name id = record { name = name; kwargs = dict (field "VpcId" (str id) end) }

abbrev delete : Cleanup → Result Reply
delete c =
    if str_eq c.name "Fails"
    then raise (exception "EC2ResponceException" "")
    else ok (record { status_code = 200; body = dict end })

abbrev wait_delete : String → Value → Result (Unit {0})
wait_delete name id = ok tt

abbrev history : List Operation
history =
    adds (cleanup "DeleteVpc" "vpc-0")
    ∷ adds (cleanup "Fails" "vpc-1")
    ∷ adds (cleanup "Other" "vpc-2")
    ∷ cancels 2
    ∷ adds (cleanup "DeleteVpc" "vpc-3")
    ∷ []

clean_up-pending_example :
    clean_up delete wait_delete (perform_all history set_up).bin
    ≡ ok (record {
      run =
          cleanup "DeleteVpc" "vpc-3" ∷ cleanup "Fails" "vpc-1" ∷ cleanup "DeleteVpc" "vpc-0" ∷ [];
      fail_count = 1;
      bin = [];
    })
unfolding clean_up_item remove_at cleanup_waiters object_id item_of get
clean_up-pending_example = clean_up-pending delete wait_delete history

abbrev vpc_replies : ℕ → Reply
vpc_replies zero = record {
  status_code = 200;
  body = dict (field "Vpcs" (list (cons (dict (field "VpcId" (str "vpc-0") end)) nil)) end);
}
vpc_replies (suc k) = record {
  status_code = 400;
  body = dict (field "Error" (dict (field "Code" (str "InvalidVpcID.NotFound") end)) end);
}

vpc_gone :
    state_wait_gone waiter clock (λ k. vpc_get_state (vpc_replies k)) 12 ≡ finished 2 2 (ok tt)
unfolding program vpc_get_state
vpc_gone = refl

state_wait_gone-SaysMissing_example :
    (last : ℕ) × (2 ≡ suc last) × SaysMissing "InvalidVpcID.NotFound" (vpc_replies last)
state_wait_gone-SaysMissing_example =
    state_wait_gone-SaysMissing waiter clock vpc_replies 12 2 2 vpc_gone
