-- ===== src/Waiter/Samples.antt =====
-- A waiter with two acceptors, and what botocore/waiter.py does with it.
use jcsapitest.Prelude.{
  ◌-◌, ℕ, zero, suc, ◌≤◌, ◌<◌, String, ◌≡◌, refl, none, some, Option, List, [], ◌∷◌, arith, Result,
  ok,
}
use jcsapitest.Value.{Value, Fields, str, end, field}
use jcsapitest.Waiter.Matcher.{SingleWaiterConfig, Acceptor, path, create_acceptors}
use jcsapitest.Waiter.Wait.{finished, loop, wait, conclude, round}
use jcsapitest.Waiter.Wait.Verdict.{Ends, verdict, wait-Ends, wait-success, wait_sound}

-- An expression is the name of a field, which the search looks up.
abbrev compile : Option String → Result (Option String)
compile e = ok e

abbrev lookup : Option String → Fields → Value
lookup e (field k v fs) = v
lookup e end = Value.null

abbrev running : SingleWaiterConfig
running = record {
  operation = "DescribeInstances";
  delay = 15;
  max_attempts = 3;
  acceptors =
      record {
        state = "success";
        matcher = "path";
        expected = str "running";
        argument = some "State";
      }
      ∷ record {
        state = "failure";
        matcher = "path";
        expected = str "error";
        argument = some "State";
      }
      ∷ [];
}

abbrev made : List (Acceptor (Option String))
made =
    record { state = "success"; matcher_func = path (some "State") (str "running") }
    ∷ record { state = "failure"; matcher_func = path (some "State") (str "error") }
    ∷ []

-- The instance runs from the third call on.
abbrev describe : ℕ → Result Fields
describe zero = ok (field "State" (str "pending") end)
describe (suc zero) = ok (field "State" (str "pending") end)
describe (suc (suc n)) = ok (field "State" (str "running") end)

program : Unit {0}
unfolding wait loop round conclude create_acceptors
program = tt

made-running : create_acceptors compile running.acceptors ≡ ok made
unfolding program
made-running = refl

wait-running : wait compile lookup 3 running describe ≡ finished 3 2 (ok tt)
unfolding program
wait-running = refl

wait-Ends_example :
    Ends
      (λ calls sleeps result. (calls ≤ 3) × (sleeps ≡ calls - 1))
      (wait compile lookup 3 running describe)
wait-Ends_example = wait-Ends compile lookup running describe 3 (omega arith)

quiet : (j : ℕ) → j < 2 → verdict lookup made 3 describe j ≡ ok none
unfolding program
quiet zero h = refl
quiet (suc zero) h = refl
quiet (suc (suc j)) h = absurd (omega arith)

wait-success_example : wait compile lookup 3 running describe ≡ finished 3 2 (ok tt)
unfolding program
wait-success_example =
    wait-success compile lookup running describe 3 2 made refl quiet refl (omega arith)
      (omega arith)

wait_sound_example :
    (3 ≡ suc 2)
    × (verdict lookup made 3 describe 2 ≡ ok (some (ok tt)))
    × ((j : ℕ) → j < 2 → verdict lookup made 3 describe j ≡ ok none)
wait_sound_example = wait_sound compile lookup running describe 3 3 2 made made-running wait-running
