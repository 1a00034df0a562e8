-- ===== src/Waiter/Wait/Verdict.antt =====
-- When `Waiter.wait` of botocore/waiter.py ends, and with what result.
use Prim.Native.Nat.{max}
use native.Mathlib.Decide.{ℕ_discrete}
use jcsapitest.Prelude.{
  ℕ, zero, suc, ◌+◌, ◌-◌, ◌≤◌, ◌<◌, String, ◌≡◌, inl, inr, refl, false, Option, none, some, List,
  arith, leb, Bool-cases, Option-cases, Result-cases, Result, ok, raise, ◌>>=◌, >>=-eq-ok,
  if◌then◌else◌,
}
use jcsapitest.Value.{Value, Fields, has_field}
use jcsapitest.Waiter.Matcher.{SingleWaiterConfig, Acceptor, create_acceptors, first_state}
use jcsapitest.Waiter.Wait.{
  Run, out_of_fuel, finished, waiter_error, next_state, conclude, round, loop, wait,
}

-- What a finished wait has to satisfy; a wait that is out of fuel satisfies nothing.
abbrev pub Ends : (ℕ → ℕ → Result (Unit {0}) → Type 0) → Run → Type 0
Ends P out_of_fuel = ⊥
Ends P (finished calls sleeps result) = P calls sleeps result

-- What an answer decides on its own, with no state carried over: nothing, or the result.
abbrev pub verdict_of : Option String → Fields → Option (Result (Unit {0}))
verdict_of (some state) r = conclude state
verdict_of none r =
    if has_field "Error" r
    then some (raise (waiter_error "Unexpected error encountered."))
    else none

quiet-next :
    (current : String) (found : Option String) (r : Fields)
    → conclude current ≡ none
    → verdict_of found r ≡ none
    → (state : String) × (next_state current found r ≡ ok state) × (conclude state ≡ none)
unfolding next_state
quiet-next current (some s) r c v = (s, refl, v)
quiet-next current none r c v = (current, ground arith, c)

success-next :
    (current : String) (found : Option String) (r : Fields)
    → verdict_of found r ≡ some (ok tt)
    → (state : String) × (next_state current found r ≡ ok state) × (conclude state ≡ some (ok tt))
success-next current (some s) r v = (s, unfold next_state in refl, v)
success-next current none r v = absurd (ground arith)

module _ {ℓ} {Expression : Type ℓ} (search : Expression → Fields → Value)
    (acceptors : List (Acceptor Expression)) (max_attempts : ℕ)
    (operation : ℕ → Result Fields) where
  loop-Ends :
      (fuel n : ℕ) (current : String)
      → max 1 max_attempts ≤ n + fuel
      → n < max 1 max_attempts
      → Ends
          (λ calls sleeps result. (calls ≤ max 1 max_attempts) × (sleeps + 1 ≡ calls))
          (loop search acceptors max_attempts operation fuel n current)
  unfolding loop
  loop-Ends zero n current h k = absurd (omega arith)
  loop-Ends (suc fuel) n current h k =
      elim (Result-cases (round search acceptors max_attempts operation current n)) [
        | inl (e, r) ↦ rw (r, loop) (omega arith)
        | inr (state, r) ↦ elim (Option-cases (conclude state)) [
          | inr (result, c) ↦ rw (r, c, loop) (omega arith)
          | inl c ↦ elim (Bool-cases (leb max_attempts (suc n))) [
            | inl last ↦ rw (r, c, last, loop) (omega arith)
            | inr more ↦
                rw (r, c, more, loop) (loop-Ends fuel (suc n) state (omega arith) (ground arith))
          ]
        ]
      ]

  abbrev pub verdict : ℕ → Result (Option (Result (Unit {0})))
  verdict n =
      operation n >>= λ r. first_state search acceptors r >>= λ found. ok (verdict_of found r)

  abbrev poll : String → ℕ → Result String
  poll = round search acceptors max_attempts operation

  quiet-round :
      (n : ℕ) (current : String)
      → conclude current ≡ none
      → verdict n ≡ ok none
      → (state : String) × (poll current n ≡ ok state) × (conclude state ≡ none)
  unfolding round
  quiet-round n current c v =
      let (r, answered, v₁) = >>=-eq-ok (operation n) _ v in
      let (found, matched, v₂) = >>=-eq-ok (first_state search acceptors r) _ v₁ in
      let (state, moved, quiet) = quiet-next current found r c (cc (v₂)) in
      (state, rw (answered, matched) moved, quiet)

  success-round :
      (n : ℕ) (current : String)
      → verdict n ≡ ok (some (ok tt))
      → (state : String) × (poll current n ≡ ok state) × (conclude state ≡ some (ok tt))
  unfolding round
  success-round n current v =
      let (r, answered, v₁) = >>=-eq-ok (operation n) _ v in
      let (found, matched, v₂) = >>=-eq-ok (first_state search acceptors r) _ v₁ in
      let (state, moved, good) = success-next current found r (cc (v₂)) in
      (state, rw (answered, matched) moved, good)

  round-quiet :
      (n : ℕ) (current state : String)
      → conclude current ≡ none
      → poll current n ≡ ok state
      → conclude state ≡ none
      → verdict n ≡ ok none
  unfolding round
  round-quiet n current state c p q = ground arith

  round-success :
      (n : ℕ) (current state : String)
      → conclude current ≡ none
      → poll current n ≡ ok state
      → conclude state ≡ some (ok tt)
      → verdict n ≡ ok (some (ok tt))
  unfolding round
  round-success n current state c p q = ground arith

  -- A wait that got past quiet answers ends at the first success.
  loop-success :
      (d fuel n : ℕ) (current : String)
      → conclude current ≡ none
      → ((j : ℕ) → n ≤ j → j < n + d → verdict j ≡ ok none)
      → verdict (n + d) ≡ ok (some (ok tt))
      → n + d < max 1 max_attempts
      → d < fuel
      → loop search acceptors max_attempts operation fuel n current
        ≡ finished (suc (n + d)) (n + d) (ok tt)
  unfolding loop
  loop-success d zero n current c quiet good lt h = absurd (omega arith)
  loop-success zero (suc fuel) n current c quiet good lt h =
      let e : n + 0 ≡ n = omega arith in
      let (state, moved, ends) = success-round n current (rw e at good) in
      rw (e, moved, ends, loop) refl
  loop-success (suc d) (suc fuel) n current c quiet good lt h =
      let (state, moved, goes_on) = quiet-round n current c (quiet n (omega arith) (omega arith)) in
      let more : leb max_attempts (suc n) ≡ false = ground arith in
      let e : n + suc d ≡ suc n + d = omega arith in
      rw (moved, goes_on, more, e, loop)
        (loop-success d fuel (suc n) state goes_on
          (λ j le below. quiet j (omega arith) (omega arith)) (rw e at good) (omega arith)
          (omega arith))

  -- A wait that returns did so at a success, with quiet answers before it.
  loop_sound :
      (fuel n : ℕ) (current : String)
      → conclude current ≡ none
      → (calls sleeps : ℕ)
      → loop search acceptors max_attempts operation fuel n current ≡ finished calls sleeps (ok tt)
      → (n ≤ sleeps)
        × (calls ≡ suc sleeps)
        × (verdict sleeps ≡ ok (some (ok tt)))
        × ((j : ℕ) → n ≤ j → j < sleeps → verdict j ≡ ok none)
  unfolding loop
  loop_sound zero n current c calls sleeps h = cc
  loop_sound (suc fuel) n current c calls sleeps h =
      elim (Result-cases (round search acceptors max_attempts operation current n)) [
        | inl (e, r) ↦ cc (rw (r, loop) at h)
        | inr (state, r) ↦ elim (Option-cases (conclude state)) [
          | inr (result, k) ↦
              let end : finished (suc n) n result ≡ finished calls sleeps (ok tt) =
                rw (r, k, loop) at h in
              let here : n ≡ sleeps = cc in
              let won : result ≡ ok tt = cc in
              (
                omega arith,
                cc,
                rw (← here) (round-success n current state c r (rw won at k)),
                λ j lo hi. absurd (omega arith),
              )
          | inl k ↦ elim (Bool-cases (leb max_attempts (suc n))) [
            | inl last ↦ cc (rw (r, k, last, loop) at h)
            | inr more ↦
                let (le, same, good, quiet) =
                  loop_sound fuel (suc n) state k calls sleeps (rw (r, k, more, loop) at h) in
                (
                  omega arith,
                  same,
                  good,
                  λ j lo hi. elim (ℕ_discrete n j) [
                    | yes e ↦ rw (← e) (round-quiet n current state c r k)
                    | no ne ↦ quiet j (omega arith) hi
                  ],
                )
          ]
        ]
      ]

Ends-weaken :
    (m : ℕ) (r : Run)
    → Ends (λ calls sleeps result. (calls ≤ max 1 m) × (sleeps + 1 ≡ calls)) r
    → Ends (λ calls sleeps result. (calls ≤ max 1 m) × (sleeps ≡ calls - 1)) r
Ends-weaken m out_of_fuel h = h
Ends-weaken m (finished calls sleeps result) h = omega arith

waiting-quiet : conclude "waiting" ≡ none
unfolding conclude
waiting-quiet = refl

module _ {ℓ} {Expression : Type ℓ} (compile : Option String → Result Expression)
    (search : Expression → Fields → Value) (config : SingleWaiterConfig)
    (operation : ℕ → Result Fields) where
  -- With fuel for max(1, max_attempts) rounds a wait ends: it makes no more calls than that, and sleeps once
  -- less often than it calls, or never, if it makes no call.
  pub wait-Ends :
      (fuel : ℕ)
      → max 1 config.max_attempts ≤ fuel
      → Ends
          (λ calls sleeps result. (calls ≤ max 1 config.max_attempts) × (sleeps ≡ calls - 1))
          (wait compile search fuel config operation)
  unfolding wait
  wait-Ends fuel h = elim (Result-cases (create_acceptors compile config.acceptors)) [
    | inl (e, made) ↦ rw (made, wait) (omega arith)
    | inr (acceptors, made) ↦
        rw (made, wait)
          (Ends-weaken config.max_attempts
            (loop search acceptors config.max_attempts operation fuel 0 "waiting")
            (loop-Ends search acceptors config.max_attempts operation fuel 0 "waiting" (omega arith)
              (omega arith)))
  ]

  -- If the acceptors can be made, the answers 0 to k - 1 decide nothing and answer k is a success, within
  -- the allowed attempts and the fuel, then the wait returns after k + 1 calls and k sleeps.
  pub wait-success :
      (fuel k : ℕ) (acceptors : List (Acceptor Expression))
      → create_acceptors compile config.acceptors ≡ ok acceptors
      → ((j : ℕ) → j < k → verdict search acceptors config.max_attempts operation j ≡ ok none)
      → verdict search acceptors config.max_attempts operation k ≡ ok (some (ok tt))
      → k < max 1 config.max_attempts
      → k < fuel
      → wait compile search fuel config operation ≡ finished (suc k) k (ok tt)
  unfolding wait
  wait-success fuel k acceptors made quiet good lt h =
      let e : 0 + k ≡ k = omega arith in
      rw (made, wait)
        (rw e at (
          loop-success search acceptors config.max_attempts operation k fuel 0 "waiting"
            waiting-quiet (λ j lo hi. quiet j (omega arith)) (rw (← e) at good) (omega arith) h))

  -- A wait with these acceptors that returns without an exception made its last call at a success, slept
  -- once for each call before it, and none of the answers before decided anything.
  pub wait_sound :
      (fuel calls sleeps : ℕ) (acceptors : List (Acceptor Expression))
      → create_acceptors compile config.acceptors ≡ ok acceptors
      → wait compile search fuel config operation ≡ finished calls sleeps (ok tt)
      → (calls ≡ suc sleeps)
        × (verdict search acceptors config.max_attempts operation sleeps ≡ ok (some (ok tt)))
        × ((j : ℕ)
            → j < sleeps
            → verdict search acceptors config.max_attempts operation j ≡ ok none)
  unfolding wait
  wait_sound fuel calls sleeps acceptors made h =
      let (le, same, good, quiet) =
        loop_sound search acceptors config.max_attempts operation fuel 0 "waiting" waiting-quiet
          calls sleeps (rw (made, wait) at h) in
      (same, good, λ j lt. quiet j (omega arith) lt)
