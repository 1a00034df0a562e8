-- ===== src/Functional/Polling/Timeout.antt =====
-- When the loops of `EC2Waiter` in jcsapi/tests/functional/base.py end.
use native.Mathlib.Decide.{ℕ_discrete}
use jcsapitest.Prelude.{
  ℕ, zero, suc, ◌+◌, ◌-◌, ◌*◌, ◌≤◌, ◌<◌, ◌≡◌, inl, inr, refl, true, false, Option, none, some, List,
  arith, ltb, Option-cases, Bool-cases, Exception, Result, ok, raise,
}
use jcsapitest.Value.{Value}
use jcsapitest.Functional.Polling.{
  Waiter, Run, out_of_fuel, finished, poll_until, status_of, decide_state, state_wait,
  state_wait_gone, failure_exception, is_member, in_error_set, decide_gone,
}

-- The seconds slept before the loop looks at the clock for the k-th time: d + 2d + ... + kd.
abbrev pub slept_before : ℕ → ℕ → ℕ
slept_before d zero = 0
slept_before d (suc k) = slept_before d k + suc k * d

slept_before-ge : (d k : ℕ) → 1 ≤ d → k ≤ slept_before d k
slept_before-ge d zero h = omega arith
slept_before-ge d (suc k) h = let ih = slept_before-ge d k h in grind arith

-- What a finished loop has to satisfy; one that is out of fuel satisfies nothing.
abbrev pub Ends {ℓ} : {S : Type ℓ} → (ℕ → ℕ → Result S → Type 0) → Run S → Type 0
Ends P out_of_fuel = ⊥
Ends P (finished polls slept result) = P polls slept result

-- The time asleep is one poll's sleeps behind the polls; before the last sleep the timeout was not over.
abbrev pub IsTimely {ℓ} : {S : Type ℓ} → Waiter → ℕ → ℕ → Result S → Type 0
IsTimely w polls slept result =
    (polls ≤ w.default_timeout + 2)
    × (slept ≡ slept_before w.default_check_interval (polls - 1))
    × (slept_before w.default_check_interval (polls - 2) ≤ w.default_timeout)

module _ {ℓ} {S : Type ℓ} (w : Waiter) (elapsed : ℕ → ℕ) (decide : ℕ → Option (Result S))
    (timeout : Exception) (sleeps : (k : ℕ) → slept_before w.default_check_interval k ≤ elapsed k)
    (ticks : 1 ≤ w.default_check_interval) where
  poll_until-IsTimely :
      (fuel k interval slept : ℕ)
      → w.default_timeout + 2 ≤ k + fuel
      → k ≤ w.default_timeout + 1
      → interval ≡ suc k * w.default_check_interval
      → slept ≡ slept_before w.default_check_interval k
      → slept_before w.default_check_interval (k - 1) ≤ w.default_timeout
      → Ends (IsTimely w) (poll_until w elapsed decide timeout fuel k interval slept)
  unfolding poll_until
  poll_until-IsTimely zero k interval slept enough le i s fits = absurd (omega arith)
  poll_until-IsTimely (suc fuel) k interval slept enough le i s fits =
      let e : suc k - 1 ≡ k = omega arith in
      let e' : suc k - 2 ≡ k - 1 = omega arith in
      elim (Option-cases (decide k)) [
        | inr (result, d) ↦ rw (d, poll_until) (omega arith, rw (e) s, rw (e') fits)
        | inl d ↦ elim (Bool-cases (ltb w.default_timeout (elapsed k))) [
          | inl late ↦ rw (d, late, poll_until) (omega arith, rw (e) s, rw (e') fits)
          | inr on_time ↦
              let now : elapsed k ≤ w.default_timeout = ground arith in
              let low = slept_before-ge w.default_check_interval k ticks in
              let sl = sleeps k in
              rw (d, on_time, poll_until)
                (poll_until-IsTimely fuel (suc k) (interval + w.default_check_interval)
                  (slept + interval) (omega arith) (omega arith) (grind arith) (omega arith)
                  (rw e (omega arith)))
        ]
      ]

module _ {ℓ} {S : Type ℓ} (w : Waiter) (elapsed : ℕ → ℕ) (decide : ℕ → Option (Result S))
    (timeout : Exception) where
  -- A loop that returns a value left by its body, and went on before.
  pub poll_until_sound :
      (fuel k interval slept polls total : ℕ) (s : S)
      → poll_until w elapsed decide timeout fuel k interval slept ≡ finished polls total (ok s)
      → (last : ℕ) × (polls ≡ suc last)
        × (k ≤ last)
        × (decide last ≡ some (ok s))
        × ((j : ℕ) → k ≤ j → j < last → (decide j ≡ none) × (elapsed j ≤ w.default_timeout))
  unfolding poll_until
  poll_until_sound zero k interval slept polls total s h = cc
  poll_until_sound (suc fuel) k interval slept polls total s h = elim (Option-cases (decide k)) [
    | inr (result, d) ↦
        let end : finished (suc k) slept result ≡ finished polls total (ok s) =
          rw (d, poll_until) at h in
        let won : result ≡ ok s = cc in
        (k, cc, omega arith, rw won at d, λ j lo hi. absurd (omega arith))
    | inl d ↦ elim (Bool-cases (ltb w.default_timeout (elapsed k))) [
      | inl late ↦ cc (rw (d, late, poll_until) at h)
      | inr on_time ↦
          let now : elapsed k ≤ w.default_timeout = ground arith in
          let (last, p, le, good, quiet) =
            poll_until_sound fuel (suc k) (interval + w.default_check_interval) (slept + interval)
              polls total s (rw (d, on_time, poll_until) at h) in
          (
            last,
            p,
            omega arith,
            good,
            λ j lo hi. elim (ℕ_discrete k j) [
              | yes same ↦ (rw (← same) d, rw (← same) now)
              | no ne ↦ quiet j (omega arith) hi
            ],
          )
    ]
  ]

-- A state that is in neither set.
pub record IsBetween (final : List Value) (error : Option (List Value)) (r : Result Value)
    : Type 0 where
  pub state : Value
  pub shown : r ≡ ok state
  pub not_final : is_member state final ≡ false
  pub not_error : in_error_set state error ≡ false

decide_state-ok :
    (final : List Value) (error : Option (List Value)) (r : Result Value) (s : Value)
    → decide_state final error r ≡ some (ok s)
    → (r ≡ ok s) × (is_member s final ≡ true)
unfolding decide_state
decide_state-ok final error (raise e) s h = cc
decide_state-ok final error (ok status) s h = ground arith

decide_state-none :
    (final : List Value) (error : Option (List Value)) (r : Result Value)
    → decide_state final error r ≡ none
    → IsBetween final error r
unfolding decide_state
decide_state-none final error (raise e) h = cc
decide_state-none final error (ok status) h = record {
  state = status;
  shown = refl;
  not_final = ground arith;
  not_error = ground arith;
}

module _ (w : Waiter) (elapsed : ℕ → ℕ) (f : ℕ → Result Value)
    (sleeps : (k : ℕ) → slept_before w.default_check_interval k ≤ elapsed k)
    (ticks : 1 ≤ w.default_check_interval) where
  -- If the check interval is positive, time passes at least as fast as the loop sleeps, and the fuel is
  -- at least timeout + 2, then waiting for a state ends after at most timeout + 2 calls; the time
  -- asleep is 1 + 2 + ... + (polls - 1) intervals, and all of it but the last sleep lies within the
  -- timeout.
  pub state_wait-Ends :
      (fuel : ℕ) (final : List Value) (error : Option (List Value))
      → w.default_timeout + 2 ≤ fuel
      → Ends (IsTimely w) (state_wait w elapsed f fuel final error)
  unfolding state_wait
  state_wait-Ends fuel final error h =
      poll_until-IsTimely w elapsed (λ k. decide_state final error (status_of (f k)))
        (failure_exception "State change timeout exceeded!") sleeps ticks fuel 0
        w.default_check_interval 0 (omega arith) (omega arith) (omega arith) refl (omega arith)

  -- If the check interval is positive, time passes at least as fast as the loop sleeps, and the fuel is
  -- at least timeout + 2, then waiting for a resource to go away ends after at most timeout + 2 calls,
  -- with the same bounds on the time asleep as waiting for a state.
  pub state_wait_gone-Ends :
      (fuel : ℕ)
      → w.default_timeout + 2 ≤ fuel
      → Ends (IsTimely w) (state_wait_gone w elapsed f fuel)
  unfolding state_wait_gone
  state_wait_gone-Ends fuel h =
      poll_until-IsTimely w elapsed (λ k. decide_gone (f k))
        (failure_exception "State change timeout exceeded while waiting for deleting") sleeps ticks
        fuel 0 w.default_check_interval 0 (omega arith) (omega arith) (omega arith) refl
        (omega arith)

module _ (w : Waiter) (elapsed : ℕ → ℕ) (f : ℕ → Result Value) where
  -- A wait for a state returns a state of the final set that the last call showed, and every call before
  -- showed a state outside of both sets, within the timeout.
  pub state_wait_sound :
      (fuel polls total : ℕ) (final : List Value) (error : Option (List Value)) (s : Value)
      → state_wait w elapsed f fuel final error ≡ finished polls total (ok s)
      → (last : ℕ) × (polls ≡ suc last)
        × (is_member s final ≡ true)
        × (status_of (f last) ≡ ok s)
        × ((j : ℕ)
            → j < last
            → IsBetween final error (status_of (f j)) × (elapsed j ≤ w.default_timeout))
  unfolding state_wait
  state_wait_sound fuel polls total final error s h =
      let (last, p, le, good, quiet) =
        poll_until_sound w elapsed (λ k. decide_state final error (status_of (f k)))
          (failure_exception "State change timeout exceeded!") fuel 0 w.default_check_interval 0
          polls total s h in
      let (seen, final_state) = decide_state-ok final error (status_of (f last)) s good in
      (
        last,
        p,
        final_state,
        seen,
        λ j hi.
            let (none_yet, now) = quiet j (omega arith) hi in
            (decide_state-none final error (status_of (f j)) none_yet, now),
      )
