-- ===== src/Retry/Delay/Growth.antt =====
-- How the sleep times of botocore/retryhandler.py grow from one attempt to the next.
use native.Mathlib.Nat.{pow-suc}
use jcsapitest.Prelude.{ℕ, zero, suc, ◌-◌, ◌*◌, ◌^◌, ◌≤◌, ◌≡◌, Result, ok, arith}
use jcsapitest.Retry.Delay.{Base, rand, millis, minus, delay_exponential}

grow : (b g n : ℕ) → b * g ^ (suc (suc n) - 1) ≡ b * g ^ (suc n - 1) * g
grow b g n =
    let e₁ : suc (suc n) - 1 ≡ suc n = omega arith in
    let e₂ : suc n - 1 ≡ n = omega arith in rw (e₁, e₂, pow-suc) (omega arith)

-- Where the delay after an attempt is computed at all, that after the next one is the growth factor
-- times as long, whatever the base.
pub delay_exponential-suc :
    (random : ℕ) (base : Base) (g n d : ℕ)
    → delay_exponential random base g (suc n) ≡ ok d
    → delay_exponential random base g (suc (suc n)) ≡ ok (d * g)
unfolding delay_exponential
delay_exponential-suc random rand g n d h = rw (grow random g n) (cc)
delay_exponential-suc random (millis zero) g n d h = cc
delay_exponential-suc random (millis (suc b)) g n d h = rw (grow (suc b) g n) (cc)
delay_exponential-suc random (minus b) g n d h = cc

-- With a growth factor of at least 1 the delay after an attempt is at most that after the next one, for
-- the same random number.
delay_exponential_mono :
    (random : ℕ) (base : Base) (g n d d' : ℕ)
    → 1 ≤ g
    → delay_exponential random base g (suc n) ≡ ok d
    → delay_exponential random base g (suc (suc n)) ≡ ok d'
    → d ≤ d'
delay_exponential_mono random base g n d d' one h h' =
    let e : ◌≡◌ {A = Result ℕ} (ok (d * g)) (ok d') =
      cc (delay_exponential-suc random base g n d h) in
    let v : d * g ≡ d' = cc in grind arith
