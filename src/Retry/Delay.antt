-- ===== src/Retry/Delay.antt =====
-- botocore/retryhandler.py: `delay_exponential` and `create_exponential_delay_function`. A base is a
-- number of thousandths of a second; `random.random()` is a parameter, in the same unit. The number
-- of attempts is at least 1 wherever the client calls this.
pub mod Growth
use jcsapitest.Prelude.{ℕ, zero, suc, ◌*◌, ◌^◌, ◌-◌, Result, ok, raise, value_error}

-- The `base` of a configuration: the text 'rand', or a number, which may be negative.
pub data Base : Type 0 where
  rand : Base
  millis : ℕ → Base
  minus : ℕ → Base

unfoldable pub delay_exponential : (random : ℕ) → Base → (growth_factor attempts : ℕ) → Result ℕ
delay_exponential random rand g attempts = ok (random * g ^ (attempts - 1))
delay_exponential random (millis zero) g attempts =
    raise (value_error "The 'base' param must be greater than 0")
delay_exponential random (millis (suc b)) g attempts = ok (suc b * g ^ (attempts - 1))
delay_exponential random (minus b) g attempts =
    raise (value_error "The 'base' param must be greater than 0")

-- functools.partial: the attempts are the one argument left. Each call draws its own random number.
unfoldable pub create_exponential_delay_function : (random : ℕ → ℕ) → Base → ℕ → ℕ → Result ℕ
unfolding delay_exponential
create_exponential_delay_function random base g =
    λ attempts. delay_exponential (random attempts) base g attempts
