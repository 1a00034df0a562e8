-- ===== src/Endpoint/Send/Rounds.antt =====
-- The request loop of botocore/endpoint.py under the retry handlers of botocore/retryhandler.py.
use Prim.Native.Nat.{max}
use native.Mathlib.Decide.{dec_lt}
use jcsapitest.Prelude.{
  Answer-cases, Result-cases, ℕ, zero, suc, ◌+◌, ◌≤◌, ◌<◌, String, ◌≡◌, ◌≢◌, inl, inr, refl, Option,
  some, List, [], ◌∷◌, ◌++◌, arith, length, length-append, Exception, Result, ok, >>=-eq-ok,
}
use jcsapitest.Retry.Checker.{Response, Checker, check, retry_handler}
use jcsapitest.Retry.Config.{Config, Section, create_retry_handler}
use jcsapitest.Retry.Config.Policies.{create_retry_handler_bound}
use jcsapitest.Endpoint.Send.{
  Transport, Handler, Run, out_of_fuel, done, needs_retry, resend, loop, send_request, first,
}

-- Sleep number i of the list is the delay after attempt `n + i`.
abbrev pub IsBackoff : (ℕ → Result ℕ) → ℕ → List ℕ → Type 0
IsBackoff delay n [] = Unit
IsBackoff delay n (d ∷ ds) = (delay n ≡ ok d) × IsBackoff delay (suc n) ds

IsBackoff-snoc :
    (delay : ℕ → Result ℕ) (n : ℕ) (ds : List ℕ) (d : ℕ)
    → IsBackoff delay n ds
    → delay (length ds + n) ≡ ok d
    → IsBackoff delay n (ds ++ d ∷ [])
IsBackoff-snoc delay n [] d b h = let e : 0 + n ≡ n = omega arith in (rw e at h, tt)
IsBackoff-snoc delay n (x ∷ xs) d b h =
    let e : suc (length xs) + n ≡ length xs + suc n = omega arith in
    (b.0, IsBackoff-snoc delay (suc n) xs d b.1 (rw e at h))

-- With one handler its answer decides.
only-handler :
    (h : Handler) (n : ℕ) (r : Option Response) (e : Option Exception) (d : ℕ)
    → needs_retry (h ∷ []) n r e ≡ ok (some d)
    → h n r e ≡ ok (some d)
unfolding needs_retry
only-handler h n r e d again = ground arith

-- The retry handler's answer is its action's delay.
handler-delay :
    (crc32 : String → ℕ) (int : String → Result ℕ) (checker : Checker) (delay : ℕ → Result ℕ)
    (n : ℕ) (r : Option Response) (e : Option Exception) (d : ℕ)
    → retry_handler crc32 int checker (some delay) n r e ≡ ok (some d)
    → delay n ≡ ok d
unfolding retry_handler
handler-delay crc32 int checker delay n r e d h =
    let (b, e₁, h₁) = >>=-eq-ok (check crc32 int checker n r e) _ h in ground arith

-- What a finished run has to satisfy; a run that is out of fuel satisfies nothing.
abbrev pub Ends : (ℕ → List ℕ → Type 0) → Run → Type 0
Ends P out_of_fuel = ⊥
Ends P (done attempts sleeps result) = P attempts sleeps

-- At most `bound` attempts, with a delay of the policy between each and the next.
abbrev pub IsBounded : (ℕ → Result ℕ) → ℕ → ℕ → List ℕ → Type 0
IsBounded delay bound attempts sleeps =
    (attempts ≤ bound) × (length sleeps + 1 ≡ attempts) × IsBackoff delay 1 sleeps

module _ (t : Transport) (handlers : List Handler) (delay : ℕ → Result ℕ) (m bound : ℕ)
    (stop : (n d : ℕ) (r : Option Response) (e : Option Exception)
      → m ≤ n
      → needs_retry handlers n r e ≢ ok (some d))
    (sleeps_delay : (n d : ℕ) (r : Option Response) (e : Option Exception)
      → needs_retry handlers n r e ≡ ok (some d)
      → delay n ≡ ok d)
    (fits : m ≤ bound) where
  below :
      (n d : ℕ) (outcome : Option Response × Option Exception)
      → needs_retry handlers n outcome.0 outcome.1 ≡ ok (some d)
      → n < m
  below n d outcome e = elim (dec_lt n m) [
    | yes lt ↦ lt
    | no ge ↦ absurd (stop n d outcome.0 outcome.1 (omega arith) e)
  ]

  -- One more sleep, and one more attempt.
  more :
      (n d : ℕ) (slept : List ℕ) (outcome : Option Response × Option Exception)
      → IsBounded delay bound n slept
      → needs_retry handlers n outcome.0 outcome.1 ≡ ok (some d)
      → IsBounded delay bound (suc n) (slept ++ d ∷ [])
  more n d slept outcome b e =
      let lt = below n d outcome e in
      let same : length slept + 1 ≡ n = b.1 in
      (
        omega arith,
        omega (arith, length-append slept (d ∷ [])),
        IsBackoff-snoc delay 1 slept d b.2 (rw same (sleeps_delay n d outcome.0 outcome.1 e)),
      )

  loop-IsBounded :
      (fuel n : ℕ) (request : t.Request) (outcome : Option Response × Option Exception)
      (slept : List ℕ)
      → m < n + fuel
      → 0 < fuel
      → IsBounded delay bound n slept
      → Ends (IsBounded delay bound) (loop t handlers fuel n request outcome slept)
  unfolding loop
  loop-IsBounded zero n request outcome slept h pos b = absurd (omega arith)
  loop-IsBounded (suc fuel) n request outcome slept h pos b =
      elim (Answer-cases (needs_retry handlers n outcome.0 outcome.1)) [
        | inl (x, e) ↦ rw (e, loop) b
        | inr (inl e) ↦ rw (e, loop) b
        | inr (inr (d, e)) ↦ elim (Result-cases (resend t request (suc n))) [
          | inl (x, e') ↦ rw (e, e', loop) (more n d slept outcome b e)
          | inr ((request', outcome'), e') ↦
              let lt = below n d outcome e in
              rw (e, e', loop)
                (loop-IsBounded fuel (suc n) request' outcome' (slept ++ d ∷ []) (omega arith)
                  (omega arith) (more n d slept outcome b e))
        ]
      ]

  send_request-IsBounded :
      (fuel : ℕ)
      → m ≤ fuel
      → 1 ≤ fuel
      → 1 ≤ bound
      → Ends (IsBounded delay bound) (send_request t handlers fuel)
  unfolding send_request
  send_request-IsBounded fuel h pos one = elim (Result-cases (first t)) [
    | inl (x, e) ↦ rw (e, send_request) (one, refl, tt)
    | inr ((request, outcome), e) ↦
        rw (e, send_request)
          (loop-IsBounded fuel 1 request outcome [] (omega arith) (omega arith) (one, refl, tt))
  ]

-- If the one handler is that of a configuration whose default section has `max_attempts`, with an
-- exponential delay, then, given fuel for max(1, max_attempts) rounds, the client's loop ends and has
-- sent the request at most max(1, max_attempts) times, whatever the server and the network do. The
-- sleeps are the delays of the handler's action, one after each attempt but the last.
pub send_request_bound :
    (t : Transport) (crc32 : String → ℕ) (int : String → Result ℕ) (random : ℕ → ℕ)
    (config : Config) (operation : Option String) (s : Section) (m fuel : ℕ) (checker : Checker)
    (delay : ℕ → Result ℕ)
    → config.default ≡ some s
    → s.max ≡ some m
    → create_retry_handler random config operation ≡ ok (checker, some delay)
    → max 1 m ≤ fuel
    → Ends
        (IsBounded delay (max 1 m))
        (send_request t (retry_handler crc32 int checker (some delay) ∷ []) fuel)
send_request_bound t crc32 int random config operation s m fuel checker delay hs hm h le =
    send_request-IsBounded t (retry_handler crc32 int checker (some delay) ∷ []) delay m (max 1 m)
      (λ n d r e ge again.
        create_retry_handler_bound crc32 int random config operation s m n checker (some delay) r e
          d hs hm h ge (only-handler (retry_handler crc32 int checker (some delay)) n r e d again))
      (λ n d r e again.
        handler-delay crc32 int checker delay n r e d
          (only-handler (retry_handler crc32 int checker (some delay)) n r e d again))
      (omega arith) fuel (omega arith) (omega arith) (omega arith)
