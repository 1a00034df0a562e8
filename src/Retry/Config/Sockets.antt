-- ===== src/Retry/Config/Sockets.antt =====
-- Which exceptions the handlers of botocore/retryhandler.py retry.
use jcsapitest.Prelude.{
  ℕ, ◌∙◌, ◌<◌, String, ◌≡◌, ◌≢◌, refl, ◌⊎◌, Bool, true, false, ◌||◌, Option, none, some, List, [],
  ◌∷◌, ◌++◌, arith, any, Exception, isinstance, Result, ok, raise,
}
use jcsapitest.Retry.Checker.{
  Checker, Checkers, max_attempts, multi_checker, cons, nil, check, check_all, catches,
}
use jcsapitest.Retry.Config.Built.{create_checker-IsBuilt, from_policies-IsAdded, from_policies-nil}
use jcsapitest.Retry.Config.{
  Config, Policy, Section, create_checker_from_retry_config, from_policies, create_single_checker,
  extract_retryable_exception, decorate, append,
}

module _ (crc32 : String → ℕ) (int : String → Result ℕ) (n : ℕ) (e : Exception) where
  -- A checker of one policy never answers True to an exception.
  single-no_retry :
      (p : Policy) (c : Checker)
      → create_single_checker p ≡ ok c
      → check crc32 int c n none (some e) ≢ ok true
  unfolding create_single_checker check
  single-no_retry p c h = ground arith

-- A configuration with one policy retries no exception, also if the policy names socket errors.
pub lone_policy_no_retry :
    (crc32 : String → ℕ) (int : String → Result ℕ) (n : ℕ) (e : Exception) (config : Config)
    (s : Section) (p : Policy) (checker : Checker)
    → config.default ≡ some s
    → s.policies ≡ some (p ∷ [])
    → create_checker_from_retry_config config none ≡ ok checker
    → check crc32 int checker n none (some e) ≢ ok true
unfolding check
lone_policy_no_retry crc32 int n e config s p checker hs hp h =
    let b = create_checker-IsBuilt config none checker h in
    let e₁ : b.policies ≡ p ∷ [] = ground (arith, b.policies_are) in
    let e₂ : b.more ≡ [] = ground (arith, b.more_are) in
    let a = from_policies-IsAdded p [] b.own (cc (b.own_is)) in
    let e₃ = from_policies-nil a.rest a.rest_is in
    let e₄ = from_policies-nil b.others (cc (b.others_are)) in
    let lone : checker ≡ max_attempts a.checker b.max [] = cc (b.same, a.same) in
    rw lone (ground (arith, single-no_retry crc32 int n e p a.checker a.checker_is))

-- The policy for failing connections.
abbrev pub socket_policy : Policy
socket_policy = record { response = none; socket_errors = some ("GENERAL_CONNECTION_ERROR" ∷ []) }

abbrev general_errors : List String
general_errors = "ConnectionError" ∷ "ClosedPoolError" ∷ "Timeout" ∷ "EndpointConnectionError" ∷ []

-- A policy that has one of the two keys.
abbrev pub is_known : Policy → Bool
is_known p = elim p.response [
  | some r ↦ true
  | none ↦ elim p.socket_errors [ some names ↦ true | none ↦ false ]
]

abbrev pub All {ℓ κ} : {A : Type ℓ} → (A → Type κ) → List A → Type κ
All P [] = Unit
All P (x ∷ xs) = P x × All P xs

any-append {ℓ} :
    {A : Type ℓ} (p : A → Bool) (xs ys : List A) → any p (xs ++ ys) ≡ (any p xs || any p ys)
unfolding any
any-append p [] ys = refl
any-append p (x ∷ xs) ys = ground (arith, any-append p xs ys)

extract-socket_policy : extract_retryable_exception socket_policy ≡ ok general_errors
unfolding extract_retryable_exception
extract-socket_policy = refl

module _ (crc32 : String → ℕ) (int : String → Result ℕ) (n : ℕ) (e : Exception) where
  known-answers :
      (p : Policy) (c : Checker)
      → create_single_checker p ≡ ok c
      → is_known p ≡ true
      → (check crc32 int c n none (some e) ≡ ok false)
        ⊎ (check crc32 int c n none (some e) ≡ raise e)
  unfolding create_single_checker check
  known-answers p c h k = ground arith

  -- The first socket policy passes the exception on, if the policies before it are known.
  sockets-raise :
      (before after : List Policy) (built : Checkers × List String)
      → from_policies (before ++ socket_policy ∷ after) ≡ ok built
      → All (λ p. is_known p ≡ true) before
      → check_all crc32 int built.0 n none (some e) ≡ raise e
  unfolding check create_single_checker
  sockets-raise [] after built h k =
      let a = from_policies-IsAdded socket_policy after built h in
      rw (a.same) (ground (arith, a.checker_is))
  sockets-raise (p ∷ ps) after built h k =
      let a = from_policies-IsAdded p (ps ++ socket_policy ∷ after) built h in
      rw (a.same) (
        ground (
          arith,
          known-answers p a.checker a.checker_is k.0,
          sockets-raise ps after a.rest a.rest_is k.1,
        ))

  sockets-named :
      (before after : List Policy) (built : Checkers × List String)
      → from_policies (before ++ socket_policy ∷ after) ≡ ok built
      → catches general_errors e ≡ true
      → catches built.1 e ≡ true
  unfolding catches
  sockets-named [] after built h k =
      let a = from_policies-IsAdded socket_policy after built h in
      let names : a.names ≡ general_errors = cc (a.names_are, extract-socket_policy) in
      rw (a.same, names) (ground (arith, any-append (isinstance e) general_errors a.rest.1))
  sockets-named (p ∷ ps) after built h k =
      let a = from_policies-IsAdded p (ps ++ socket_policy ∷ after) built h in
      rw (a.same) (
        ground (
          arith,
          any-append (isinstance e) a.names a.rest.1,
          sockets-named ps after a.rest a.rest_is k,
        ))

-- Two policies make two checkers, which are joined, also with those of an operation behind them.
decorate_pair :
    (p q : Policy) (ps : List Policy) (built : Checkers × List String) (others : Checkers)
    (m : Option ℕ) (names : List String)
    → from_policies (p ∷ q ∷ ps) ≡ ok built
    → decorate (append built.0 others) m names
      ≡ max_attempts (multi_checker (append built.0 others)) m names
decorate_pair p q ps built others m names h =
    let a = from_policies-IsAdded p (q ∷ ps) built h in
    let b = from_policies-IsAdded q ps a.rest a.rest_is in rw (a.same, b.same) refl

decorate_joined :
    (before after : List Policy) (p : Policy) (built : Checkers × List String) (others : Checkers)
    (m : Option ℕ) (names : List String)
    → before ++ after ≢ []
    → from_policies (before ++ p ∷ after) ≡ ok built
    → decorate (append built.0 others) m names
      ≡ max_attempts (multi_checker (append built.0 others)) m names
decorate_joined [] [] p built others m names two h = absurd (two refl)
decorate_joined [] (q ∷ qs) p built others m names two h =
    decorate_pair p q qs built others m names h
decorate_joined (r ∷ []) after p built others m names two h =
    decorate_pair r p after built others m names h
decorate_joined (r ∷ q ∷ rs) after p built others m names two h =
    decorate_pair r q (rs ++ p ∷ after) built others m names h

-- What the checkers raise they also raise in front of others.
check_all-append :
    (crc32 : String → ℕ) (int : String → Result ℕ) (n : ℕ) (e : Exception) (cs ds : Checkers)
    → check_all crc32 int cs n none (some e) ≡ raise e
    → check_all crc32 int (append cs ds) n none (some e) ≡ raise e
unfolding check
check_all-append crc32 int n e nil ds h = cc
check_all-append crc32 int n e (cons c cs) ds h =
    ground (arith, check_all-append crc32 int n e cs ds)

-- Let a checker be made for an operation with any name, or for none. With a second policy in the default
-- section, and a policy for failing connections behind policies of that section that are all known, each
-- attempt below the maximum that ends in such a failure is retried, whatever policies the operation adds.
pub socket_errors_retried :
    (crc32 : String → ℕ) (int : String → Result ℕ) (n m : ℕ) (e : Exception) (config : Config)
    (operation : Option String) (s : Section) (before after : List Policy) (checker : Checker)
    → config.default ≡ some s
    → s.policies ≡ some (before ++ socket_policy ∷ after)
    → s.max ≡ some m
    → All (λ p. is_known p ≡ true) before
    → before ++ after ≢ []
    → create_checker_from_retry_config config operation ≡ ok checker
    → catches general_errors e ≡ true
    → n < m
    → check crc32 int checker n none (some e) ≡ ok true
unfolding check catches
socket_errors_retried crc32 int n m e config operation s before after checker hs hp hm known two h
      fails lt =
    let b = create_checker-IsBuilt config operation checker h in
    let e₁ : b.policies ≡ before ++ socket_policy ∷ after = ground (arith, b.policies_are) in
    let e₃ : b.max ≡ some m = ground (arith, b.max_is) in
    let own : from_policies (before ++ socket_policy ∷ after) ≡ ok b.own = cc (b.own_is) in
    let same : checker
        ≡ max_attempts (multi_checker (append b.own.0 b.others.0)) (some m)
            (b.own.1 ++ b.others.1) =
      b.same
      ∙ (rw e₃ (
          decorate_joined before after socket_policy b.own b.others.0 (some m)
            (b.own.1 ++ b.others.1) two own)) in
    rw same (
      ground (
        arith,
        check_all-append crc32 int n e b.own.0 b.others.0
            (sockets-raise crc32 int n e before after b.own own known),
        sockets-named crc32 int n e before after b.own own fails,
        any-append (isinstance e) b.own.1 b.others.1,
      ))
