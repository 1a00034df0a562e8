-- ===== src/Retry/Config/Policies.antt =====
-- What the handlers that botocore/retryhandler.py builds from a configuration do.
use jcsapitest.Prelude.{
  ℕ, ◌≤◌, String, ◌≡◌, ◌≢◌, refl, Option, some, List, [], ◌++◌, arith, Exception, Result, ok,
  >>=-eq-ok,
}
use jcsapitest.Retry.Checker.{
  Response, Checker, Checkers, max_attempts, multi_checker, cons, nil, retry_handler,
}
use jcsapitest.Retry.Checker.Attempts.{retry_handler_last}
use jcsapitest.Retry.Config.Built.{create_checker-IsBuilt}
use jcsapitest.Retry.Config.{
  Config, Section, create_checker_from_retry_config, create_retry_handler,
  create_retry_action_from_config, decorate, append,
}

-- Every decorated checker has the maximum of the configuration.
pub record IsCapped (checker : Checker) (m : Option ℕ) : Type 0 where
  pub inner : Checker
  pub names : List String
  pub same : checker ≡ max_attempts inner m names

decorate-IsCapped :
    (cs : Checkers) (m : Option ℕ) (names : List String) → IsCapped (decorate cs m names) m
decorate-IsCapped nil m names = record { inner = multi_checker nil; names = names; same = refl }
decorate-IsCapped (cons c nil) m names = record { inner = c; names = []; same = refl }
decorate-IsCapped (cons c (cons d cs)) m names = record {
  inner = multi_checker (cons c (cons d cs));
  names = names;
  same = refl;
}

create_checker-IsCapped :
    (config : Config) (operation : Option String) (checker : Checker) (s : Section) (m : ℕ)
    → config.default ≡ some s
    → s.max ≡ some m
    → create_checker_from_retry_config config operation ≡ ok checker
    → IsCapped checker (some m)
create_checker-IsCapped config operation checker s m hs hm h =
    let b = create_checker-IsBuilt config operation checker h in
    let e : b.max ≡ some m = ground (arith, b.max_is) in
    rw (b.same, e) (decorate-IsCapped (append b.own.0 b.others.0) (some m) (b.own.1 ++ b.others.1))

-- Whatever the policies: a handler built from a configuration whose default section allows m attempts
-- asks for no further sleep once m attempts were made.
pub create_retry_handler_bound :
    (crc32 : String → ℕ) (int : String → Result ℕ) (random : ℕ → ℕ) (config : Config)
    (operation : Option String) (s : Section) (m n : ℕ) (checker : Checker)
    (action : Option (ℕ → Result ℕ)) (r : Option Response) (e : Option Exception) (d : ℕ)
    → config.default ≡ some s
    → s.max ≡ some m
    → create_retry_handler random config operation ≡ ok (checker, action)
    → m ≤ n
    → retry_handler crc32 int checker action n r e ≢ ok (some d)
unfolding create_retry_handler
create_retry_handler_bound crc32 int random config operation s m n checker action r e d hs hm h le =
    let (c, e₁, h₁) = >>=-eq-ok (create_checker_from_retry_config config operation) _ h in
    let (a, e₂, h₂) = >>=-eq-ok (create_retry_action_from_config random config) _ h₁ in
    let capped = create_checker-IsCapped config operation c s m hs hm e₁ in
    let same : checker ≡ max_attempts capped.inner (some m) capped.names = cc (capped.same) in
    rw same (retry_handler_last crc32 int capped.inner m n capped.names action r e d le)
