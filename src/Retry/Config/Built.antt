-- ===== src/Retry/Config/Built.antt =====
-- Taking apart the construction of a checker in botocore/retryhandler.py.
use jcsapitest.Prelude.{ℕ, String, ◌≡◌, Option, List, [], ◌∷◌, ◌++◌, ok, >>=-eq-ok}
use jcsapitest.Retry.Checker.{Checker, Checkers, nil, cons}
use jcsapitest.Retry.Config.{
  Config, Policy, create_checker_from_retry_config, from_policies, create_single_checker,
  extract_retryable_exception, default_policies, default_max, operation_policies, decorate, append,
}

-- What a checker was built from.
pub record IsBuilt (config : Config) (operation : Option String) (checker : Checker) : Type 0 where
  pub max : Option ℕ
  pub max_is : default_max config.default ≡ ok max
  pub policies : List Policy
  pub policies_are : default_policies config.default ≡ ok policies
  pub own : Checkers × List String
  pub own_is : from_policies policies ≡ ok own
  pub more : List Policy
  pub more_are : operation_policies operation config.operations ≡ ok more
  pub others : Checkers × List String
  pub others_are : from_policies more ≡ ok others
  pub same : checker ≡ decorate (append own.0 others.0) max (own.1 ++ others.1)

pub create_checker-IsBuilt :
    (config : Config) (operation : Option String) (checker : Checker)
    → create_checker_from_retry_config config operation ≡ ok checker
    → IsBuilt config operation checker
unfolding create_checker_from_retry_config
create_checker-IsBuilt config operation checker h =
    let (ps, e₁, h₁) = >>=-eq-ok (default_policies config.default) _ h in
    let (m, e₂, h₂) = >>=-eq-ok (default_max config.default) _ h₁ in
    let (a, e₃, h₃) = >>=-eq-ok (from_policies ps) _ h₂ in
    let (qs, e₄, h₄) = >>=-eq-ok (operation_policies operation config.operations) _ h₃ in
    let (b, e₅, h₅) = >>=-eq-ok (from_policies qs) _ h₄ in
    record {
      max = m;
      max_is = e₂;
      policies = ps;
      policies_are = e₁;
      own = a;
      own_is = e₃;
      more = qs;
      more_are = e₄;
      others = b;
      others_are = e₅;
      same = cc;
    }

-- What one policy adds.
pub record IsAdded (p : Policy) (ps : List Policy) (built : Checkers × List String) : Type 0 where
  pub checker : Checker
  pub checker_is : create_single_checker p ≡ ok checker
  pub names : List String
  pub names_are : extract_retryable_exception p ≡ ok names
  pub rest : Checkers × List String
  pub rest_is : from_policies ps ≡ ok rest
  pub same : built ≡ (cons checker rest.0, names ++ rest.1)

pub from_policies-IsAdded :
    (p : Policy) (ps : List Policy) (built : Checkers × List String)
    → from_policies (p ∷ ps) ≡ ok built
    → IsAdded p ps built
unfolding from_policies
from_policies-IsAdded p ps built h =
    let (c, e₁, h₁) = >>=-eq-ok (create_single_checker p) _ h in
    let (names, e₂, h₂) = >>=-eq-ok (extract_retryable_exception p) _ h₁ in
    let (rest, e₃, h₃) = >>=-eq-ok (from_policies ps) _ h₂ in
    record {
      checker = c;
      checker_is = e₁;
      names = names;
      names_are = e₂;
      rest = rest;
      rest_is = e₃;
      same = cc;
    }

pub from_policies-nil :
    (built : Checkers × List String) → from_policies [] ≡ ok built → built ≡ (nil, [])
unfolding from_policies
from_policies-nil built h = cc
