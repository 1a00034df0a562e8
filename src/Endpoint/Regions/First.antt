-- ===== src/Endpoint/Regions/First.antt =====
-- The rule that botocore/regions.py picks.
use jcsapitest.Prelude.{
  Test-cases, Answer-cases, ap, sym, String, ◌≡◌, ◌≢◌, refl, ◌⊎◌, inl, inr, true, false, Option,
  none, some, List, [], ◌∷◌, ◌++◌, arith, ok, raise, ◌>>=◌, >>=-eq-ok,
}
use jcsapitest.Endpoint.Regions.{
  Kwargs, Rules, Rule, Found, make, matches_rule, format, match_rules, get_rules_for_service,
  construct_endpoint, fold_in, not_found,
}

-- No rule of the list matches, and each is decided without an error.
abbrev pub NoneMatches : Kwargs → List Rule → Type 0
NoneMatches kwargs [] = Unit
NoneMatches kwargs (rule ∷ rules) = (matches_rule kwargs rule ≡ ok false) × NoneMatches kwargs rules

-- `found` is made from the first rule of the list that matches.
pub record IsFirst (kwargs : Kwargs) (rules : List Rule) (found : Found) : Type 0 where
  pub before : List Rule
  pub rule : Rule
  pub after : List Rule
  pub split : rules ≡ before ++ rule ∷ after
  pub passed_over : NoneMatches kwargs before
  pub matches : matches_rule kwargs rule ≡ ok true
  pub formatted : format kwargs rule.uri ≡ ok found.uri
  pub scope : found.scope_region ≡ rule.scope_region

formats :
    (kwargs : Kwargs) (rule : Rule)
    → (format kwargs rule.uri >>= λ uri. ok (some (make rule uri))) ≢ ok none
formats kwargs rule h = ground arith

match_rules-none :
    (kwargs : Kwargs) (rules : List Rule)
    → match_rules kwargs rules ≡ ok none
    → NoneMatches kwargs rules
unfolding match_rules
match_rules-none kwargs [] h = tt
match_rules-none kwargs (rule ∷ rules) h = elim (Test-cases (matches_rule kwargs rule)) [
  | inl (x, e) ↦ cc (rw (e, match_rules) at h)
  | inr (inl e) ↦ absurd (formats kwargs rule (rw (e, match_rules) at h))
  | inr (inr e) ↦ (e, match_rules-none kwargs rules (rw (e, match_rules) at h))
]

match_rules-IsFirst :
    (kwargs : Kwargs) (rules : List Rule) (found : Found)
    → match_rules kwargs rules ≡ ok (some found)
    → IsFirst kwargs rules found
unfolding match_rules
match_rules-IsFirst kwargs [] found h = cc
match_rules-IsFirst kwargs (rule ∷ rules) found h = elim (Test-cases (matches_rule kwargs rule)) [
  | inl (x, e) ↦ cc (rw (e, match_rules) at h)
  | inr (inl e) ↦
      let (uri, formatted, made) =
        >>=-eq-ok (format kwargs rule.uri) _ (rw (e, match_rules) at h) in
      let same : make rule uri ≡ found = cc (made) in
      record {
        before = [];
        rule = rule;
        after = rules;
        split = refl;
        passed_over = tt;
        matches = e;
        formatted = cc (formatted, ap (λ (f : Found). f.uri) same);
        scope = sym (ap (λ (f : Found). f.scope_region) same);
      }
  | inr (inr e) ↦
      let later = match_rules-IsFirst kwargs rules found (rw (e, match_rules) at h) in
      record {
        before = rule ∷ later.before;
        rule = later.rule;
        after = later.after;
        split = ap (λ (rs : List Rule). rule ∷ rs) later.split;
        passed_over = (e, later.passed_over);
        matches = later.matches;
        formatted = later.formatted;
        scope = later.scope;
      }
]

match_rules-NoneMatches :
    (kwargs : Kwargs) (rules : List Rule)
    → NoneMatches kwargs rules
    → match_rules kwargs rules ≡ ok none
unfolding match_rules
match_rules-NoneMatches kwargs [] h = refl
match_rules-NoneMatches kwargs (rule ∷ rules) h =
    rw (h.0, match_rules) (match_rules-NoneMatches kwargs rules h.1)

module _ (rules : Rules) (service : String) (region : Option String) (kwargs : Kwargs) where
  abbrev pub own : List Rule
  own = get_rules_for_service rules service

  abbrev pub defaults : List Rule
  defaults = get_rules_for_service rules "_default"

  abbrev pub folded : Kwargs
  folded = fold_in service region kwargs

  -- An endpoint that is found is that of the first matching rule of the service, or, if none of those
  -- matches, of the first matching default rule, and its URI is the rule's template filled in.
  pub construct_endpoint-IsFirst :
      (found : Found)
      → construct_endpoint rules service region kwargs ≡ ok found
      → IsFirst folded own found ⊎ (NoneMatches folded own × IsFirst folded defaults found)
  unfolding construct_endpoint
  construct_endpoint-IsFirst found h = elim (Answer-cases (match_rules folded own)) [
    | inl (x, e) ↦ cc (rw (e, construct_endpoint) at h)
    | inr (inl e) ↦ elim (Answer-cases (match_rules folded defaults)) [
      | inl (x, e') ↦ cc (rw (e, e', construct_endpoint) at h)
      | inr (inl e') ↦ cc (rw (e, e', construct_endpoint) at h)
      | inr (inr (f, e')) ↦
          let same : f ≡ found = cc (rw (e, e', construct_endpoint) at h) in
          inr (
            match_rules-none folded own e,
            match_rules-IsFirst folded defaults found (rw same at e'),
          )
    ]
    | inr (inr (f, e)) ↦
        let same : f ≡ found = cc (rw (e, construct_endpoint) at h) in
        inl (match_rules-IsFirst folded own found (rw same at e))
  ]

  -- If no rule of the service and no default rule matches, the call raises: NoRegionError without a
  -- region, and UnknownEndpointError with one.
  pub construct_endpoint-not_found :
      NoneMatches folded own
      → NoneMatches folded defaults
      → construct_endpoint rules service region kwargs ≡ raise (not_found service region)
  unfolding construct_endpoint
  construct_endpoint-not_found h k =
      rw (match_rules-NoneMatches folded own h, match_rules-NoneMatches folded defaults k)
