-- ===== src/Credentials/Resolver/Chain.antt =====
-- Which provider of a chain in botocore/credentials.py decides, and how the chain is changed.
use jcsapitest.Prelude.{
  String, ◌≡◌, ◌≢◌, inl, inr, refl, ap, true, false, none, some, List, [], ◌∷◌, ◌++◌, arith, str_eq,
  eq_iff, Bool-cases, Answer-cases, Result, ok, >>=-eq-ok,
}
use jcsapitest.Credentials.Providers.{Loaded}
use jcsapitest.Credentials.Resolver.{
  Provider, insert_before, insert_after, remove_provider, load_credentials,
}

-- Every provider of the list answers with None.
abbrev pub AllEmpty : List Provider → Type 0
AllEmpty [] = Unit {0}
AllEmpty (p ∷ ps) = (p.load ≡ ok none) × AllEmpty ps

-- `found` is the answer of the first provider that has one.
pub record IsFirst (ps : List Provider) (found : Loaded) : Type 0 where
  pub before : List Provider
  pub provider : Provider
  pub after : List Provider
  pub split : ps ≡ before ++ provider ∷ after
  pub passed_over : AllEmpty before
  pub loads : provider.load ≡ ok (some found)

-- The credentials of a chain are those of the first provider that has some, and every provider before
-- it answered with None.
pub load_credentials-IsFirst :
    (ps : List Provider) (found : Loaded) → load_credentials ps ≡ ok (some found) → IsFirst ps found
unfolding load_credentials
load_credentials-IsFirst [] found h = cc
load_credentials-IsFirst (p ∷ ps) found h = elim (Answer-cases p.load) [
  | inl (x, e) ↦ cc (rw (e, load_credentials) at h)
  | inr (inl e) ↦
      let later = load_credentials-IsFirst ps found (rw (e, load_credentials) at h) in
      record {
        before = p ∷ later.before;
        provider = later.provider;
        after = later.after;
        split = ap (λ (qs : List Provider). p ∷ qs) later.split;
        passed_over = (e, later.passed_over);
        loads = later.loads;
      }
  | inr (inr (c, e)) ↦
      let same : c ≡ found = cc (rw (e, load_credentials) at h) in
      record {
        before = [];
        provider = p;
        after = ps;
        split = refl;
        passed_over = tt;
        loads = rw same at e;
      }
]

-- Behind providers that answer with None, a provider that does not decides: its credentials or its
-- exception are the answer, whatever comes after it.
pub load_credentials-append :
    (before after : List Provider) (p : Provider)
    → AllEmpty before
    → p.load ≢ ok none
    → load_credentials (before ++ p ∷ after) ≡ p.load
unfolding load_credentials
load_credentials-append [] after p empty h = elim (Answer-cases p.load) [
  | inl (x, e) ↦ rw (e, load_credentials) refl
  | inr (inl e) ↦ absurd (h e)
  | inr (inr (c, e)) ↦ rw (e, load_credentials) refl
]
load_credentials-append (q ∷ before) after p empty h =
    rw (empty.0, load_credentials) (load_credentials-append before after p empty.1 h)

-- No provider of the list has the name.
abbrev pub IsNew : String → List Provider → Type 0
IsNew name [] = Unit {0}
IsNew name (q ∷ qs) = (str_eq q.method name ≡ false) × IsNew name qs

str_eq_same : (s : String) → str_eq s s ≡ true
str_eq_same s = ground (arith, eq_iff s s)

-- A provider of a new name that was put before another one can be taken out again: what is left is the
-- chain as it was.
pub remove_provider-insert_before :
    (name : String) (p : Provider) (ps ps' : List Provider)
    → IsNew p.method ps
    → insert_before name p ps ≡ ok ps'
    → remove_provider p.method ps' ≡ ps
unfolding insert_before remove_provider
remove_provider-insert_before name p [] ps' new h = cc
remove_provider-insert_before name p (q ∷ qs) ps' new h = elim (Bool-cases (str_eq q.method name)) [
  | inl here ↦
      let made : ◌≡◌ {A = Result (List Provider)} (ok (p ∷ q ∷ qs)) (ok ps') =
        rw (here, insert_before) at h in
      let same : p ∷ q ∷ qs ≡ ps' = cc (made) in
      rw (← same, str_eq_same p.method, remove_provider) refl
  | inr later ↦
      let (rest, inserted, made) =
        >>=-eq-ok (insert_before name p qs) _ (rw (later, insert_before) at h) in
      let same : q ∷ rest ≡ ps' = cc (made) in
      rw (← same, new.0, remove_provider)
        (ap (λ (rs : List Provider). q ∷ rs)
          (remove_provider-insert_before name p qs rest new.1 inserted))
]

-- A provider of a new name that was put behind another one can be taken out again: what is left is the
-- chain as it was.
remove_provider-insert_after :
    (name : String) (p : Provider) (ps ps' : List Provider)
    → IsNew p.method ps
    → insert_after name p ps ≡ ok ps'
    → remove_provider p.method ps' ≡ ps
unfolding insert_after remove_provider
remove_provider-insert_after name p [] ps' new h = cc
remove_provider-insert_after name p (q ∷ qs) ps' new h = elim (Bool-cases (str_eq q.method name)) [
  | inl here ↦
      let made : ◌≡◌ {A = Result (List Provider)} (ok (q ∷ p ∷ qs)) (ok ps') =
        rw (here, insert_after) at h in
      let same : q ∷ p ∷ qs ≡ ps' = cc (made) in
      rw (← same, new.0, str_eq_same p.method, remove_provider) refl
  | inr later ↦
      let (rest, inserted, made) =
        >>=-eq-ok (insert_after name p qs) _ (rw (later, insert_after) at h) in
      let same : q ∷ rest ≡ ps' = cc (made) in
      rw (← same, new.0, remove_provider)
        (ap (λ (rs : List Provider). q ∷ rs)
          (remove_provider-insert_after name p qs rest new.1 inserted))
]
