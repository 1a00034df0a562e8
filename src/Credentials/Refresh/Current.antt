-- ===== src/Credentials/Refresh/Current.antt =====
-- What a reader of the credentials of botocore/credentials.py that refresh gets.
use jcsapitest.Prelude.{
  ℕ, String, ◌≡◌, ◌⊎◌, inl, inr, sym, ap, ◌∙◌, false, some, Dict, item, Bool-cases, Result-cases,
  Result, ok, raise,
}
use jcsapitest.Credentials.Refresh.{
  Refreshable, refresh_needed, set_from_data, refresh, access_key_of, read,
}

-- The credentials hold the fields of an answer.
pub record IsFrom (parse : String → Result ℕ) (metadata : Dict String) (c : Refreshable)
    : Type 0 where
  pub access : item "access_key" metadata ≡ ok c.access_key
  pub secret : item "secret_key" metadata ≡ ok c.secret_key
  pub token : item "token" metadata ≡ ok c.token
  pub time : String
  pub has_time : item "expiry_time" metadata ≡ ok time
  pub expiry : ℕ
  pub parsed : parse time ≡ ok expiry
  pub expires : c.expiry_time ≡ some expiry

abbrev updated : Refreshable → String → String → String → ℕ → Refreshable
updated c access secret token expiry = record {
  access_key = access;
  secret_key = secret;
  token = token;
  expiry_time = some expiry;
  method = c.method;
}

-- A read that returns stands behind a refresh that did.
read_returned :
    {A : Type 0} (f : Refreshable → A) (r : Refreshable × Result (Unit {0})) (c : Refreshable)
    (a : A)
    → read f r ≡ (c, ok a)
    → (r ≡ (c, ok tt)) × (f c ≡ a)
read_returned f (d, raise e) c a h =
    let second : ◌≡◌ {A = Result _} (raise e) (ok a) = ap (λ p. p.1) h in cc
read_returned f (d, ok done) c a h =
    let first : d ≡ c = ap (λ p. p.0) h in
    let second : ◌≡◌ {A = Result _} (ok (f d)) (ok a) = ap (λ p. p.1) h in
    (ap (λ (x : Refreshable). (x, ok tt)) first, cc)

module _ (parse : String → Result ℕ) where
  set_from_data-IsFrom :
      (metadata : Dict String) (c c' : Refreshable)
      → set_from_data parse metadata c ≡ (c', ok tt)
      → IsFrom parse metadata c'
  unfolding set_from_data
  set_from_data-IsFrom metadata c c' h = elim (Result-cases (item "access_key" metadata)) [
    | inl (x, e) ↦ cc (rw (e, set_from_data) at h)
    | inr (access, e₁) ↦ elim (Result-cases (item "secret_key" metadata)) [
      | inl (x, e) ↦ cc (rw (e₁, e, set_from_data) at h)
      | inr (secret, e₂) ↦ elim (Result-cases (item "token" metadata)) [
        | inl (x, e) ↦ cc (rw (e₁, e₂, e, set_from_data) at h)
        | inr (token, e₃) ↦ elim (Result-cases (item "expiry_time" metadata)) [
          | inl (x, e) ↦ cc (rw (e₁, e₂, e₃, e, set_from_data) at h)
          | inr (time, e₄) ↦ elim (Result-cases (parse time)) [
            | inl (x, e) ↦ cc (rw (e₁, e₂, e₃, e₄, e, set_from_data) at h)
            | inr (expiry, e₅) ↦
                let same : updated c access secret token expiry ≡ c' =
                  cc (rw (e₁, e₂, e₃, e₄, e₅, set_from_data) at h) in
                record {
                  access = e₁ ∙ ap (λ (d : Refreshable). ok d.access_key) same;
                  secret = e₂ ∙ ap (λ (d : Refreshable). ok d.secret_key) same;
                  token = e₃ ∙ ap (λ (d : Refreshable). ok d.token) same;
                  time = time;
                  has_time = e₄;
                  expiry = expiry;
                  parsed = e₅;
                  expires = sym (ap (λ (d : Refreshable). d.expiry_time) same);
                }
          ]
        ]
      ]
    ]
  ]

  -- A refresh that returns has left current credentials alone, or has taken all of them from the one
  -- answer of the service.
  refresh-IsFrom :
      (now : ℕ) (fetched : Result (Dict String)) (c c' : Refreshable)
      → refresh parse now fetched c ≡ (c', ok tt)
      → ((refresh_needed now c ≡ false) × (c' ≡ c))
        ⊎ ((metadata : Dict String) × (fetched ≡ ok metadata) × IsFrom parse metadata c')
  unfolding refresh
  refresh-IsFrom now fetched c c' h = elim (Bool-cases (refresh_needed now c)) [
    | inr current ↦ inl (current, cc (rw (current, refresh) at h))
    | inl needed ↦ elim (Result-cases fetched) [
      | inl (x, e) ↦ cc (rw (needed, e, refresh) at h)
      | inr (metadata, e) ↦
          inr (metadata, e, set_from_data-IsFrom metadata c c' (rw (needed, e, refresh) at h))
    ]
  ]

  -- An access key that is read is that of the object behind the reading, and this object is the one
  -- before, if that has time left, or else holds the key, the secret key, the token and the expiry
  -- time of one answer of the metadata service.
  pub access_key_of-IsFrom :
      (now : ℕ) (fetched : Result (Dict String)) (c c' : Refreshable) (key : String)
      → access_key_of parse now fetched c ≡ (c', ok key)
      → (c'.access_key ≡ key)
        × (((refresh_needed now c ≡ false) × (c' ≡ c))
            ⊎ ((metadata : Dict String) × (fetched ≡ ok metadata) × IsFrom parse metadata c'))
  unfolding access_key_of
  access_key_of-IsFrom now fetched c c' key h =
      let (done, same) =
        read_returned (λ (d : Refreshable). d.access_key) (refresh parse now fetched c) c' key h in
      (same, refresh-IsFrom now fetched c c' done)
