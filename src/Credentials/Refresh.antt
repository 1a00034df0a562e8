-- ===== src/Credentials/Refresh.antt =====
-- botocore/credentials.py: `Credentials` and `RefreshableCredentials`. A time is its number of
-- microseconds. What the metadata service answers, and the parser of its times, are parameters.
pub mod Current
use jcsapitest.Prelude.{
  ℕ, ◌+◌, ◌*◌, String, Bool, true, false, not, Option, none, some, leb, Dict, item, Result, ok,
  raise, ◌>>=◌, if◌then◌else◌,
}

pub record Credentials : Type 0 where
  pub access_key : String
  pub secret_key : String
  pub token : Option String
  pub method : String

-- The fields of `RefreshableCredentials` that change; without an expiry time it never refreshes.
pub record Refreshable : Type 0 where
  pub access_key : String
  pub secret_key : String
  pub token : String
  pub expiry_time : Option ℕ
  pub method : String

abbrev pub refresh_timeout : ℕ
refresh_timeout = 15 * 60 * 1000000

-- self._seconds_remaining() >= self.refresh_timeout, with the subtraction moved to the other side
unfoldable pub refresh_needed : (now : ℕ) → Refreshable → Bool
refresh_needed now c = elim c.expiry_time [
  | none ↦ false
  | some expiry ↦ not (leb (now + refresh_timeout) expiry)
]

-- One assignment of `_set_from_data`: a missing key ends it, with the fields set so far.
abbrev set_field :
    {A : Type 0}
    → Result A
    → (A → Refreshable)
    → Refreshable
    → (Refreshable → Refreshable × Result (Unit {0}))
    → Refreshable × Result (Unit {0})
set_field (raise e) set c rest = (c, raise e)
set_field (ok v) set c rest = rest (set v)

-- The three properties: they refresh before they read.
abbrev pub read :
    {A : Type 0} → (Refreshable → A) → Refreshable × Result (Unit {0}) → Refreshable × Result A
read field (c, raise e) = (c, raise e)
read field (c, ok done) = (c, ok (field c))

-- `parse` is that of dateutil.
module _ (parse : String → Result ℕ) where
  -- RefreshableCredentials.create_from_metadata
  unfoldable pub create_from_metadata : Dict String → String → Result Refreshable
  unfolding item
  create_from_metadata metadata method = item "access_key" metadata >>= λ access.
      item "secret_key" metadata >>= λ secret. item "token" metadata >>= λ token.
      item "expiry_time" metadata >>= λ time. parse time >>= λ expiry. ok (record {
        access_key = access;
        secret_key = secret;
        token = token;
        expiry_time = some expiry;
        method = method;
      })

  unfoldable pub set_from_data : Dict String → Refreshable → Refreshable × Result (Unit {0})
  unfolding item
  set_from_data metadata c =
      set_field (item "access_key" metadata) (λ v. record c { access_key = v }) c
        (λ c₁.
          set_field (item "secret_key" metadata) (λ v. record c₁ { secret_key = v }) c₁
            (λ c₂.
              set_field (item "token" metadata) (λ v. record c₂ { token = v }) c₂
                (λ c₃.
                  set_field (item "expiry_time" metadata >>= parse)
                    (λ v. record c₃ { expiry_time = some v }) c₃ (λ c₄. (c₄, ok tt)))))

  -- _refresh, at a time and with the service's answer
  unfoldable pub refresh :
      (now : ℕ) → Result (Dict String) → Refreshable → Refreshable × Result (Unit {0})
  unfolding refresh_needed set_from_data
  refresh now fetched c =
      if refresh_needed now c
      then elim fetched [ raise e ↦ (c, raise e) | ok metadata ↦ set_from_data metadata c ]
      else (c, ok tt)

  unfoldable pub access_key_of :
      (now : ℕ) → Result (Dict String) → Refreshable → Refreshable × Result String
  unfolding refresh
  access_key_of now fetched c = read (λ (d : Refreshable). d.access_key) (refresh now fetched c)

  unfoldable pub secret_key_of :
      (now : ℕ) → Result (Dict String) → Refreshable → Refreshable × Result String
  unfolding refresh
  secret_key_of now fetched c = read (λ (d : Refreshable). d.secret_key) (refresh now fetched c)

  unfoldable pub token_of :
      (now : ℕ) → Result (Dict String) → Refreshable → Refreshable × Result String
  unfolding refresh
  token_of now fetched c = read (λ (d : Refreshable). d.token) (refresh now fetched c)
