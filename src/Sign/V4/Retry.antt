-- ===== src/Sign/V4/Retry.antt =====
-- What signing a request again makes of the headers of the first signature.
use jcsapitest.Prelude.{
  String, Bool, true, false, ◌||◌, ◌≡◌, refl, sym, ◌∙◌, inl, inr, List, [], ◌∷◌, ◌++◌, some, str_eq,
  Bool-cases, ok, ok-inj, append-nil, append_assoc,
}
use jcsapitest.Sign.Headers.{Headers, has_header, remove_header, add_header}
use jcsapitest.Sign.Canonical.{Body, Request}
use jcsapitest.Sign.Headers.Removal.{
  remove_header-append, has_header-append, has_header-remove_other, remove_all, remove_all-append,
  remove_all_idem,
}
use jcsapitest.Sign.V4.{
  Variant, v4, s3, Library, Signer, payload, set_checksum, set_token, set_necessary_date_headers,
  modify_request_before_signing, prepared, add_auth, signature, string_to_sign, canonical_request,
  authorization,
}

-- The headers that signing replaces, and those that it sets, by whether there is a Date, whether there is
-- no token, and the class
abbrev checksum_names : Variant → List String
checksum_names v4 = []
checksum_names s3 = "x-amz-content-sha256" ∷ []

abbrev token_names : Bool → List String
token_names true = []
token_names false = "x-amz-security-token" ∷ []

abbrev date_names : Bool → List String
date_names true = "x-amz-date" ∷ "date" ∷ "authorization" ∷ []
date_names false = "x-amz-date" ∷ "authorization" ∷ []

abbrev names : Bool → Bool → Variant → List String
names date no_token variant = checksum_names variant ++ (token_names no_token ++ date_names date)

module _ (lib : Library) (timestamp token : String) (body : Body) where
  open lib use {formatdate}

  abbrev date_header : Bool → Headers
  date_header true = ("Date", formatdate timestamp) ∷ []
  date_header false = ("X-Amz-Date", timestamp) ∷ []

  abbrev token_header : Bool → Headers
  token_header true = []
  token_header false = ("X-Amz-Security-Token", token) ∷ []

  abbrev checksum_header : Variant → Headers
  checksum_header v4 = []
  checksum_header s3 = ("X-Amz-Content-SHA256", payload lib body) ∷ []

  abbrev set_headers : Bool → Bool → Variant → Headers
  set_headers date no_token variant =
      date_header date ++ (token_header no_token ++ checksum_header variant)

  abbrev dated : Bool → Headers → Headers
  dated true xs =
      remove_header "x-amz-date"
        (add_header "Date" (formatdate timestamp) (remove_header "date" xs))
  dated false xs = add_header "X-Amz-Date" timestamp (remove_header "x-amz-date" xs)

  abbrev tokened : Bool → Headers → Headers
  tokened true xs = xs
  tokened false xs =
      add_header "X-Amz-Security-Token" token (remove_header "x-amz-security-token" xs)

  abbrev modified : Bool → Bool → Variant → Headers → Headers
  modified date no_token variant xs =
      set_checksum lib variant body
        (tokened no_token (dated date (remove_header "authorization" xs)))

  modified-eq :
      (date no_token : Bool) (variant : Variant) (xs : Headers)
      → modified date no_token variant xs
        ≡ remove_all (names date no_token variant) xs ++ set_headers date no_token variant
  unfolding remove_header
  modified-eq true true v4 xs = simp (remove_header-append, append_assoc)
  modified-eq true true s3 xs = simp (remove_header-append, append_assoc)
  modified-eq true false v4 xs = simp (remove_header-append, append_assoc)
  modified-eq true false s3 xs = simp (remove_header-append, append_assoc)
  modified-eq false true v4 xs = refl
  modified-eq false true s3 xs = simp (remove_header-append, append_assoc)
  modified-eq false false v4 xs = simp (remove_header-append, append_assoc)
  modified-eq false false s3 xs = simp (remove_header-append, append_assoc)

  dated-eq :
      (xs : Headers) → set_necessary_date_headers lib timestamp xs ≡ dated (has_header "date" xs) xs
  unfolding set_necessary_date_headers
  dated-eq xs = elim (Bool-cases (has_header "date" xs)) [ inl e ↦ rw e refl | inr e ↦ rw e refl ]

  tokened-eq : (xs : Headers) → set_token lib token xs ≡ tokened (str_eq token "") xs
  tokened-eq xs = elim (Bool-cases (str_eq token "")) [ inl e ↦ rw e refl | inr e ↦ rw e refl ]

-- The headers of a request that is to be signed: those that are not replaced, and those that are set
modify-eq :
    (lib : Library) (s : Signer) (timestamp : String) (body : Body) (xs : Headers)
    → modify_request_before_signing lib s timestamp body xs
      ≡ remove_all (names (has_header "date" xs) (str_eq s.credentials.token "") s.variant) xs
        ++ set_headers lib timestamp s.credentials.token body
            (has_header "date" xs)
            (str_eq s.credentials.token "")
            s.variant
unfolding modify_request_before_signing
modify-eq lib s timestamp body xs =
    rw
      (
        dated-eq lib timestamp s.credentials.token body (remove_header "authorization" xs),
        tokened-eq lib timestamp s.credentials.token body,
        has_header-remove_other "authorization" "date" xs refl,
      )
      (modified-eq lib timestamp s.credentials.token body (has_header "date" xs)
        (str_eq s.credentials.token "") s.variant xs)

module _ (lib : Library) (timestamp token authorized : String) (body : Body) where
  -- What a first signature adds, and what a second one removes of it
  abbrev added : Bool → Bool → Variant → Headers
  added date no_token variant =
      set_headers lib timestamp token body date no_token variant
      ++ ("Authorization", authorized) ∷ []

  added-removed :
      (date no_token : Bool) (variant : Variant)
      → remove_all (names date no_token variant) (added date no_token variant) ≡ []
  unfolding remove_header
  added-removed true true v4 = refl
  added-removed true true s3 = refl
  added-removed true false v4 = refl
  added-removed true false s3 = refl
  added-removed false true v4 = refl
  added-removed false true s3 = refl
  added-removed false false v4 = refl
  added-removed false false s3 = refl

  added-date :
      (date no_token : Bool) (variant : Variant)
      → has_header "date" (added date no_token variant) ≡ date
  unfolding has_header
  added-date true true v4 = refl
  added-date true true s3 = refl
  added-date true false v4 = refl
  added-date true false s3 = refl
  added-date false true v4 = refl
  added-date false true s3 = refl
  added-date false false v4 = refl
  added-date false false s3 = refl

-- Without a Date, removing the other names leaves the request without one.
date-kept :
    (name : String) (xs : Headers)
    → str_eq name "date" ≡ false
    → has_header "date" (remove_header name xs) ≡ has_header "date" xs
date-kept name xs other = has_header-remove_other name "date" xs other

names-date :
    (no_token : Bool) (variant : Variant) (xs : Headers)
    → has_header "date" (remove_all (names false no_token variant) xs) ≡ has_header "date" xs
names-date no_token variant xs =
    let base =
      date-kept "x-amz-date" (remove_header "authorization" xs) refl
      ∙ date-kept "authorization" xs refl in
    tokens no_token variant xs base
  where
    tokens :
        (no_token : Bool) (variant : Variant) (xs : Headers)
        → has_header "date" (remove_all ("x-amz-date" ∷ "authorization" ∷ []) xs)
          ≡ has_header "date" xs
        → has_header "date" (remove_all (names false no_token variant) xs) ≡ has_header "date" xs
    tokens true v4 xs base = base
    tokens true s3 xs base = date-kept "x-amz-content-sha256" _ refl ∙ base
    tokens false v4 xs base = date-kept "x-amz-security-token" _ refl ∙ base
    tokens false s3 xs base =
        date-kept "x-amz-content-sha256" _ refl ∙ (date-kept "x-amz-security-token" _ refl ∙ base)

or-true : (b : Bool) → (b || true) ≡ true
or-true true = refl
or-true false = refl

module _ (lib : Library) (s : Signer) (first second authorized : String) (body : Body)
    (xs : Headers) where
  abbrev no_token : Bool
  no_token = str_eq s.credentials.token ""

  abbrev signed_once : Bool → Headers
  signed_once date =
      remove_all (names date no_token s.variant) xs
      ++ added lib first s.credentials.token authorized body date no_token s.variant

  signed_once-date :
      (date : Bool) → has_header "date" xs ≡ date → has_header "date" (signed_once date) ≡ date
  signed_once-date true e =
      has_header-append "date" (remove_all (names true no_token s.variant) xs) _
      ∙ rw (added-date lib first s.credentials.token authorized body true no_token s.variant)
          (or-true _)
  signed_once-date false e =
      has_header-append "date" (remove_all (names false no_token s.variant) xs) _
      ∙ rw
          (
            added-date lib first s.credentials.token authorized body false no_token s.variant,
            names-date no_token s.variant xs,
            e,
          )
          refl

  signed_once-removed :
      (date : Bool)
      → remove_all (names date no_token s.variant) (signed_once date)
        ≡ remove_all (names date no_token s.variant) xs
  signed_once-removed date =
      remove_all-append (names date no_token s.variant)
        (remove_all (names date no_token s.variant) xs) _
      ∙ rw
          (
            added-removed lib first s.credentials.token authorized body date no_token s.variant,
            remove_all_idem (names date no_token s.variant) xs,
          )
          (append-nil (remove_all (names date no_token s.variant) xs))

  modify-signed :
      modify_request_before_signing lib s second body
        (add_header "Authorization" authorized (modify_request_before_signing lib s first body xs))
      ≡ modify_request_before_signing lib s second body xs
  modify-signed =
      let date = has_header "date" xs in
      rw
        (
          modify-eq lib s first body xs,
          append_assoc,
          modify-eq lib s second body (signed_once date),
          signed_once-date date refl,
          signed_once-removed date,
        )
        (sym (modify-eq lib s second body xs))

-- A request that was signed once is signed at a later time just as the request before it: the headers that
-- the first signature set do not count, whatever they were.
pub add_auth-add_auth :
    (lib : Library) (s : Signer) (first second : String) (r signed : Request)
    → add_auth lib (some s) first r ≡ ok signed
    → add_auth lib (some s) second signed ≡ add_auth lib (some s) second r
unfolding add_auth prepared
add_auth-add_auth lib s first second r signed e =
    let once = prepared lib s first r in
    let mark =
      authorization lib s once
        (signature lib s once (string_to_sign lib s once (canonical_request lib s.variant once))) in
    rw (← ok-inj e, modify-signed lib s first second mark r.body r.headers) refl
