-- ===== src/Loaders/Latest.antt =====
-- Which version `determine_latest` chooses.
use jcsapitest.Prelude.{
  String, ◌≡◌, refl, sym, ◌∙◌, ◌⊎◌, inl, inr, Bool, true, false, ◌||◌, Option, none, some, List, [],
  ◌∷◌, ◌++◌, ◌==◌, Bool-cases, eq_iff, eq_refl, arith, str_eq, boto_error, ok, raise, >>=-eq-ok,
  ok-inj, ==_iff,
}
use jcsapitest.Text.Sorted.{text_leb, text_leb_total, text_leb_trans}
use jcsapitest.Loaders.{
  Files, insert_down, sorted_down, is_eligible, first_eligible, all_options, version_options,
  without_separator, erase, get_search_paths, determine_latest, count_dashes,
}

abbrev pub Each : (String → Type 0) → List String → Type 0
Each P [] = Unit
Each P (t ∷ ts) = P t × Each P ts

-- Whether the list holds the text
abbrev pub holds : String → List String → Bool
holds t [] = false
holds t (u ∷ us) = str_eq u t || holds t us

text_leb_refl : (t : String) → text_leb t t ≡ true
text_leb_refl t = elim (Bool-cases (text_leb t t)) [ inl e ↦ e | inr e ↦ text_leb_total t t e ]

Each-insert_down :
    (P : String → Type 0) (t : String) (us : List String)
    → Each P (insert_down t us)
    → P t × Each P us
unfolding insert_down
Each-insert_down P t [] h = h
Each-insert_down P t (u ∷ us) h = elim (Bool-cases (text_leb u t)) [
  | inl e ↦ rw e at h
  | inr e ↦
      let rest = rw e at h in
      let (here, there) = Each-insert_down P t us rest.1 in (here, (rest.0, there))
]

Each-sorted_down : (P : String → Type 0) (ts : List String) → Each P (sorted_down ts) → Each P ts
unfolding sorted_down
Each-sorted_down P [] h = tt
Each-sorted_down P (t ∷ ts) h =
    let (here, there) = Each-insert_down P t (sorted_down ts) h in
    (here, Each-sorted_down P ts there)

holds-insert_down :
    (b t : String) (us : List String) → holds b (insert_down t us) ≡ (str_eq t b || holds b us)
unfolding insert_down
holds-insert_down b t [] = refl
holds-insert_down b t (u ∷ us) = ground (arith, holds-insert_down b t us)

holds-sorted_down : (b : String) (ts : List String) → holds b (sorted_down ts) ≡ holds b ts
unfolding sorted_down
holds-sorted_down b [] = refl
holds-sorted_down b (t ∷ ts) =
    holds-insert_down b t (sorted_down ts) ∙ rw (holds-sorted_down b ts) refl

-- Each text is at least as great as those behind it.
abbrev Falls : List String → Type 0
Falls [] = Unit
Falls (t ∷ ts) = Each (λ u. text_leb u t ≡ true) ts × Falls ts

Each-below :
    (t u : String) (us : List String)
    → text_leb u t ≡ true
    → Each (λ w. text_leb w u ≡ true) us
    → Each (λ w. text_leb w t ≡ true) us
Each-below t u [] h below = tt
Each-below t u (w ∷ us) h below = (text_leb_trans w u t below.0 h, Each-below t u us h below.1)

insert_down-Each :
    (P : String → Type 0) (t : String) (us : List String)
    → P t
    → Each P us
    → Each P (insert_down t us)
unfolding insert_down
insert_down-Each P t [] here there = (here, tt)
insert_down-Each P t (u ∷ us) here there = elim (Bool-cases (text_leb u t)) [
  | inl e ↦ rw e (here, there)
  | inr e ↦ rw e (there.0, insert_down-Each P t us here there.1)
]

insert_down-Falls : (t : String) (us : List String) → Falls us → Falls (insert_down t us)
unfolding insert_down
insert_down-Falls t [] falls = (tt, tt)
insert_down-Falls t (u ∷ us) falls = elim (Bool-cases (text_leb u t)) [
  | inl e ↦ rw e ((e, Each-below t u us e falls.0), falls)
  | inr e ↦ rw e (
    insert_down-Each (λ w. text_leb w u ≡ true) t us (text_leb_total u t e) falls.0,
    insert_down-Falls t us falls.1,
  )
]

sorted_down-Falls : (ts : List String) → Falls (sorted_down ts)
unfolding sorted_down
sorted_down-Falls [] = tt
sorted_down-Falls (t ∷ ts) = insert_down-Falls t (sorted_down ts) (sorted_down-Falls ts)

-- Not eligible, or at most the best one
abbrev pub Within : Option String → String → String → Type 0
Within version best opt = (is_eligible version opt ≡ false) ⊎ (text_leb opt best ≡ true)

below-Within :
    (version : Option String) (best : String) (us : List String)
    → Each (λ u. text_leb u best ≡ true) us
    → Each (Within version best) us
below-Within version best [] h = tt
below-Within version best (u ∷ us) h = (inr h.0, below-Within version best us h.1)

or_true : (b : Bool) → (b || true) ≡ true
or_true true = refl
or_true false = refl

-- The first eligible text of a falling list
abbrev Best : Option String → List String → Type 0
Best version opts =
    ((best : String) × (first_eligible version opts ≡ some best)
      × (is_eligible version best ≡ true)
      × (holds best opts ≡ true)
      × Each (Within version best) opts)
    ⊎ ((first_eligible version opts ≡ none) × Each (λ opt. is_eligible version opt ≡ false) opts)

first_eligible-Best :
    (version : Option String) (opts : List String) → Falls opts → Best version opts
unfolding first_eligible
first_eligible-Best version [] falls = inr (refl, tt)
first_eligible-Best version (opt ∷ opts) falls = elim (Bool-cases (is_eligible version opt)) [
  | inl e ↦ inl (
    opt,
    rw e refl,
    e,
    rw (eq_refl opt) refl,
    (inr (text_leb_refl opt), below-Within version opt opts falls.0),
  )
  | inr e ↦ elim (first_eligible-Best version opts falls.1) [
    | inl (best, found, ok_, there, within) ↦
        inl (best, rw e found, ok_, rw there (or_true _), (inl e, within))
    | inr (found, never) ↦ inr (rw e found, (e, never))
  ]
]

-- The options have the form of a date: none is empty.
version_options-dashes :
    (files : Files) (root path : String) (raw : List String) {opts : List String}
    → version_options files root path raw ≡ ok opts
    → Each (λ opt. count_dashes opt ≡ 2) opts
unfolding version_options
version_options-dashes files root path [] returned = rw (← ok-inj returned) tt
version_options-dashes files root path (r ∷ raw) {opts} returned =
    let (opt, first, after) =
      >>=-eq-ok (without_separator (erase path 0 (files.splitext r))) _ returned in
    let (rest, more, done) = >>=-eq-ok (version_options files root path raw) _ after in
    let dashes = version_options-dashes files root path raw more in
    elim (Bool-cases (count_dashes opt == 2)) [
      | inl two ↦
          let e = rw two at done in rw (← ok-inj e) ((==_iff (count_dashes opt) 2).0 two, dashes)
      | inr other ↦ let e = rw other at done in rw (← ok-inj e) dashes
    ]

Each-append :
    (P : String → Type 0) (xs ys : List String) → Each P xs → Each P ys → Each P (xs ++ ys)
Each-append P [] ys h k = k
Each-append P (x ∷ xs) ys h k = (h.0, Each-append P xs ys h.1 k)

all_options-dashes :
    (files : Files) (root data_path : String) (paths : List String) {opts : List String}
    → all_options files root data_path paths ≡ ok opts
    → Each (λ opt. count_dashes opt ≡ 2) opts
unfolding all_options
all_options-dashes files root data_path [] returned = rw (← ok-inj returned) tt
all_options-dashes files root data_path (p ∷ paths) {opts} returned =
    elim (Bool-cases (files.isdir (files.join p data_path))) [
      | inl e ↦
          let (here, first, after) =
            >>=-eq-ok
              (version_options files root (files.join p data_path)
                (files.glob (files.join (files.join p data_path) "*normal.json")))
              _ (rw e at returned) in
          let (rest, more, done) = >>=-eq-ok (all_options files root data_path paths) _ after in
          rw (← ok-inj done) (
            Each-append (λ opt. count_dashes opt ≡ 2) here rest
              (version_options-dashes files root (files.join p data_path) _ first)
              (all_options-dashes files root data_path paths more))
      | inr e ↦ all_options-dashes files root data_path paths (rw e at returned)
    ]

held-nonempty :
    (best : String) (opts : List String)
    → holds best opts ≡ true
    → Each (λ opt. count_dashes opt ≡ 2) opts
    → str_eq best "" ≡ false
held-nonempty best [] held dashes = cc
held-nonempty best (opt ∷ opts) held dashes = elim (Bool-cases (str_eq opt best)) [
  | inl same ↦ elim (Bool-cases (str_eq best "")) [
    | inl empty ↦
        let two : count_dashes "" ≡ 2 =
          rw (← (eq_iff best "").0 empty, ← (eq_iff opt best).0 same) dashes.0 in
        absurd (unfold count_dashes in omega (arith, two))
    | inr nonempty ↦ nonempty
  ]
  | inr other ↦ held-nonempty best opts (rw other at held) dashes.1
]

-- If the versions that the search paths offer can be collected, that is, if none is empty once its path is taken
-- away, then `determine_latest` returns the path of the greatest one that is eligible: any version, if none is asked for, and otherwise one whose date is that asked for
-- or which is smaller than that text. If none is eligible, it raises an ApiVersionNotFoundError.
pub determine_latest-Best :
    (files : Files) (root : String) (search_path : Option String) (data_path : String)
    (version : Option String) (options : List String)
    → all_options files root data_path (get_search_paths files root search_path) ≡ ok options
    → ((best : String) × (determine_latest files root search_path data_path version
          ≡ ok (files.join data_path best))
        × (is_eligible version best ≡ true)
        × (holds best options ≡ true)
        × Each (Within version best) options)
      ⊎ ((determine_latest files root search_path data_path version
            ≡ raise (boto_error "ApiVersionNotFoundError" data_path))
          × Each (λ opt. is_eligible version opt ≡ false) options)
unfolding determine_latest
determine_latest-Best files root search_path data_path version options collected =
    elim (first_eligible-Best version (sorted_down options) (sorted_down-Falls options)) [
      | inl (best, found, eligible, held, within) ↦
          let there = sym (holds-sorted_down best options) ∙ held in
          let nonempty =
            held-nonempty best options there
              (all_options-dashes files root data_path _ collected) in
          inl (
            best,
            rw (collected, found, nonempty) refl,
            eligible,
            there,
            Each-sorted_down (Within version best) options within,
          )
      | inr (found, never) ↦ inr (
        rw (collected, found) refl,
        Each-sorted_down (λ opt. is_eligible version opt ≡ false) options never,
      )
    ]
