-- ===== src/Paginate/Tokens/RoundTrip.antt =====
-- The resume token of botocore/paginate.py gives back the tokens and the index that it was made of.
use Prim.Native.Char.{Char}
use jcsapitest.Prelude.{
  ℕ, suc, ◌+◌, String, ◌≡◌, ◌≢◌, refl, ap, inl, inr, true, false, Bool-cases, List, [], ◌∷◌, ◌++◌,
  map, ◌==◌, length, length-append, str_eq, eq_iff, arith, ok,
}
use jcsapitest.Value.Int.{ℤ, pos}
use jcsapitest.Value.{Value, str}
use jcsapitest.Text.{int_of, show_int}
use jcsapitest.Text.Decimal.{int_of-show_int, IsDigit, AllDigits, show_int-AllDigits}
use jcsapitest.Paginate.Tokens.Split.{IsSafe, AllSafe, AllSafe-append, split-join}
use jcsapitest.Paginate.Tokens.{
  is_mark, split, token_text, resume_text, parse_part, last_part, other_parts, read_index,
  parse_starting_token,
}

-- What comes back from a resume token as it was: None, and a text that is not "None" and is safe.
pub data IsToken : Value → Type 0 where
  no_token : IsToken Value.null
  a_text : {p : String} → p ≢ "None" → IsSafe p → IsToken (Value.str p)

abbrev pub AllTokens : List Value → Type 0
AllTokens [] = Unit {0}
AllTokens (v ∷ vs) = IsToken v × AllTokens vs

digit_is_mark : (c : Char) → IsDigit c → is_mark c ≡ false
digit_is_mark c h = ground arith

AllDigits-IsSafe : (s : String) → AllDigits s → IsSafe s
unfolding IsSafe
AllDigits-IsSafe String.[] h = tt
AllDigits-IsSafe (String.◌∷◌ c String.[]) h = (rw (digit_is_mark c h.0) refl, tt)
AllDigits-IsSafe (String.◌∷◌ c (String.◌∷◌ d String.[])) h =
    (rw (digit_is_mark c h.0) refl, (rw (digit_is_mark d h.1.0) refl, tt))
AllDigits-IsSafe (String.◌∷◌ c (String.◌∷◌ d (String.◌∷◌ e s))) h =
    (rw (digit_is_mark c h.0) refl, AllDigits-IsSafe (String.◌∷◌ d (String.◌∷◌ e s)) h.1)

last_part-append : (ps : List String) (x : String) → last_part (ps ++ x ∷ []) ≡ x
last_part-append [] x = refl
last_part-append (p ∷ []) x = refl
last_part-append (p ∷ q ∷ ps) x = last_part-append (q ∷ ps) x

other_parts-append : (ps : List String) (x : String) → other_parts (ps ++ x ∷ []) ≡ ps
other_parts-append [] x = refl
other_parts-append (p ∷ []) x = refl
other_parts-append (p ∷ q ∷ ps) x = ap (λ rest. p ∷ rest) (other_parts-append (q ∷ ps) x)

parse-page :
    (count : ℕ) (s : String) (parts : List String)
    → split s ≡ parts
    → length parts ≡ count
    → parse_starting_token count s ≡ ok (map parse_part parts, pos 0)
unfolding parse_starting_token
parse-page count s parts e l =
    let test : (count == count + 1) ≡ false = ground arith in
    rw (parse_starting_token, e, l, test) refl

parse-index :
    (count : ℕ) (s : String) (parts : List String) (x : String) (i : ℤ)
    → split s ≡ parts ++ x ∷ []
    → length parts ≡ count
    → int_of x ≡ ok i
    → parse_starting_token count s ≡ ok (map parse_part parts, i)
unfolding parse_starting_token read_index
parse-index count s parts x i e l read =
    let long : length (parts ++ x ∷ []) ≡ count + 1 = cc (length-append parts (x ∷ []), l) in
    let test : (count + 1 == count + 1) ≡ true = ground arith in
    rw
      (
        parse_starting_token,
        e,
        long,
        test,
        last_part-append parts x,
        other_parts-append parts x,
        read_index,
        read,
      )
      refl

module _ (to_text : Value → String) where
  parse_part-token_text : (v : Value) → IsToken v → parse_part (token_text to_text v) ≡ v
  unfolding token_text
  parse_part-token_text v no_token = refl
  parse_part-token_text v (a_text {p} differs safe) = elim (Bool-cases (str_eq p "None")) [
    | inl same ↦ absurd (differs ((eq_iff p "None").0 same))
    | inr other ↦ rw (other) refl
  ]

  token_text-IsSafe : (v : Value) → IsToken v → IsSafe (token_text to_text v)
  unfolding token_text IsSafe
  token_text-IsSafe v no_token = (refl, (refl, (refl, (refl, tt))))
  token_text-IsSafe v (a_text {p} differs safe) = safe

  map_parse_part :
      (vs : List Value) → AllTokens vs → map parse_part (map (token_text to_text) vs) ≡ vs
  map_parse_part [] h = refl
  map_parse_part (v ∷ vs) h = cc (parse_part-token_text v h.0, map_parse_part vs h.1)

  AllTokens-AllSafe : (vs : List Value) → AllTokens vs → AllSafe (map (token_text to_text) vs)
  AllTokens-AllSafe [] h = tt
  AllTokens-AllSafe (v ∷ vs) h = (token_text-IsSafe v h.0, AllTokens-AllSafe vs h.1)

  map_token-append :
      (vs : List Value) (s : String)
      → map (token_text to_text) (vs ++ str s ∷ []) ≡ map (token_text to_text) vs ++ s ∷ []
  unfolding token_text
  map_token-append [] s = refl
  map_token-append (v ∷ vs) s = ap (λ rest. token_text to_text v ∷ rest) (map_token-append vs s)

  length-map_token : (vs : List Value) → length (map (token_text to_text) vs) ≡ length vs
  length-map_token [] = refl
  length-map_token (v ∷ vs) = ap suc (length-map_token vs)

  split-resume_text :
      (v : Value) (vs : List Value)
      → AllTokens (v ∷ vs)
      → split (resume_text to_text (v ∷ vs)) ≡ map (token_text to_text) (v ∷ vs)
  unfolding resume_text
  split-resume_text v vs h =
      split-join (token_text to_text v) (map (token_text to_text) vs) (AllTokens-AllSafe (v ∷ vs) h)

  -- The index behind the tokens is a part of its own.
  split-index :
      (v : Value) (vs : List Value) (n : ℕ)
      → AllTokens (v ∷ vs)
      → split (resume_text to_text (v ∷ vs ++ str (show_int (pos n)) ∷ []))
        ≡ map (token_text to_text) (v ∷ vs) ++ show_int (pos n) ∷ []
  unfolding resume_text token_text
  split-index v vs n h =
      let safe =
        AllSafe-append (map (token_text to_text) (v ∷ vs)) (show_int (pos n))
          (AllTokens-AllSafe (v ∷ vs) h)
          (AllDigits-IsSafe (show_int (pos n)) (show_int-AllDigits n)) in
      let parts = map_token-append vs (show_int (pos n)) in
      rw (resume_text, parts)
        (split-join (token_text to_text v) (map (token_text to_text) vs ++ show_int (pos n) ∷ [])
          safe)

  -- A resume token made of one or more tokens of the service, each None or a text other than "None" that
  -- does not contain '___' and does not end in an underscore, gives back the tokens with the
  -- index 0; and with an index into the page behind them it gives back both.
  pub parse_starting_token-resume_text :
      (v : Value) (vs : List Value) (n : ℕ)
      → AllTokens (v ∷ vs)
      → (parse_starting_token (length (v ∷ vs)) (resume_text to_text (v ∷ vs)) ≡ ok (v ∷ vs, pos 0))
        × (parse_starting_token
              (length (v ∷ vs))
              (resume_text to_text (v ∷ vs ++ str (show_int (pos n)) ∷ []))
            ≡ ok (v ∷ vs, pos n))
  parse_starting_token-resume_text v vs n h =
      let back = map_parse_part (v ∷ vs) h in
      let l = length-map_token (v ∷ vs) in
      (
        cc (
          parse-page (length (v ∷ vs)) (resume_text to_text (v ∷ vs))
              (map (token_text to_text) (v ∷ vs)) (split-resume_text v vs h) l,
          back,
        ),
        cc (
          parse-index (length (v ∷ vs))
              (resume_text to_text (v ∷ vs ++ str (show_int (pos n)) ∷ []))
              (map (token_text to_text) (v ∷ vs)) (show_int (pos n)) (pos n) (split-index v vs n h)
              l (int_of-show_int n),
          back,
        ),
      )
