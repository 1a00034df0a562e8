-- ===== src/Endpoint/Hostname/Labels.antt =====
-- What the host name test of botocore/utils.py lets through.
use mathlib.Core.Bool.{and_assoc}
use jcsapitest.Prelude.{
  Bool-cases, String, Option, some, ok, ℕ, suc, ◌+◌, ◌≡◌, ◌≢◌, inl, inr, refl, Bool, true, false,
  not, ◌&&◌, List, [], ◌∷◌, ◌==◌, arith, leb, length, split_on, cons_head,
}
use jcsapitest.Endpoint.Hostname.{
  is_allowed, at_end, match_from, starts_with_dash, label_matches, all_match, drop_last_dot,
  is_valid_hostname, is_valid_endpoint_url,
}

abbrev pub all_allowed : List ℕ → Bool
all_allowed [] = true
all_allowed (c ∷ cs) = is_allowed c && all_allowed cs

abbrev pub last_char : ℕ → List ℕ → ℕ
last_char last [] = last
last_char last (c ∷ cs) = last_char c cs

abbrev pub NoNewline : List ℕ → Type 0
NoNewline [] = Unit {0}
NoNewline (c ∷ cs) = (c ≢ 10) × NoNewline cs

-- RFC 952 and RFC 1123: 1 to 63 letters, digits and dashes, with no dash at either end.
abbrev pub is_label : List ℕ → Bool
is_label cs =
    not (starts_with_dash cs)
    && (all_allowed cs
        && (leb 1 (length cs) && (leb (length cs) 63 && not (last_char 0 cs == b'-'))))

abbrev pub all_labels : List (List ℕ) → Bool
all_labels [] = true
all_labels (l ∷ ls) = is_label l && all_labels ls

at_end-no_newline : (c : ℕ) (cs : List ℕ) → c ≢ 10 → at_end (c ∷ cs) ≡ false
unfolding at_end
at_end-no_newline c [] h = ground arith
at_end-no_newline c (d ∷ cs) h = refl

match_from-eq :
    (last count : ℕ) (cs : List ℕ)
    → NoNewline cs
    → match_from last count cs ≡ (
        all_allowed cs
        && (leb 1 (count + length cs)
            && (leb (count + length cs) 63 && not (last_char last cs == b'-'))))
unfolding match_from
match_from-eq last count [] h =
    let e : count + 0 ≡ count = omega arith in
    rw (e, and_assoc (leb 1 count) (leb count 63) (not (last == b'-')))
match_from-eq last count (c ∷ cs) h = elim (Bool-cases (is_allowed c)) [
  | inl yes_allowed ↦
      let e : count + 1 + length cs ≡ count + suc (length cs) = omega arith in
      rw (yes_allowed, match_from-eq c (count + 1) cs h.1, e)
  | inr other ↦ rw (other, at_end-no_newline c cs h.0)
]

label_matches-eq : (cs : List ℕ) → NoNewline cs → label_matches cs ≡ is_label cs
unfolding label_matches
label_matches-eq cs h =
    let e : 0 + length cs ≡ length cs = omega arith in rw (match_from-eq 0 0 cs h, e)

abbrev pub NoNewlines : List (List ℕ) → Type 0
NoNewlines [] = Unit {0}
NoNewlines (l ∷ ls) = NoNewline l × NoNewlines ls

all_match-eq : (ls : List (List ℕ)) → NoNewlines ls → all_match ls ≡ all_labels ls
unfolding all_match
all_match-eq [] h = refl
all_match-eq (l ∷ ls) h = rw (label_matches-eq l h.0, all_match-eq ls h.1)

NoNewlines-cons_head :
    (c : ℕ) (ls : List (List ℕ)) → c ≢ 10 → NoNewlines ls → NoNewlines (cons_head c ls)
NoNewlines-cons_head c [] h n = ((h, tt), tt)
NoNewlines-cons_head c (l ∷ ls) h n = ((h, n.0), n.1)

NoNewlines-split_on : (d : ℕ) (cs : List ℕ) → NoNewline cs → NoNewlines (split_on d cs)
unfolding split_on
NoNewlines-split_on d [] h = (tt, tt)
NoNewlines-split_on d (c ∷ cs) h = ground (
  arith,
  NoNewlines-split_on d cs h.1,
  NoNewlines-cons_head c (split_on d cs) h.0 (NoNewlines-split_on d cs h.1),
)

NoNewline-drop_last_dot : (cs : List ℕ) → NoNewline cs → NoNewline (drop_last_dot cs)
unfolding drop_last_dot
NoNewline-drop_last_dot [] h = tt
NoNewline-drop_last_dot (c ∷ []) h = ground arith
NoNewline-drop_last_dot (c ∷ d ∷ cs) h = (h.0, NoNewline-drop_last_dot (d ∷ cs) h.1)

is_valid_hostname-eq :
    (host : List ℕ)
    → NoNewline host
    → is_valid_hostname host
      ≡ (leb (length host) 255 && all_labels (split_on b'.' (drop_last_dot host)))
unfolding is_valid_hostname
is_valid_hostname-eq host h = rw (
    all_match-eq (split_on b'.' (drop_last_dot host))
      (NoNewlines-split_on b'.' (drop_last_dot host) (NoNewline-drop_last_dot host h)))

-- A URL whose host name is not empty and has no newline is accepted exactly when the host name has at
-- most 255 characters and, without one dot at its end, falls into labels by the rule of RFC 952 and
-- RFC 1123.
pub is_valid_endpoint_url-eq :
    (hostname : String → Option (List ℕ)) (url : String) (c : ℕ) (cs : List ℕ)
    → hostname url ≡ some (c ∷ cs)
    → NoNewline (c ∷ cs)
    → is_valid_endpoint_url hostname url
      ≡ ok (leb (length (c ∷ cs)) 255 && all_labels (split_on b'.' (drop_last_dot (c ∷ cs))))
unfolding is_valid_endpoint_url
is_valid_endpoint_url-eq hostname url c cs parsed h =
    rw (parsed, is_valid_endpoint_url, is_valid_hostname-eq (c ∷ cs) h)
