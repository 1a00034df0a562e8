-- ===== src/Functional/Trash/Bins.antt =====
-- Trash bins of jcsapi/tests/functional/base.py whose keys rise, as those of a test case do.
use jcsapitest.Prelude.{
  ℕ, suc, ◌≤◌, append-nil, ◌<◌, ◌≡◌, inl, inr, refl, ap, ◌∙◌, none, some, List, [], ◌∷◌, ◌++◌, ◌==◌,
  arith, Bool-cases,
}
use jcsapitest.Functional.Trash.{
  Cleanup, Bin, get_at, put_at, remove_at, insert_down, sorted_down, keys,
}

-- Keys that rise from at least `low` to below `high`.
abbrev pub Rises : ℕ → ℕ → Bin → Type 0
Rises low high [] = low ≤ high
Rises low high ((k, c) ∷ b) = (low ≤ k) × Rises (suc k) high b

-- Keys that fall from below `high`.
abbrev pub Falls : ℕ → Bin → Type 0
Falls high [] = Unit {0}
Falls high ((k, c) ∷ b) = (k < high) × Falls k b

abbrev pub newest_first : Bin → Bin
newest_first [] = []
newest_first (x ∷ b) = newest_first b ++ x ∷ []

Rises-weaken : (l l' h : ℕ) (b : Bin) → l' ≤ l → Rises l h b → Rises l' h b
Rises-weaken l l' h [] le r = omega arith
Rises-weaken l l' h ((k, c) ∷ b) le r = let (a, rest) = r in (omega arith, rest)

Rises-le : (l h : ℕ) (b : Bin) → Rises l h b → l ≤ h
Rises-le l h [] r = r
Rises-le l h ((k, c) ∷ b) r = let s = Rises-le (suc k) h b r.1 in let a = r.0 in omega arith

pub put_at-Rises : (l h : ℕ) (c : Cleanup) (b : Bin) → Rises l h b → Rises l (suc h) (put_at h c b)
unfolding put_at
put_at-Rises l h c [] r = (r, omega arith)
put_at-Rises l h c ((k, d) ∷ b) r =
    let s = Rises-le (suc k) h b r.1 in ground (arith, put_at-Rises (suc k) h c b r.1)

pub put_at-newest :
    (l h : ℕ) (c : Cleanup) (b : Bin)
    → Rises l h b
    → newest_first (put_at h c b) ≡ (h, c) ∷ newest_first b
unfolding put_at
put_at-newest l h c [] r = refl
put_at-newest l h c ((k, d) ∷ b) r =
    let s = Rises-le (suc k) h b r.1 in ground (arith, put_at-newest (suc k) h c b r.1)

pub remove_at-Rises : (l h k : ℕ) (b : Bin) → Rises l h b → Rises l h (remove_at k b)
unfolding remove_at
remove_at-Rises l h k [] r = r
remove_at-Rises l h k ((j, d) ∷ b) r =
    let ih = remove_at-Rises (suc j) h k b r.1 in
    let a = r.0 in
    elim (Bool-cases (j == k)) [
      | inl same ↦ rw (same) (Rises-weaken (suc j) l h (remove_at k b) (omega arith) ih)
      | inr other ↦ rw (other) (a, ih)
    ]

remove_at-append : (k : ℕ) (a b : Bin) → remove_at k (a ++ b) ≡ remove_at k a ++ remove_at k b
unfolding remove_at
remove_at-append k [] b = refl
remove_at-append k ((j, c) ∷ a) b = ground (arith, remove_at-append k a b)

pub remove_at-newest :
    (k : ℕ) (b : Bin) → newest_first (remove_at k b) ≡ remove_at k (newest_first b)
unfolding remove_at
remove_at-newest k [] = refl
remove_at-newest k ((j, c) ∷ b) =
    rw (remove_at-append k (newest_first b) ((j, c) ∷ [])) (elim (Bool-cases (j == k)) [
      | inl same ↦ rw (same, append-nil) (remove_at-newest k b)
      | inr other ↦ rw (other) (ap (λ (x : Bin). x ++ (j, c) ∷ []) (remove_at-newest k b))
    ])

pub remove_at-missing : (k : ℕ) (b : Bin) → get_at k b ≡ none → remove_at k b ≡ b
unfolding remove_at get_at
remove_at-missing k [] h = refl
remove_at-missing k ((j, c) ∷ b) h = ground (arith, remove_at-missing k b)

abbrev pub Above : ℕ → Bin → Type 0
Above k [] = Unit {0}
Above k ((j, c) ∷ b) = (k < j) × Above k b

Above-append : (k : ℕ) (a b : Bin) → Above k a → Above k b → Above k (a ++ b)
Above-append k [] b h h' = h'
Above-append k ((j, c) ∷ a) b h h' = (h.0, Above-append k a b h.1 h')

Rises-Above : (k l h : ℕ) (b : Bin) → k < l → Rises l h b → Above k (newest_first b)
Rises-Above k l h [] lt r = tt
Rises-Above k l h ((j, c) ∷ b) lt r =
    let a = r.0 in
    Above-append k (newest_first b) ((j, c) ∷ []) (Rises-Above k (suc j) h b (omega arith) r.1)
      (omega arith, tt)

keys-append : (a b : Bin) → keys (a ++ b) ≡ keys a ++ keys b
keys-append [] b = refl
keys-append ((k, c) ∷ a) b = ap (λ (ks : List ℕ). k ∷ ks) (keys-append a b)

insert_down-Above : (k : ℕ) (s : Bin) → Above k s → insert_down k (keys s) ≡ keys s ++ k ∷ []
unfolding insert_down
insert_down-Above k [] h = refl
insert_down-Above k ((j, c) ∷ s) h = let lt = h.0 in ground (arith, insert_down-Above k s h.1)

pub sorted_down-newest :
    (l h : ℕ) (b : Bin) → Rises l h b → sorted_down (keys b) ≡ keys (newest_first b)
unfolding sorted_down
sorted_down-newest l h [] r = refl
sorted_down-newest l h ((k, c) ∷ b) r =
    rw (sorted_down-newest (suc k) h b r.1, keys-append (newest_first b) ((k, c) ∷ []))
      (insert_down-Above k (newest_first b) (Rises-Above k (suc k) h b (omega arith) r.1))

Falls-snoc :
    (h k : ℕ) (c : Cleanup) (s : Bin) → Falls h s → Above k s → k < h → Falls h (s ++ (k, c) ∷ [])
Falls-snoc h k c [] f a lt = (lt, tt)
Falls-snoc h k c ((j, d) ∷ s) f a lt = (f.0, Falls-snoc j k c s f.1 a.1 a.0)

pub Rises-Falls : (l h : ℕ) (b : Bin) → Rises l h b → Falls h (newest_first b)
Rises-Falls l h [] r = tt
Rises-Falls l h ((k, c) ∷ b) r =
    let le = Rises-le (suc k) h b r.1 in
    Falls-snoc h k c (newest_first b) (Rises-Falls (suc k) h b r.1)
      (Rises-Above k (suc k) h b (omega arith) r.1) (omega arith)

-- The entries of a list stand in the bin under their keys.
abbrev pub Found : Bin → Bin → Type 0
Found [] b = Unit {0}
Found ((k, c) ∷ s) b = (get_at k b ≡ some c) × Found s b

Found-cons : (k : ℕ) (c : Cleanup) (s b : Bin) → Above k s → Found s b → Found s ((k, c) ∷ b)
unfolding get_at
Found-cons k c [] b a f = tt
Found-cons k c ((j, d) ∷ s) b a f =
    let lt = a.0 in let there = f.0 in (ground arith, Found-cons k c s b a.1 f.1)

Found-snoc :
    (k : ℕ) (c : Cleanup) (s b : Bin) → Found s b → get_at k b ≡ some c → Found (s ++ (k, c) ∷ []) b
Found-snoc k c [] b f h = (h, tt)
Found-snoc k c ((j, d) ∷ s) b f h = (f.0, Found-snoc k c s b f.1 h)

get_at_same : (k : ℕ) (c : Cleanup) (b : Bin) → get_at k ((k, c) ∷ b) ≡ some c
unfolding get_at
get_at_same k c b = ground arith

pub Rises-Found : (l h : ℕ) (b : Bin) → Rises l h b → Found (newest_first b) b
Rises-Found l h [] r = tt
Rises-Found l h ((k, c) ∷ b) r =
    Found-snoc k c (newest_first b) ((k, c) ∷ b)
      (Found-cons k c (newest_first b) b (Rises-Above k (suc k) h b (omega arith) r.1)
        (Rises-Found (suc k) h b r.1))
      (get_at_same k c b)

get_at-remove_at : (k j : ℕ) (b : Bin) → j < k → get_at j (remove_at k b) ≡ get_at j b
unfolding get_at remove_at
get_at-remove_at k j [] lt = refl
get_at-remove_at k j ((i, c) ∷ b) lt = ground (arith, get_at-remove_at k j b lt)

Falls-weaken : (j k : ℕ) (s : Bin) → j < k → Falls j s → Falls k s
Falls-weaken j k [] lt f = tt
Falls-weaken j k ((i, c) ∷ s) lt f = let a = f.0 in (omega arith, f.1)

pub Found-remove_at : (k : ℕ) (s b : Bin) → Falls k s → Found s b → Found s (remove_at k b)
Found-remove_at k [] b a f = tt
Found-remove_at k ((j, c) ∷ s) b a f =
    let lt = a.0 in
    (get_at-remove_at k j b lt ∙ f.0, Found-remove_at k s b (Falls-weaken j k s lt a.1) f.1)

abbrev pub remove_all : Bin → Bin → Bin
remove_all [] b = b
remove_all ((k, c) ∷ s) b = remove_all s (remove_at k b)

remove_all-snoc :
    (k : ℕ) (c : Cleanup) (s b : Bin)
    → remove_all (s ++ (k, c) ∷ []) b ≡ remove_at k (remove_all s b)
remove_all-snoc k c [] b = refl
remove_all-snoc k c ((j, d) ∷ s) b = remove_all-snoc k c s (remove_at j b)

remove_at_cons :
    (k j : ℕ) (c : Cleanup) (b : Bin) → k < j → remove_at j ((k, c) ∷ b) ≡ (k, c) ∷ remove_at j b
unfolding remove_at
remove_at_cons k j c b lt = ground arith

remove_all_cons :
    (k : ℕ) (c : Cleanup) (s b : Bin)
    → Above k s
    → remove_all s ((k, c) ∷ b) ≡ (k, c) ∷ remove_all s b
remove_all_cons k c [] b a = refl
remove_all_cons k c ((j, d) ∷ s) b a =
    rw (remove_at_cons k j c b a.0) (remove_all_cons k c s (remove_at j b) a.1)

remove_at_only : (k : ℕ) (c : Cleanup) → remove_at k ((k, c) ∷ []) ≡ []
unfolding remove_at
remove_at_only k c = ground arith

pub remove_all-newest : (l h : ℕ) (b : Bin) → Rises l h b → remove_all (newest_first b) b ≡ []
remove_all-newest l h [] r = refl
remove_all-newest l h ((k, c) ∷ b) r =
    rw
      (
        remove_all-snoc k c (newest_first b) ((k, c) ∷ b),
        remove_all_cons k c (newest_first b) b (Rises-Above k (suc k) h b (omega arith) r.1),
        remove_all-newest (suc k) h b r.1,
      )
      (remove_at_only k c)
