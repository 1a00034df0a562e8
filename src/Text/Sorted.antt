-- ===== src/Text/Sorted.antt =====
-- The order of Python's texts, by their characters' codes, and sorted().
use Prim.Native.Char.{code}
use text.Mathlib.TextEquality.{Char-path}
use jcsapitest.Prelude.{
  String, Bool, true, false, List, [], ◌∷◌, ◌==◌, ltb, if◌then◌else◌, ◌≡◌, refl, arith,
}

-- s <= t
unfoldable pub text_leb : String → String → Bool
text_leb String.[] t = true
text_leb (String.◌∷◌ c s) String.[] = false
text_leb (String.◌∷◌ c s) (String.◌∷◌ d t) =
    let rest = text_leb s t in
    if ltb (code c) (code d) then true else if code c == code d then rest else false

unfoldable pub insert_text : String → List String → List String
unfolding text_leb
insert_text t [] = t ∷ []
insert_text t (u ∷ us) =
    let rest = insert_text t us in if text_leb t u then t ∷ u ∷ us else u ∷ rest

-- sorted(ts)
unfoldable pub sorted_texts : List String → List String
unfolding insert_text
sorted_texts [] = []
sorted_texts (t ∷ ts) = insert_text t (sorted_texts ts)

pub text_leb_total : (s t : String) → text_leb s t ≡ false → text_leb t s ≡ true
unfolding text_leb
text_leb_total String.[] t h = cc
text_leb_total (String.◌∷◌ c s) String.[] h = refl
text_leb_total (String.◌∷◌ c s) (String.◌∷◌ d t) h = ground (arith, text_leb_total s t)

pub text_leb_antisym : (s t : String) → text_leb s t ≡ true → text_leb t s ≡ true → s ≡ t
unfolding text_leb
text_leb_antisym String.[] String.[] h h' = refl
text_leb_antisym String.[] (String.◌∷◌ d t) h h' = cc
text_leb_antisym (String.◌∷◌ c s) String.[] h h' = cc
text_leb_antisym (String.◌∷◌ c s) (String.◌∷◌ d t) h h' =
    let same : code c ≡ code d = ground arith in
    let less : text_leb s t ≡ true = ground arith in
    let more : text_leb t s ≡ true = ground arith in
    let letters = Char-path c d same in let rest = text_leb_antisym s t less more in cc

pub text_leb_trans :
    (s t u : String) → text_leb s t ≡ true → text_leb t u ≡ true → text_leb s u ≡ true
unfolding text_leb
text_leb_trans String.[] t u h h' = refl
text_leb_trans (String.◌∷◌ c s) String.[] u h h' = cc
text_leb_trans (String.◌∷◌ c s) (String.◌∷◌ d t) String.[] h h' = cc
text_leb_trans (String.◌∷◌ c s) (String.◌∷◌ d t) (String.◌∷◌ e u) h h' =
    ground (arith, text_leb_trans s t u)
