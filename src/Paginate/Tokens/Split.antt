-- ===== src/Paginate/Tokens/Split.antt =====
-- Texts that a join with '___' and a split at it keep apart (botocore/paginate.py).
use Prim.Native.Char.{Char}
use jcsapitest.Prelude.{String, ◌≡◌, refl, false, List, [], ◌∷◌, ◌++◌}
use jcsapitest.Text.{concat}
use jcsapitest.Paginate.Tokens.{separator, join, is_separator, push_char, split}

-- The separator does not occur in the text.
abbrev pub Avoids : String → Type 0
Avoids (String.◌∷◌ c (String.◌∷◌ d (String.◌∷◌ e s))) =
    (is_separator c d e ≡ false) × Avoids (String.◌∷◌ d (String.◌∷◌ e s))
Avoids s = Unit {0}

-- Nor does it begin in the text and end in a separator behind it: the text does not end with '_'.
unfoldable pub IsSafe : String → Type 0
unfolding concat
IsSafe p = Avoids (concat p "__")

IsSafe-Avoids : (p : String) → IsSafe p → Avoids p
unfolding IsSafe
IsSafe-Avoids (String.◌∷◌ c (String.◌∷◌ d (String.◌∷◌ e s))) h =
    (h.0, IsSafe-Avoids (String.◌∷◌ d (String.◌∷◌ e s)) h.1)
IsSafe-Avoids (String.◌∷◌ c (String.◌∷◌ d String.[])) h = tt
IsSafe-Avoids (String.◌∷◌ c String.[]) h = tt
IsSafe-Avoids String.[] h = tt

split-Avoids : (p : String) → Avoids p → split p ≡ p ∷ []
unfolding split
split-Avoids (String.◌∷◌ c (String.◌∷◌ d (String.◌∷◌ e s))) h =
    rw (h.0, split, split-Avoids (String.◌∷◌ d (String.◌∷◌ e s)) h.1) refl
split-Avoids (String.◌∷◌ c (String.◌∷◌ d String.[])) h = refl
split-Avoids (String.◌∷◌ c String.[]) h = refl
split-Avoids String.[] h = refl

split-step :
    (c d e : Char) (s : String)
    → is_separator c d e ≡ false
    → split (String.◌∷◌ c (String.◌∷◌ d (String.◌∷◌ e s)))
      ≡ push_char c (split (String.◌∷◌ d (String.◌∷◌ e s)))
unfolding split
split-step c d e s h = rw (h, split) refl

abbrev mark : Char
mark = "_"

split-mark :
    (s : String) → split (String.◌∷◌ mark (String.◌∷◌ mark (String.◌∷◌ mark s))) ≡ "" ∷ split s
unfolding split
split-mark s = refl

split-separator : (p s : String) → IsSafe p → split (concat p (concat separator s)) ≡ p ∷ split s
unfolding concat IsSafe
split-separator (String.◌∷◌ c (String.◌∷◌ d (String.◌∷◌ e r))) s h =
    let ih = split-separator (String.◌∷◌ d (String.◌∷◌ e r)) s h.1 in
    cc (split-step c d e (concat r (concat separator s)) h.0, ih)
split-separator (String.◌∷◌ c (String.◌∷◌ d String.[])) s h = cc (
  split-step c d mark (String.◌∷◌ mark (String.◌∷◌ mark s)) h.0,
  split-step d mark mark (String.◌∷◌ mark s) h.1.0,
  split-mark s,
)
split-separator (String.◌∷◌ c String.[]) s h =
    cc (split-step c mark mark (String.◌∷◌ mark s) h.0, split-mark s)
split-separator String.[] s h = split-mark s

abbrev pub AllSafe : List String → Type 0
AllSafe [] = Unit {0}
AllSafe (p ∷ ps) = IsSafe p × AllSafe ps

pub AllSafe-append :
    (ps : List String) (x : String) → AllSafe ps → IsSafe x → AllSafe (ps ++ x ∷ [])
AllSafe-append [] x h s = (s, tt)
AllSafe-append (p ∷ ps) x h s = (h.0, AllSafe-append ps x h.1 s)

pub split-join : (p : String) (ps : List String) → AllSafe (p ∷ ps) → split (join (p ∷ ps)) ≡ p ∷ ps
unfolding join
split-join p [] h = split-Avoids p (IsSafe-Avoids p h.0)
split-join p (q ∷ ps) h = rw (join, split-separator p (join (q ∷ ps)) h.0, split-join q ps h.1) refl
