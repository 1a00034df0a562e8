-- ===== src/Value/Int.antt =====
-- Signed integers over the native numbers: `negsuc n` is -(n + 1).
use jcsapitest.Prelude.{ℕ, suc, ◌+◌, ◌*◌, Bool, false, ◌==◌, ltb}

pub data ℤ : Type 0 where
  pos : ℕ → ℤ
  negsuc : ℕ → ℤ

abbrev pub pos_part : ℤ → ℕ
pos_part (pos n) = n
pos_part (negsuc n) = 0

abbrev pub neg_part : ℤ → ℕ
neg_part (pos n) = 0
neg_part (negsuc n) = suc n

abbrev pub ltb_ℤ : ℤ → ℤ → Bool
ltb_ℤ a b = ltb (pos_part a + neg_part b) (pos_part b + neg_part a)

unfoldable pub int_eq : ℤ → ℤ → Bool
int_eq (pos a) (pos b) = a == b
int_eq (negsuc a) (negsuc b) = a == b
int_eq _ _ = false

-- A thousand times the number.
unfoldable pub scale : ℤ → ℤ
scale (pos n) = pos (1000 * n)
scale (negsuc n) = negsuc (1000 * n + 999)
