-- ===== src/Paginate/Slices.antt =====
-- Python's slices vs[:i] and vs[i:] with a bound that may be negative, and the subtraction of ints, as
-- botocore/paginate.py uses them.
use jcsapitest.Prelude.{ℕ, ◌+◌, ◌-◌, leb, if◌then◌else◌}
use jcsapitest.Value.Int.{ℤ, pos, negsuc, pos_part, neg_part}
use jcsapitest.Value.{Items, take_items, drop_items, count_items}

-- a - b for natural numbers
abbrev pub difference : ℕ → ℕ → ℤ
difference a b = if leb b a then pos (a - b) else negsuc (b - a - 1)

abbrev pub plus_ℤ : ℤ → ℤ → ℤ
plus_ℤ x y = difference (pos_part x + pos_part y) (neg_part x + neg_part y)

abbrev pub minus_ℤ : ℤ → ℤ → ℤ
minus_ℤ x y = difference (pos_part x + neg_part y) (neg_part x + pos_part y)

-- A negative bound counts from the end and stops at the start.
unfoldable pub slice_to : Items → ℤ → Items
unfolding take_items count_items
slice_to vs (pos n) = take_items n vs
slice_to vs (negsuc n) = take_items (count_items vs - (n + 1)) vs

unfoldable pub slice_from : Items → ℤ → Items
unfolding drop_items count_items
slice_from vs (pos n) = drop_items n vs
slice_from vs (negsuc n) = drop_items (count_items vs - (n + 1)) vs
