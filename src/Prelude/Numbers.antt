-- ===== src/Prelude/Numbers.antt =====
-- JavaScript numbers, with exact integers (in a unit that each module names) for the finite ones.
use mathlib.Core.Bool.{Bool, true, false}
use j41_sovagent_dispatcher.Prelude.Int.{ℤ, pos, ltb_ℤ, ◌+ℤ◌, ◌-ℤ◌}

pub data Number : Type 0 where
  finite : ℤ → Number
  infinite neg_infinite nan : Number

-- `Number.isFinite`.
abbrev pub is_finite : Number → Bool
is_finite (finite z) = true
is_finite _ = false

-- `a < b` on numbers: false as soon as one side is NaN.
abbrev pub ltb_num : Number → Number → Bool
ltb_num (finite a) (finite b) = ltb_ℤ a b
ltb_num (finite a) infinite = true
ltb_num neg_infinite (finite b) = true
ltb_num neg_infinite infinite = true
ltb_num _ _ = false

-- `a + b` and `a - b`.
unfoldable pub add_num : Number → Number → Number
add_num (finite a) (finite b) = finite (a +ℤ b)
add_num nan b = nan
add_num a nan = nan
add_num infinite neg_infinite = nan
add_num neg_infinite infinite = nan
add_num infinite b = infinite
add_num neg_infinite b = neg_infinite
add_num a infinite = infinite
add_num a neg_infinite = neg_infinite

abbrev pub negate_num : Number → Number
negate_num (finite a) = finite (pos 0 -ℤ a)
negate_num infinite = neg_infinite
negate_num neg_infinite = infinite
negate_num nan = nan

unfoldable pub sub_num : Number → Number → Number
unfolding add_num
sub_num (finite a) (finite b) = finite (a -ℤ b)
sub_num a b = add_num a (negate_num b)

-- `0 < n` on a number that is finite.
abbrev pub is_positive : Number → Bool
is_positive (finite z) = ltb_ℤ (pos 0) z
is_positive _ = false
