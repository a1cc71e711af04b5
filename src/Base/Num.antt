-- ===== src/Base/Num.antt =====
-- JavaScript numbers as the program uses them: NaN, and the finite numbers, which stand here as
-- integers on one scale. Infinities, fractions off the scale and rounding are left out.
use mathlib.Core.Path.{◌≡◌}
use mathlib.Core.Bool.{Bool, true, false, not}
use mathlib.Core.Option.{Option, none, some}
use native.Mathlib.Omega.{arith}
use aiagent_portable_authori.Base.Int.{ℤ, ◌+ℤ◌, ltb_ℤ, eqb_ℤ}

pub data Num : Type 0 where
  nan : Num
  fin : ℤ → Num

-- Every comparison with NaN is false.
abbrev pub ltb_num : Num → Num → Bool
ltb_num (fin a) (fin b) = ltb_ℤ a b
ltb_num _ _ = false

abbrev pub leb_num : Num → Num → Bool
leb_num (fin a) (fin b) = not (ltb_ℤ b a)
leb_num _ _ = false

abbrev pub eqb_num : Num → Num → Bool
eqb_num (fin a) (fin b) = eqb_ℤ a b
eqb_num _ _ = false

abbrev pub is_finite : Num → Bool
is_finite nan = false
is_finite (fin _) = true

unfoldable pub add_num : Num → Num → Num
add_num (fin a) (fin b) = fin (a +ℤ b)
add_num _ _ = nan

-- `Number(undefined)` is NaN.
abbrev pub num_of : Option ℤ → Num
num_of none = nan
num_of (some n) = fin n

pub leb_num_trans : (a b c : Num) → leb_num a b ≡ true → leb_num b c ≡ true → leb_num a c ≡ true
leb_num_trans (fin a) (fin b) (fin c) h k = ground arith
leb_num_trans nan b c h k = h
leb_num_trans (fin a) nan c h k = ground arith
leb_num_trans (fin a) (fin b) nan h k = k
