-- ===== src/Numbers/Order.antt =====
-- The order on numbers: total, and transitive where the denominators are not 0.
use native.Mathlib.Nat.{mul-le-mul_left, le_of_mul-le-mul_left}
use crk_io_board.Base.{◌+◌, ◌*◌, ◌≤◌, ◌≡◌, true, false, arith, le→leb, leb→le}
use crk_io_board.Numbers.{ℚ, leb_ℚ, IsNumber}

pub leb_total : (a b : ℚ) → leb_ℚ a b ≡ false → leb_ℚ b a ≡ true
leb_total a b h = ground arith

pub leb_refl : (a : ℚ) → leb_ℚ a a ≡ true
leb_refl a = ground arith

pub leb_trans : (a b c : ℚ) → IsNumber b → leb_ℚ a b ≡ true → leb_ℚ b c ≡ true → leb_ℚ a c ≡ true
leb_trans a b c n h k = le→leb _ _ (le_of_mul-le-mul_left crossed n)
  where
    crossed :
        b.under * (a.plus * c.under + c.minus * a.under)
        ≤ b.under * (c.plus * a.under + a.minus * c.under)
    crossed =
        omega
          (arith, mul-le-mul_left c.under (leb→le _ _ h), mul-le-mul_left a.under (leb→le _ _ k))
