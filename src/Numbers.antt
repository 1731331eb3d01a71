-- ===== src/Numbers.antt =====
-- Fractions: a numerator that is the difference of two numbers, over a denominator. They are not
-- reduced, and are compared across their denominators. The floats of src/io_board/filters.py and
-- src/io_board/events.py are fractions that `binary64` (Numbers/Binary64) leaves as they are, and the
-- arithmetic on floats is that of fractions, rounded by it.
pub mod Binary64
pub mod Order
use crk_io_board.Base.{
  ℕ, suc, ◌+◌, ◌-◌, ◌*◌, ◌/◌, ◌%◌, ◌≤◌, ◌<◌, Bool, true, leb, ltb, ◌==◌, if◌then◌else◌, ◌≡◌, refl,
}
use crk_io_board.Base.Int.{ℤ, pos, negsuc, pos_part, neg_part}
use crk_io_board.Readings.{gram}

-- (plus - minus) / under
pub record ℚ : Type 0 where
  pub plus : ℕ
  pub minus : ℕ
  pub under : ℕ

-- The fraction n / d, and a reading in grams.
abbrev pub ratio : ℕ → ℕ → ℚ
ratio n d = record { plus = n; minus = 0; under = d }

abbrev pub grams : ℤ → ℚ
grams v = record { plus = pos_part v; minus = neg_part v; under = gram }

infixl 65 ◌+ℚ◌ ◌-ℚ◌
infixl 70 ◌*ℚ◌ ◌/ℚ◌
infix 50 ◌≤ℚ◌ ◌<ℚ◌
abbrev pub ◌+ℚ◌ : ℚ → ℚ → ℚ
a +ℚ b = record {
  plus = a.plus * b.under + b.plus * a.under;
  minus = a.minus * b.under + b.minus * a.under;
  under = a.under * b.under;
}

abbrev pub neg_ℚ : ℚ → ℚ
neg_ℚ a = record { plus = a.minus; minus = a.plus; under = a.under }

abbrev pub ◌-ℚ◌ : ℚ → ℚ → ℚ
a -ℚ b = a +ℚ neg_ℚ b

abbrev pub ◌*ℚ◌ : ℚ → ℚ → ℚ
a *ℚ b = record {
  plus = a.plus * b.plus + a.minus * b.minus;
  minus = a.plus * b.minus + a.minus * b.plus;
  under = a.under * b.under;
}

-- The quotient by a number that is not 0: by a negative one, that of the negations. Its denominator
-- is 0 only where Python raises ZeroDivisionError.
abbrev pub ◌/ℚ◌ : ℚ → ℚ → ℚ
a /ℚ b =
    if leb b.minus b.plus
    then (record {
      plus = a.plus * b.under;
      minus = a.minus * b.under;
      under = a.under * (b.plus - b.minus);
    })
    else (record {
      plus = a.minus * b.under;
      minus = a.plus * b.under;
      under = a.under * (b.minus - b.plus);
    })

abbrev pub ◌≤ℚ◌ : ℚ → ℚ → Type 0
a ≤ℚ b = a.plus * b.under + b.minus * a.under ≤ b.plus * a.under + a.minus * b.under

abbrev pub ◌<ℚ◌ : ℚ → ℚ → Type 0
a <ℚ b = a.plus * b.under + b.minus * a.under < b.plus * a.under + a.minus * b.under

abbrev pub leb_ℚ : ℚ → ℚ → Bool
leb_ℚ a b = leb (a.plus * b.under + b.minus * a.under) (b.plus * a.under + a.minus * b.under)

abbrev pub ltb_ℚ : ℚ → ℚ → Bool
ltb_ℚ a b = ltb (a.plus * b.under + b.minus * a.under) (b.plus * a.under + a.minus * b.under)

-- `max(a, b)` and `min(a, b)`: the first one, unless the second is larger, or smaller.
abbrev pub max_ℚ : ℚ → ℚ → ℚ
max_ℚ a b = if ltb_ℚ a b then b else a

abbrev pub min_ℚ : ℚ → ℚ → ℚ
min_ℚ a b = if ltb_ℚ b a then b else a

abbrev pub abs_ℚ : ℚ → ℚ
abs_ℚ a = record { plus = a.plus - a.minus + (a.minus - a.plus); minus = 0; under = a.under }

-- n / d to the nearest number, a half to the even one.
abbrev pub half_even : ℕ → ℕ → ℕ
half_even n d =
    if ltb (2 * (n % d)) d then n / d else if 2 * (n % d) == d then n / d + n / d % 2 else n / d + 1

-- `round(abs(a), 1)`, in tenths.
unfoldable pub tenths : ℚ → ℕ
tenths a = half_even ((a.plus - a.minus + (a.minus - a.plus)) * 10) a.under

-- `round(a, 1)`, in tenths, with its sign.
abbrev pub signed_tenths : ℚ → ℤ
signed_tenths a =
    if leb a.minus a.plus
    then pos (tenths a)
    else if tenths a == 0
    then pos 0
    else negsuc (tenths a - 1)

-- A denominator that is not 0: every arithmetic step of the filters keeps it so.
abbrev pub IsNumber : ℚ → Type 0
IsNumber a = suc 0 ≤ a.under
