-- ===== src/Numbers/Binary64.antt =====
-- The rounding of Python's floats, IEEE 754 binary64, for the arithmetic of src/io_board/filters.py,
-- src/io_board/events.py and tools/post_move_diag.py: to 53 bits and at most 1074 places, to the
-- nearest, a half to the even one. Numbers above the largest float are not modelled.
use crk_io_board.Base.{
  ℕ, zero, suc, ◌+◌, ◌-◌, ◌*◌, ◌^◌, ◌≡◌, refl, true, false, leb, ltb, ◌==◌, if◌then◌else◌,
}
use crk_io_board.Base.Int.{ℤ}
use crk_io_board.Numbers.{ℚ, ratio, grams, half_even, ◌+ℚ◌, ◌-ℚ◌, ◌*ℚ◌}

-- How often n / d is doubled until it is 2 ^ 52 or more, and halved until it is below 2 ^ 53.
abbrev doublings : ℕ → ℕ → ℕ → ℕ
doublings zero n d = 0
doublings (suc places) n d = elim (leb (4503599627370496 * d) n) [
  | true ↦ 0
  | false ↦ suc (doublings places (2 * n) d)
]

abbrev halvings : ℕ → ℕ → ℕ → ℕ
halvings zero n d = 0
halvings (suc places) n d = elim (ltb n (9007199254740992 * d)) [
  | true ↦ 0
  | false ↦ suc (halvings places n (2 * d))
]

-- n / d with its significand rounded: the numerator and the denominator.
abbrev significand : ℕ → ℕ → ℕ × ℕ
significand n d =
    let up = 2 ^ doublings 1074 n d in
    let down = 2 ^ halvings 1024 n d in (half_even (n * up) (d * down) * down, up)

abbrev nearest : ℕ → ℕ → ℕ × ℕ
nearest n d = elim (n == 0) [ true ↦ (0, 1) | false ↦ significand n d ]

-- The float next to a number; the denominator 0 of a division by 0 stays.
unfoldable pub binary64 : ℚ → ℚ
binary64 a = elim (a.under == 0) [
  | true ↦ a
  | false ↦
      let (n, d) = nearest (a.plus - a.minus + (a.minus - a.plus)) a.under in
      if leb a.minus a.plus
      then (record { plus = n; minus = 0; under = d })
      else (record { plus = 0; minus = n; under = d })
]

-- `float` of a reading.
abbrev pub reading : ℤ → ℚ
reading v = binary64 (grams v)

-- 0.2 * 3 + (1 - 0.2) * 3 is 3.0000000000000004.
above_three_test :
    let alpha = binary64 (ratio 2 10) in
    let three = ratio 3 1 in
    binary64 (binary64 (alpha *ℚ three) +ℚ binary64 (binary64 (ratio 1 1 -ℚ alpha) *ℚ three))
    ≡ record { plus = 6755399441055745; minus = 0; under = 2251799813685248 }
unfolding binary64
above_three_test = refl
