-- ===== src/Filters/Format.antt =====
-- What `_format_value` of src/io_board/filters.py shows, read back.
use crk_io_board.Base.{
  ℕ, suc, ◌*◌, ◌/◌, ◌<◌, ◌≡◌, refl, some, ◌∷◌, arith, leb, ltb, Bool-cases, inl, inr, if◌then◌else◌,
  ltb→lt, length, ap,
}
use crk_io_board.Base.Int.{pos, neg_ℤ}
use crk_io_board.Readings.{
  parse_value, gram, parse-plus, parse-minus, parse-plus_tenths, parse-minus_tenths,
}
use crk_io_board.Numbers.{ℚ, tenths}
use crk_io_board.Filters.{format_value, format_tenths, clamp_5}

-- The magnitude that a number of tenths is shown with: itself below 1000 g, its whole grams up to
-- 99999 g, and 99999 g above.
abbrev pub shown_magnitude : ℕ → ℕ
shown_magnitude t = if ltb t 10000 then t * (gram / 10) else clamp_5 (t / 10) * gram

clamp_below : (n : ℕ) → clamp_5 n < 100000
clamp_below n = ground arith

plus_shown : (t : ℕ) → parse_value (b'+' ∷ format_tenths t) ≡ some (pos (shown_magnitude t))
plus_shown t = elim (Bool-cases (ltb t 10000)) [
  | inl e ↦ rw e (parse-plus_tenths t (ltb→lt _ _ e))
  | inr e ↦ rw e (parse-plus (clamp_5 (t / 10)) (clamp_below (t / 10)))
]

minus_shown :
    (t : ℕ) → parse_value (b'-' ∷ format_tenths t) ≡ some (neg_ℤ (pos (shown_magnitude t)))
minus_shown t = elim (Bool-cases (ltb t 10000)) [
  | inl e ↦ rw e (parse-minus_tenths t (ltb→lt _ _ e))
  | inr e ↦ rw e (parse-minus (clamp_5 (t / 10)) (clamp_below (t / 10)))
]

length-format_tenths : (t : ℕ) → length (format_tenths t) ≡ 5
length-format_tenths t = elim (Bool-cases (ltb t 10000)) [ inl e ↦ rw e refl | inr e ↦ rw e refl ]

-- A number that a filter shows fills the field of six characters, and reads back as the number
-- rounded to a tenth of a gram, with its sign: to whole grams from 1000 g, and at most 99999 g.
pub parse_value-format_value :
    (n : ℚ)
    → (length (format_value n) ≡ 6)
      × (parse_value (format_value n)
          ≡ some (
              if leb n.minus n.plus
              then pos (shown_magnitude (tenths n))
              else neg_ℤ (pos (shown_magnitude (tenths n)))))
unfolding format_value
parse_value-format_value n = (
  ap suc (length-format_tenths (tenths n)),
  elim (Bool-cases (leb n.minus n.plus)) [
    | inl e ↦ rw e (plus_shown (tenths n))
    | inr e ↦ rw e (minus_shown (tenths n))
  ],
)
