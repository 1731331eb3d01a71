-- ===== src/Detector/Difference.antt =====
-- When a value of src/io_board/events.py differs from the one before by more than a threshold.
use native.Mathlib.Nat.{add-mul, mul-le-mul_right}
use crk_io_board.Base.{
  ℕ, sym, ◌∙◌, ◌+◌, ◌-◌, ◌*◌, ◌≤◌, ◌≡◌, ◌↔◌, ap, arith, true, Option, none, some, ◌⊎◌, inl, inr,
  leb, Bool-cases,
}
use crk_io_board.Numbers.{ℚ, ◌<ℚ◌, ◌-ℚ◌, neg_ℚ, abs_ℚ, ltb_ℚ}
use crk_io_board.Numbers.Binary64.{binary64}
use crk_io_board.Detector.{exceeds}

-- The difference of two floats, as a float, or its negation is more than the threshold.
abbrev pub IsApart : ℚ → ℚ → ℚ → Type 0
IsApart threshold n previous =
    let d = binary64 (n -ℚ previous) in (threshold <ℚ d) ⊎ (threshold <ℚ neg_ℚ d)

-- Both values are there, and apart.
abbrev pub IsChange : ℚ → Option ℚ → Option ℚ → Type 0
IsChange threshold none previous = ⊥
IsChange threshold (some n) none = ⊥
IsChange threshold (some n) (some previous) = IsApart threshold n previous

magnitude_up : (p m u : ℕ) → m ≤ p → (p - m + (m - p)) * u + m * u ≡ p * u
magnitude_up p m u h = sym (add-mul (p - m + (m - p)) m u) ∙ ap (λ x. x * u) (omega arith)

magnitude_down : (p m u : ℕ) → p ≤ m → (p - m + (m - p)) * u + p * u ≡ m * u
magnitude_down p m u h = sym (add-mul (p - m + (m - p)) p u) ∙ ap (λ x. x * u) (omega arith)

abs-IsApart : (t d : ℚ) → ltb_ℚ t (abs_ℚ d) ≡ true → (t <ℚ d) ⊎ (t <ℚ neg_ℚ d)
abs-IsApart t d h = elim (Bool-cases (leb d.minus d.plus)) [
  | inl e ↦ inl (ground (arith, h, magnitude_up d.plus d.minus t.under))
  | inr e ↦ inr (ground (arith, h, magnitude_down d.plus d.minus t.under))
]

IsApart-abs : (t d : ℚ) → (t <ℚ d) ⊎ (t <ℚ neg_ℚ d) → ltb_ℚ t (abs_ℚ d) ≡ true
IsApart-abs t d h = elim (Bool-cases (leb d.minus d.plus)) [
  | inl e ↦
      let le : d.minus ≤ d.plus = ground arith in
      ground (arith, h, magnitude_up d.plus d.minus t.under le, mul-le-mul_right t.under le)
  | inr e ↦
      let le : d.plus ≤ d.minus = ground arith in
      ground (arith, h, magnitude_down d.plus d.minus t.under le, mul-le-mul_right t.under le)
]

-- The code's test is that of the specification.
pub exceeds_iff :
    (t : ℚ) (n previous : Option ℚ) → (exceeds t n previous ≡ true) ↔ IsChange t n previous
exceeds_iff t none previous = (λ h. cc, λ h. absurd h)
exceeds_iff t (some n) none = (λ h. cc, λ h. absurd h)
exceeds_iff t (some n) (some previous) =
    let d = binary64 (n -ℚ previous) in (abs-IsApart t d, IsApart-abs t d)
