-- ===== src/Sanitizer/Quantize.antt =====
-- The quantization of src/services/io_board/sanitizer.py, against rounding to the nearest multiple.
use native.Mathlib.Nat.{add-mul, mod-lt, mul_comm, mul_left_comm}
use native.Mathlib.Omega.{div_any}
use crk_io_board.Base.{
  ℕ, suc, ◌+◌, ◌-◌, ◌*◌, ◌/◌, ◌%◌, ◌≤◌, ◌<◌, ◌≡◌, refl, false, Option, none, some, arith, inl, inr,
  Bool-cases, lt→ltb, le→leb, leb→le, List, [], ◌∷◌, length, replicate, ap,
}
use crk_io_board.Base.Int.{
  ℤ, pos, negsuc, ◌+ℤ◌, ◌-ℤ◌, ◌*ℤ◌, abs_ℤ, floor_div, pos_part, neg_part, +ℤ_parts, -ℤ_parts,
  one_sign,
}
use crk_io_board.Sanitizer.{SanitizeModel, quantize, half_up, in_bin}

-- Floor division leaves a remainder below the divisor.
floor_div_lem :
    (a : ℤ) (d : ℕ)
    → 0 < d
    → (r : ℕ) × (r < d)
      × (pos_part a + neg_part (floor_div a d) * d ≡ pos_part (floor_div a d) * d + r + neg_part a)
floor_div_lem (pos n) d h = (n % d, mod-lt n h, omega (arith, div_any n d, mul_comm (n / d) d))
floor_div_lem (negsuc n) d h = (
  d - 1 - n % d,
  omega arith,
  omega (arith, div_any n d, mul_comm (n / d) d, mod-lt n h, add-mul (n / d) 1 d),
)

mul_pos_parts :
    (a : ℤ) (s : ℕ)
    → (pos_part (a *ℤ pos s) ≡ pos_part a * s) × (neg_part (a *ℤ pos s) ≡ neg_part a * s)
unfolding ◌*ℤ◌
mul_pos_parts (pos n) s = ground arith
mul_pos_parts (negsuc n) s = ground arith

double_parts :
    (a : ℤ) → (pos_part (pos 2 *ℤ a) ≡ 2 * pos_part a) × (neg_part (pos 2 *ℤ a) ≡ 2 * neg_part a)
unfolding ◌*ℤ◌
double_parts (pos n) = ground arith
double_parts (negsuc n) = ground arith

-- Half-up rounding goes to a multiple at most half a step away.
half_up_error : (step : ℕ) (v : ℤ) → 0 < step → 2 * abs_ℤ (v -ℤ half_up step v) ≤ step
half_up_error step v h =
    let a : ℤ = pos 2 *ℤ v +ℤ pos step in
    let fd : ℤ = floor_div a (2 * step) in
    let (r, lt, e) = floor_div_lem a (2 * step) (omega arith) in
    omega (
      arith,
      lt,
      e,
      double_parts v,
      +ℤ_parts (pos 2 *ℤ v) (pos step),
      mul_pos_parts fd step,
      mul_left_comm (pos_part fd) 2 step,
      mul_left_comm (neg_part fd) 2 step,
      -ℤ_parts v (half_up step v),
      one_sign (v -ℤ half_up step v),
    )

abbrev pub IsMultiple : ℕ → ℤ → Type 0
IsMultiple step q = (k : ℤ) × (q ≡ k *ℤ pos step)

abbrev pub BinIsMultiple : ℕ → Option ℤ → Type 0
BinIsMultiple step none = Unit
BinIsMultiple step (some bin) = IsMultiple step bin

-- The readings of a channel, one after the other.
abbrev pub quantize_all : SanitizeModel → Option ℤ → List ℤ → List ℤ
quantize_all cfg o [] = []
quantize_all cfg o (v ∷ vs) = let (q, bin) = quantize cfg o v in q ∷ quantize_all cfg bin vs

abbrev pub AllNear : ℤ → ℕ → List ℤ → Type 0
AllNear b m [] = Unit
AllNear b m (v ∷ vs) = (2 * abs_ℤ (v -ℤ b) ≤ m) × AllNear b m vs

module _ (cfg : SanitizeModel) (step : ℕ) (set : cfg.quantize_step ≡ pos step)
    (positive : 0 < step) where
  abbrev margin : ℕ
  margin = step + 2 * cfg.quantize_hysteresis

  quantize-held : (b v : ℤ) → 2 * abs_ℤ (v -ℤ b) ≤ margin → quantize cfg (some b) v ≡ (b, some b)
  unfolding quantize
  quantize-held b v h = rw (set, lt→ltb 0 (step + 0) (omega arith), le→leb _ _ h) refl

  quantize-moved :
      (o : Option ℤ) (v : ℤ)
      → in_bin step cfg.quantize_hysteresis v o ≡ false
      → quantize cfg o v ≡ (half_up step v, some (half_up step v))
  unfolding quantize
  quantize-moved o v h = rw (set, lt→ltb 0 (step + 0) (omega arith), h) refl

  -- A quantized reading is a multiple of the step, within half a step and the hysteresis of the
  -- value, and is the bin for the next reading.
  pub quantize_error :
      (o : Option ℤ) (v : ℤ)
      → BinIsMultiple step o
      → let (q, bin) = quantize cfg o v in
        (2 * abs_ℤ (v -ℤ q) ≤ margin) × IsMultiple step q × (bin ≡ some q)
  quantize_error none v m =
      rw (quantize-moved none v refl)
        (omega (arith, half_up_error step v positive), (_, refl), refl)
  quantize_error (some b) v m = elim (Bool-cases (in_bin step cfg.quantize_hysteresis v (some b))) [
    | inl held ↦ rw (quantize-held b v (leb→le _ _ held)) (leb→le _ _ held, m, refl)
    | inr moved ↦
        rw (quantize-moved (some b) v moved)
          (omega (arith, half_up_error step v positive), (_, refl), refl)
  ]

  stays :
      (b : ℤ) (vs : List ℤ)
      → AllNear b margin vs
      → quantize_all cfg (some b) vs ≡ replicate (length vs) b
  stays b [] h = refl
  stays b (v ∷ vs) (near, h) = rw (quantize-held b v near) (ap (λ l. b ∷ l) (stays b vs h))

  near_half_up :
      (v w : ℤ)
      → 2 * abs_ℤ (w -ℤ v) ≤ 2 * cfg.quantize_hysteresis
      → 2 * abs_ℤ (w -ℤ half_up step v) ≤ margin
  near_half_up v w h = omega (
    arith,
    half_up_error step v positive,
    -ℤ_parts w v,
    -ℤ_parts v (half_up step v),
    -ℤ_parts w (half_up step v),
    one_sign (w -ℤ half_up step v),
  )

  all_near :
      (v : ℤ) (vs : List ℤ)
      → AllNear v (2 * cfg.quantize_hysteresis) vs
      → AllNear (half_up step v) margin vs
  all_near v [] h = tt
  all_near v (w ∷ vs) (near, h) = (near_half_up v w near, all_near v vs h)

  pub quantize_steady :
      (v : ℤ) (vs : List ℤ)
      → AllNear v (2 * cfg.quantize_hysteresis) vs
      → quantize_all cfg none (v ∷ vs) ≡ replicate (suc (length vs)) (half_up step v)
  quantize_steady v vs h =
      rw (quantize-moved none v refl)
        (ap (λ l. half_up step v ∷ l) (stays (half_up step v) vs (all_near v vs h)))
