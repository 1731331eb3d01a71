-- ===== src/Machine/Loadcells.antt =====
-- Which frames of loadcells the health check of src/api/v1/routers/machine.py takes for healthy.
use crk_io_board.Base.{
  ℕ, zero, suc, ◌+◌, ◌/◌, ◌%◌, ◌<◌, ◌≡◌, refl, ◌∙◌, ap, Bool, true, false, ◌&&◌, ◌||◌, none, some,
  List, [], ◌∷◌, Text, arith, ◌==◌, get_elem?, codes, same_text, same_text→eq, Bool-cases, inl, inr,
}
use crk_io_board.Base.Int.{ℤ, pos, neg_ℤ, ltb_ℤ, ◌≤ℤ◌}
use crk_io_board.Readings.{digits_5, digit_is, is_error_value}
use crk_io_board.Config.{HealthSettings}
use crk_io_board.Machine.{matched, int_of, all_plausible}

abbrev pub signed_value : Bool → ℕ → ℤ
signed_value true n = neg_ℤ (pos n)
signed_value false n = pos n

abbrev pub sign_of : Bool → ℕ
sign_of true = b'-'
sign_of false = b'+'

int_of_digits :
    (minus : Bool) (n : ℕ)
    → n < 100000
    → int_of
        (sign_of minus)
        (b'0' + n / 10000 % 10)
        (b'0' + n / 1000 % 10)
        (b'0' + n / 100 % 10)
        (b'0' + n / 10 % 10)
        (b'0' + n % 10)
      ≡ signed_value minus n
int_of_digits true n h = ap (λ k. neg_ℤ (pos k)) (omega arith)
int_of_digits false n h = ap pos (omega arith)

sign_matches : (minus : Bool) → (sign_of minus == b'+' || sign_of minus == b'-') ≡ true
sign_matches true = refl
sign_matches false = refl

matched-digits :
    (minus : Bool) (n : ℕ)
    → n < 100000
    → matched (sign_of minus ∷ digits_5 n) ≡ some (signed_value minus n)
unfolding matched
matched-digits minus n h =
    rw
      (
        sign_matches minus,
        digit_is (n / 10000 % 10) (omega arith),
        digit_is (n / 1000 % 10) (omega arith),
        digit_is (n / 100 % 10) (omega arith),
        digit_is (n / 10 % 10) (omega arith),
        digit_is (n % 10) (omega arith),
      )
      (ap some (int_of_digits minus n h))

-- A reading of a sign and five digits whose value is in the range.
pub record IsPlausible (cfg : HealthSettings) (x : Text) : Type 0 where
  pub minus : Bool
  pub grams : ℕ
  pub fits : grams < 100000
  pub shape : x ≡ sign_of minus ∷ digits_5 grams
  pub above : cfg.loadcell_min_grams ≤ℤ signed_value minus grams
  pub below : signed_value minus grams ≤ℤ cfg.loadcell_max_grams

abbrev pub AllPlausible : HealthSettings → List Text → Type 0
AllPlausible cfg [] = Unit
AllPlausible cfg (x ∷ xs) = IsPlausible cfg x × AllPlausible cfg xs

not_below : (a b : ℤ) → a ≤ℤ b → ltb_ℤ b a ≡ false
not_below a b h = ground arith

-- A frame of readings of that form is taken for healthy.
pub all_plausible_lem :
    (cfg : HealthSettings) (xs : List Text) → AllPlausible cfg xs → all_plausible cfg xs ≡ true
unfolding all_plausible
all_plausible_lem cfg [] h = refl
all_plausible_lem cfg (x ∷ xs) (p, h) =
    rw
      (
        ap matched p.shape ∙ matched-digits p.minus p.grams p.fits,
        not_below cfg.loadcell_min_grams (signed_value p.minus p.grams) p.above,
        not_below (signed_value p.minus p.grams) cfg.loadcell_max_grams p.below,
      )
      (all_plausible_lem cfg xs h)

marker_unmatched : (raw : Text) → is_error_value raw ≡ true → matched raw ≡ none
unfolding is_error_value matched
marker_unmatched raw h = elim (Bool-cases (same_text raw (codes "EEEEEE"))) [
  | inl e ↦ rw (same_text→eq raw (codes "EEEEEE") e) refl
  | inr e ↦ rw (same_text→eq raw (codes "VVVVVV") (ground (arith, e, h))) refl
]

and_false : (b : Bool) → (b && false) ≡ false
and_false true = refl
and_false false = refl

-- Wherever an error marker stands in a frame, the frame is not taken for healthy.
pub all_plausible-error :
    (cfg : HealthSettings) (xs : List Text) (i : ℕ) (raw : Text)
    → get_elem? xs i ≡ some raw
    → is_error_value raw ≡ true
    → all_plausible cfg xs ≡ false
unfolding all_plausible
all_plausible-error cfg [] i raw h e = cc
all_plausible-error cfg (x ∷ xs) zero raw h e = rw (marker_unmatched x (cc (h, e))) refl
all_plausible-error cfg (x ∷ xs) (suc i) raw h e =
    rw (all_plausible-error cfg xs i raw h e) (and_false _)
