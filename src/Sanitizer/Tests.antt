-- ===== src/Sanitizer/Tests.antt =====
-- The theorems on src/services/io_board/sanitizer.py at concrete readings.
use crk_io_board.Base.{
  ◌+◌, ◌*◌, ◌≤◌, ◌≡◌, refl, inr, true, false, none, some, List, [], ◌∷◌, Text, codes, arith, length,
  get_elem?, replicate,
}
use crk_io_board.Base.Int.{ℤ, pos, negsuc, neg_ℤ, abs_ℤ, ◌-ℤ◌, ◌*ℤ◌, ◌+ℤ◌}
use crk_io_board.Readings.{parse_value, is_error_value, float}
use crk_io_board.Sanitizer.{
  SanitizeModel, fresh_channel, create, is_flip, quantize, half_up, format, sanitize, sanitize_one,
}
use crk_io_board.Sanitizer.Quantize.{IsMultiple, quantize_error, quantize_all, quantize_steady}
use crk_io_board.Sanitizer.Guard.{IsGlitch, guard_all, guard_corrects, guard_relatches}
use crk_io_board.Sanitizer.Frame.{
  IsSanitized, sanitize_errors, sanitize_one_lem, parse_value-format,
}

-- The defaults of the settings.
abbrev defaults : SanitizeModel
defaults = record {
  enabled = true;
  median_filter = false;
  magnitude_tolerance = 200000;
  min_magnitude = 500000;
  relatch_frames = 3;
  staleness = 2000000;
  quantize_step = pos 500000;
  quantize_hysteresis = 100000;
}

-- 962 g and 963 g
abbrev below : ℤ
below = pos 96200000

abbrev above : ℤ
above = pos 96300000

half_up_962 : half_up 500000 below ≡ pos 96000000
unfolding ◌*ℤ◌ ◌+ℤ◌
half_up_962 = refl

distance_963 : 2 * abs_ℤ (above -ℤ below) ≤ 2 * 100000
unfolding ◌-ℤ◌
distance_963 = omega arith

quantize_error_example :
    let (q, bin) = quantize defaults none above in
    (2 * abs_ℤ (above -ℤ q) ≤ 500000 + 2 * 100000) × IsMultiple 500000 q × (bin ≡ some q)
quantize_error_example = quantize_error defaults 500000 refl (omega arith) none above tt

quantize_steady_example :
    quantize_all defaults none (below ∷ above ∷ above ∷ []) ≡ replicate 3 (half_up 500000 below)
quantize_steady_example =
    quantize_steady defaults 500000 refl (omega arith) below (above ∷ above ∷ [])
      (distance_963, (distance_963, tt))

-- The first reading is -962 g, and one of +962 g follows.
abbrev weight : ℤ
weight = negsuc 96199999

glitch : IsGlitch defaults weight below
glitch = record {
  opposite = inr (omega arith, omega arith);
  large = omega arith;
  close = omega arith;
}

back : IsGlitch defaults (neg_ℤ below) below
back = record {
  opposite = inr (omega arith, omega arith);
  large = omega arith;
  close = omega arith;
}

no_flip : is_flip defaults true weight (some (neg_ℤ below)) ≡ false
unfolding is_flip ◌*ℤ◌
no_flip = refl

guard_corrects_example :
    guard_all defaults (some weight) 0 (below ∷ below ∷ weight ∷ [])
    ≡ (neg_ℤ below ∷ neg_ℤ below ∷ weight ∷ [], 0)
guard_corrects_example =
    guard_corrects defaults weight weight (below ∷ below ∷ []) (glitch, (back, tt)) (omega arith)
      no_flip

guard_relatches_example :
    guard_all defaults (some weight) 0 (below ∷ below ∷ below ∷ [])
    ≡ (neg_ℤ below ∷ neg_ℤ below ∷ below ∷ [], 0)
guard_relatches_example =
    guard_relatches defaults weight below (below ∷ below ∷ []) (glitch, (back, tt)) refl back

abbrev marker_frame : List Text
marker_frame = codes "+00962" ∷ codes "EEEEEE" ∷ []

is_marker : is_error_value (codes "EEEEEE") ≡ true
unfolding is_error_value
is_marker = refl

sanitize_errors_example :
    let (s', out) = sanitize marker_frame 7 (create defaults 10) in
    (length out ≡ 2)
    × (get_elem? out 1 ≡ some (codes "EEEEEE"))
    × (get_elem? s'.channels 1 ≡ get_elem? (create defaults 10).channels 1)
sanitize_errors_example =
    sanitize_errors marker_frame 7 (create defaults 10) 1 (codes "EEEEEE") refl is_marker

parsed_962 : parse_value (codes "+00962") ≡ some below
unfolding parse_value is_error_value float
parsed_962 = refl

sanitize_one_lem_example :
    let (ch', out, corrected) = sanitize_one defaults 7 (codes "+00962") fresh_channel in
    IsSanitized defaults 500000 below ch' out
sanitize_one_lem_example =
    sanitize_one_lem defaults 500000 7 (codes "+00962") below fresh_channel refl (omega arith)
      (omega arith) refl parsed_962 tt

parse_value-format_test : parse_value (format weight) ≡ some weight
parse_value-format_test =
    parse_value-format weight (record { grams = 962; fits = omega arith; whole = refl })
