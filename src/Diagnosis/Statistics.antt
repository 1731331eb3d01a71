-- ===== src/Diagnosis/Statistics.antt =====
-- The readings of a channel in tools/post_move_diag.py: `parse_loadcell`, `channel_stats` and
-- `percentile`. A value counts units of 1/100000 g; what is rounded is a number of thousandths.
pub mod Roots
use mathlib.Core.Option
use crk_io_board.Base.{
  ℕ, zero, suc, ◌+◌, ◌-◌, ◌*◌, ◌/◌, ◌%◌, Bool, true, false, ◌&&◌, ◌||◌, Option, none, some, List,
  [], ◌∷◌, ◌++◌, Text, codes, same_text, leb, ltb, ◌==◌, length, get_elem?, if◌then◌else◌,
}
use crk_io_board.Base.Int.{ℤ, pos, ◌+ℤ◌, abs_ℤ, ltb_ℤ, eqb_ℤ, pos_part, neg_part}
use crk_io_board.Readings.{float, is_digit, gram}
use crk_io_board.Numbers.{ℚ, ratio, ◌+ℚ◌, ◌-ℚ◌, ◌/ℚ◌, leb_ℚ, half_even}
use crk_io_board.Numbers.Binary64.{binary64, reading}
use crk_io_board.Diagnosis.Statistics.Roots.{nearest_root}

-- What JSON holds in the place of a reading: a text, or something else.
pub data Cell : Type 0 where
  text_cell : Text → Cell
  other_cell : Cell

pub data Marker : Type 0 where
  marker_e marker_v malformed : Marker

-- VALUE_PATTERN
abbrev five_digits : Text → Bool
five_digits (a ∷ b ∷ c ∷ d ∷ e ∷ []) =
    is_digit a && is_digit b && is_digit c && is_digit d && is_digit e
five_digits _ = false

abbrev three_and_one : Text → Bool
three_and_one (a ∷ b ∷ c ∷ p ∷ d ∷ []) =
    is_digit a && is_digit b && is_digit c && p == b'.' && is_digit d
three_and_one _ = false

unfoldable pub fits_pattern : Text → Bool
fits_pattern [] = false
fits_pattern (c ∷ s) = (c == b'+' || c == b'-') && (five_digits s || three_and_one s)

pub data Parsed : Type 0 where
  number : ℤ → Parsed
  marked : Marker → Parsed

abbrev number_or_malformed : Option ℤ → Parsed
number_or_malformed none = marked malformed
number_or_malformed (some v) = number v

unfoldable pub parse_loadcell : Cell → Parsed
unfolding fits_pattern
parse_loadcell other_cell = marked malformed
parse_loadcell (text_cell s) =
    if same_text s (codes "EEEEEE")
    then marked marker_e
    else if same_text s (codes "VVVVVV")
    then marked marker_v
    else if fits_pattern s
    then number_or_malformed (float s)
    else marked malformed

-- A sample of the capture: its row of readings, or none when it is not a list.
abbrev pub Sample : Type 0
Sample = Option (List Cell)

-- The entry of a channel in a sample; a row that is not of ten entries is malformed.
abbrev cell_or_other : Option Cell → Cell
cell_or_other none = other_cell
cell_or_other (some c) = c

unfoldable pub channel_entry : ℕ → Sample → Parsed
unfolding parse_loadcell
channel_entry channel none = marked malformed
channel_entry channel (some row) =
    if length row == 10
    then parse_loadcell (cell_or_other (get_elem? row channel))
    else marked malformed

pub record ErrorCounts : Type 0 where
  pub eeeeee : ℕ
  pub vvvvvv : ℕ
  pub malformed_count : ℕ

abbrev count_marker : Marker → ErrorCounts → ErrorCounts
count_marker marker_e m = record m { eeeeee = suc m.eeeeee }
count_marker marker_v m = record m { vvvvvv = suc m.vvvvvv }
count_marker malformed m = record m { malformed_count = suc m.malformed_count }

abbrev add_entry : Parsed → List ℤ × ErrorCounts → List ℤ × ErrorCounts
add_entry (number v) (values, markers) = (v ∷ values, markers)
add_entry (marked k) (values, markers) = (values, count_marker k markers)

-- The values and the markers of a channel over the samples.
unfoldable pub gather : ℕ → List Sample → List ℤ × ErrorCounts
gather channel [] = ([], record { eeeeee = 0; vvvvvv = 0; malformed_count = 0 })
gather channel (s ∷ ss) = add_entry (channel_entry channel s) (gather channel ss)

abbrev pub error_count : ErrorCounts → ℕ
error_count m = m.eeeeee + m.vvvvvv + m.malformed_count

abbrev total : List ℤ → ℤ
total [] = pos 0
total (v ∷ vs) = v +ℤ total vs

abbrev squares : List ℤ → ℕ
squares [] = 0
squares (v ∷ vs) = abs_ℤ v * abs_ℤ v + squares vs

-- `min(values)` and `max(values)`, from the first one
abbrev lowest : ℤ → List ℤ → ℤ
lowest v [] = v
lowest v (w ∷ ws) = lowest (if ltb_ℤ w v then w else v) ws

abbrev highest : ℤ → List ℤ → ℤ
highest v [] = v
highest v (w ∷ ws) = highest (if ltb_ℤ v w then w else v) ws

abbrev is_in : ℤ → List ℤ → Bool
is_in v [] = false
is_in v (w ∷ ws) = eqb_ℤ v w || is_in v ws

-- `len(set(values))`
abbrev count_unique : List ℤ → ℕ
count_unique [] = 0
count_unique (v ∷ vs) = let rest = count_unique vs in if is_in v vs then rest else suc rest

pub record Spread : Type 0 where
  pub mean : ℚ
  pub stddev : ℚ
  pub minimum : ℚ
  pub maximum : ℚ
  pub range : ℚ

-- `round(a, d)`, for the power `places` of ten: to the nearest decimal, a half to the even one, and
-- from there to the nearest float.
abbrev round_to : ℕ → ℚ → ℚ
round_to places a = binary64 (record {
  plus = half_even ((a.plus - a.minus) * places) a.under;
  minus = half_even ((a.minus - a.plus) * places) a.under;
  under = places;
})

-- `fsum(values)`, before it is rounded
abbrev exact_sum : List ℤ → ℚ
exact_sum [] = ratio 0 1
exact_sum (v ∷ vs) = reading v +ℚ exact_sum vs

-- `round(fmean(values), 3)`, of the values and their number
abbrev rounded_mean : List ℤ → ℕ → ℚ
rounded_mean values n = round_to 1000 (binary64 (binary64 (exact_sum values) /ℚ ratio n 1))

-- `round(pstdev(values), 3)`, over the decimals that were read: the root of
-- (n * squares - sum * sum) / n ^ 2
abbrev rounded_stddev : ℤ → ℕ → ℕ → ℚ
rounded_stddev sum sq n = ratio (nearest_root (n * sq - abs_ℤ sum * abs_ℤ sum) (n * n * 10000)) 1000

unfoldable pub spread : List ℤ → Option Spread
spread [] = none
spread (v ∷ vs) = some (record {
  mean = rounded_mean (v ∷ vs) (length (v ∷ vs));
  stddev = binary64 (rounded_stddev (total (v ∷ vs)) (squares (v ∷ vs)) (length (v ∷ vs)));
  minimum = reading (lowest v vs);
  maximum = reading (highest v vs);
  range = binary64 (reading (highest v vs) -ℚ reading (lowest v vs));
})

pub record ChannelStats : Type 0 where
  pub channel : ℕ
  pub sample_count : ℕ
  pub valid_count : ℕ
  pub error_counts : ErrorCounts
  pub error_rate : ℚ
  pub unique_values : ℕ
  pub numbers : Option Spread

-- `round(errors / samples, 6)`, or 1 without samples
abbrev rate : ℕ → ℕ → ℚ
rate errors zero = ratio 1 1
rate errors (suc n) = round_to 1000000 (binary64 (ratio errors (suc n)))

unfoldable pub stats_of : ℕ → List Sample → ChannelStats
unfolding gather spread
stats_of channel samples =
    let (values, markers) = gather channel samples in
    record {
      channel = channel;
      sample_count = length samples;
      valid_count = length values;
      error_counts = markers;
      error_rate = rate (error_count markers) (length samples);
      unique_values = count_unique values;
      numbers = spread values;
    }

abbrev from_channel : ℕ → ℕ → List Sample → List ChannelStats
from_channel channel zero samples = []
from_channel channel (suc n) samples =
    stats_of channel samples ∷ from_channel (suc channel) n samples

unfoldable pub channel_stats : List Sample → List ChannelStats
unfolding stats_of
channel_stats samples = from_channel 0 10 samples
