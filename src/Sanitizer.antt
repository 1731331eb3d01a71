-- ===== src/Sanitizer.antt =====
-- `LoadcellSanitizer` of src/services/io_board/sanitizer.py: one state for each channel, and the
-- frame of readings that goes through it. Weights count 1/100000 g, times are microseconds.
pub mod Quantize
pub mod Guard
pub mod Frame
mod Tests
use crk_io_board.Base.{
  ℕ, zero, suc, ◌+◌, ◌-◌, ◌*◌, ◌/◌, ◌≡◌, Bool, true, false, ◌&&◌, Option, none, some, List, [], ◌∷◌,
  ◌++◌, Text, ltb, leb, ◌==◌, length, drop, replicate, if◌then◌else◌,
}
use crk_io_board.Base.Int.{
  ℤ, pos, negsuc, ◌+ℤ◌, ◌-ℤ◌, ◌*ℤ◌, ltb_ℤ, neg_ℤ, abs_ℤ, eqb_ℤ, floor_div, pos_part, neg_part,
}
use crk_io_board.Readings.{parse_value, gram, digits_5}

-- `SanitizeModel` of src/core/config.py. A negative step disables the quantization, as 0 does.
pub record SanitizeModel : Type 0 where
  pub enabled : Bool
  pub median_filter : Bool
  pub magnitude_tolerance : ℕ
  pub min_magnitude : ℕ
  pub relatch_frames : ℕ
  pub staleness : ℕ
  pub quantize_step : ℤ
  pub quantize_hysteresis : ℕ

-- The slots of one channel in `_window`, `_prev`, `_prev_ts`, `_flip_streak` and `_prev_bin`.
pub record Channel : Type 0 where
  pub window : List ℤ
  pub prev : Option ℤ
  pub prev_ts : ℕ
  pub flip_streak : ℕ
  pub prev_bin : Option ℤ

pub record Sanitizer : Type 0 where
  pub config : SanitizeModel
  pub channels : List Channel
  pub glitch_count : ℕ

abbrev pub fresh_channel : Channel
fresh_channel = record { window = []; prev = none; prev_ts = 0; flip_streak = 0; prev_bin = none }

-- __init__
unfoldable pub create : SanitizeModel → ℕ → Sanitizer
create config channels = record {
  config = config;
  channels = replicate channels fresh_channel;
  glitch_count = 0;
}

-- reset
unfoldable pub reset : Sanitizer → Sanitizer
reset s = record s { channels = replicate (length s.channels) fresh_channel }

-- `sorted([a, b, c])[1]`
unfoldable pub median_3 : ℤ → ℤ → ℤ → ℤ
median_3 a b c =
    if ltb_ℤ b a
    then (if ltb_ℤ c b then b else if ltb_ℤ c a then c else a)
    else if ltb_ℤ c a
    then a
    else if ltb_ℤ c b
    then c
    else b

abbrev last_3 : List ℤ → List ℤ
last_3 w = if ltb 3 (length w) then drop 1 w else w

abbrev median_of : List ℤ → ℤ → ℤ
unfolding median_3
median_of (a ∷ b ∷ c ∷ []) numeric = median_3 a b c
median_of _ numeric = numeric

-- Layer 1: the window, and the value that goes on.
unfoldable pub pre_filter : SanitizeModel → Bool → ℤ → Channel → List ℤ × ℤ
unfolding median_3
pre_filter cfg fresh numeric ch =
    if cfg.median_filter
    then (let w = last_3 ((if fresh then ch.window else []) ++ numeric ∷ []) in
        (w, median_of w numeric))
    else (ch.window, numeric)

abbrev pub distance : ℕ → ℕ → ℕ
distance a b = (a - b) + (b - a)

-- The test for a sign glitch.
unfoldable pub is_flip : SanitizeModel → Bool → ℤ → Option ℤ → Bool
is_flip cfg fresh value none = false
is_flip cfg fresh value (some prev) =
    fresh
    && ltb_ℤ (value *ℤ prev) (pos 0)
    && leb cfg.min_magnitude (abs_ℤ value)
    && leb (distance (abs_ℤ value) (abs_ℤ prev)) cfg.magnitude_tolerance

-- Layer 2: the value, the new streak, and whether the sign has been restored.
unfoldable pub sign_guard : SanitizeModel → Bool → ℤ → Option ℤ → ℕ → ℤ × ℕ × Bool
unfolding is_flip
sign_guard cfg fresh value prev flip_streak =
    if is_flip cfg fresh value prev
    then (if ltb (flip_streak + 1) cfg.relatch_frames
        then (neg_ℤ value, flip_streak + 1, true)
        else (value, 0, false))
    else (value, 0, false)

-- `abs(value - prev_bin) <= step / 2 + hysteresis`
abbrev pub in_bin : ℕ → ℕ → ℤ → Option ℤ → Bool
in_bin step hysteresis value none = false
in_bin step hysteresis value (some bin) = leb (2 * abs_ℤ (value -ℤ bin)) (step + 2 * hysteresis)

-- `math.floor(value / step + 0.5) * step`
abbrev pub half_up : ℕ → ℤ → ℤ
half_up step value = floor_div (pos 2 *ℤ value +ℤ pos step) (2 * step) *ℤ pos step

abbrev pub bin_or : Option ℤ → ℤ → ℤ
bin_or none q = q
bin_or (some bin) q = bin

-- _quantize: the quantized value, and the bin after it.
unfoldable pub quantize : SanitizeModel → Option ℤ → ℤ → ℤ × Option ℤ
quantize cfg prev_bin value =
    if ltb_ℤ (pos 0) cfg.quantize_step
    then (let step = pos_part cfg.quantize_step in
        if in_bin step cfg.quantize_hysteresis value prev_bin
        then (bin_or prev_bin value, prev_bin)
        else (half_up step value, some (half_up step value)))
    else (value, prev_bin)

-- _format
unfoldable pub format : ℤ → Text
format value =
    (if ltb_ℤ value (pos 0) then b'-' else b'+')
    ∷ (let n = abs_ℤ value / gram in digits_5 (if ltb 99999 n then 99999 else n))

-- A channel's turn in `sanitize`: its state, the output, and whether a sign has been restored.
unfoldable pub sanitize_numeric : SanitizeModel → ℕ → Text → ℤ → Channel → Channel × Text × Bool
unfolding pre_filter sign_guard quantize format
sanitize_numeric cfg ts raw numeric ch =
    let fresh = leb (ts - ch.prev_ts) cfg.staleness in
    let (window, filtered) = pre_filter cfg fresh numeric ch in
    let (value, streak, corrected) = sign_guard cfg fresh filtered ch.prev ch.flip_streak in
    let (quantized, bin) = quantize cfg ch.prev_bin value in
    (
      record {
        window = window;
        prev = some value;
        prev_ts = ts;
        flip_streak = streak;
        prev_bin = bin;
      },
      if eqb_ℤ quantized numeric then raw else format quantized,
      corrected,
    )

abbrev pub sanitize_parsed : SanitizeModel → ℕ → Text → Channel → Option ℤ → Channel × Text × Bool
sanitize_parsed cfg ts raw ch none = (ch, raw, false)
sanitize_parsed cfg ts raw ch (some numeric) = sanitize_numeric cfg ts raw numeric ch

unfoldable pub sanitize_one : SanitizeModel → ℕ → Text → Channel → Channel × Text × Bool
unfolding sanitize_numeric parse_value
sanitize_one cfg ts raw ch = sanitize_parsed cfg ts raw ch (parse_value raw)

abbrev count : Bool → ℕ → ℕ
count b n = if b then suc n else n

-- The loop over the channels; values behind the last channel pass through.
unfoldable pub sanitize_channels :
    SanitizeModel → ℕ → List Text → List Channel → List Channel × List Text × ℕ
unfolding sanitize_one
sanitize_channels cfg ts [] chs = (chs, [], 0)
sanitize_channels cfg ts (raw ∷ values) [] = ([], raw ∷ values, 0)
sanitize_channels cfg ts (raw ∷ values) (ch ∷ chs) =
    let (ch', out, corrected) = sanitize_one cfg ts raw ch in
    let (chs', outs, n) = sanitize_channels cfg ts values chs in
    (ch' ∷ chs', out ∷ outs, count corrected n)

-- sanitize
unfoldable pub sanitize : List Text → ℕ → Sanitizer → Sanitizer × List Text
unfolding sanitize_channels
sanitize values ts s =
    let (chs, out, n) = sanitize_channels s.config ts values s.channels in
    (record s { channels = chs; glitch_count = s.glitch_count + n }, out)

-- configure_sanitizer: the module's `_sanitizer`
unfoldable pub configure_sanitizer : SanitizeModel → Option Sanitizer
unfolding create
configure_sanitizer config = if config.enabled then some (create config 10) else none

-- sanitize_loadcells
unfoldable pub sanitize_loadcells : List Text → ℕ → Option Sanitizer → Option Sanitizer × List Text
unfolding sanitize
sanitize_loadcells values ts none = (none, values)
sanitize_loadcells values ts (some s) = let (s', out) = sanitize values ts s in (some s', out)

-- reset_sanitizer
unfoldable pub reset_sanitizer : Option Sanitizer → Option Sanitizer
unfolding reset
reset_sanitizer none = none
reset_sanitizer (some s) = some (reset s)
