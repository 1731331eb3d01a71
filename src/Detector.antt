-- ===== src/Detector.antt =====
-- src/io_board/events.py: `LoadcellChangeDetector`, which filters the readings of the ten loadcells
-- and compares each with the one before. The detector's lists of ten, `filters`, `thresholds`,
-- `_previous_raw` and `_previous_filtered`, are one list of channels.
pub mod Difference
pub mod Reported
pub mod Changes
pub mod History
mod Tests
use crk_io_board.Base.{
  ℕ, suc, ◌+◌, Bool, true, false, Option, none, some, List, [], ◌∷◌, Text, length, replicate, map,
  ◌++◌, ◌==◌, ◌||◌, if◌then◌else◌,
}
use crk_io_board.Base.Int.{ℤ}
use crk_io_board.Errors.{Result, ok, raise, other, value_error}
use crk_io_board.Readings.{is_error_value}
use crk_io_board.Numbers.{ℚ, ratio, ◌-ℚ◌, abs_ℚ, ltb_ℚ, signed_tenths}
use crk_io_board.Numbers.Binary64.{binary64}
use crk_io_board.Filters.{
  FilterMethod, ThresholdScope, raw_scope, filtered_scope, LoadcellFilter, FilterKwargs,
  create_filter, filter, numeric,
}
use crk_io_board.Filters

pub record Channel : Type 0 where
  pub filtering : LoadcellFilter
  pub threshold : ℚ
  pub previous_raw : Option ℚ
  pub previous_filtered : Option ℚ

pub record LoadcellChangeDetector : Type 0 where
  pub filter_method : FilterMethod
  pub threshold_scope : ThresholdScope
  pub channels : List Channel

abbrev pub new_channel : FilterMethod → FilterKwargs → ℚ → Channel
new_channel method kwargs threshold = record {
  filtering = create_filter method kwargs;
  threshold = threshold;
  previous_raw = none;
  previous_filtered = none;
}

-- `__init__`, with the ten thresholds, or none.
abbrev thresholds_or_zero : Option (List ℚ) → List ℚ
thresholds_or_zero none = replicate 10 (ratio 0 1)
thresholds_or_zero (some thresholds) = thresholds

unfoldable pub new_detector :
    FilterMethod → Option (List ℚ) → ThresholdScope → FilterKwargs → LoadcellChangeDetector
new_detector method thresholds scope kwargs = record {
  filter_method = method;
  threshold_scope = scope;
  channels = map (new_channel method kwargs) (thresholds_or_zero thresholds);
}

-- An entry of `change_details`: its values in tenths of a gram.
pub record Change : Type 0 where
  pub index : ℕ
  pub old_value : ℤ
  pub new_value : ℤ
  pub delta : ℤ

-- What `process` returns; `changed_indices` and the lists of `change_details` are one list.
pub record Processed : Type 0 where
  pub filtered_strings : List Text
  pub filtered_numerics : List (Option ℚ)
  pub changes : List Change

-- The value that the scope compares, and the one before.
abbrev pub of_scope {ℓ} : {A : Type ℓ} → ThresholdScope → A → A → A
of_scope raw_scope raw filtered = raw
of_scope filtered_scope raw filtered = filtered

abbrev pub exceeds : ℚ → Option ℚ → Option ℚ → Bool
exceeds threshold none previous = false
exceeds threshold (some n) none = false
exceeds threshold (some n) (some previous) = ltb_ℚ threshold (abs_ℚ (binary64 (n -ℚ previous)))

abbrev change_of : ℕ → Option ℚ → Option ℚ → List Change
change_of i (some n) (some previous) =
    record {
      index = i;
      old_value = signed_tenths previous;
      new_value = signed_tenths n;
      delta = signed_tenths (abs_ℚ (binary64 (n -ℚ previous)));
    }
    ∷ []
change_of i _ _ = []

abbrev pub report : ℕ → ℚ → Option ℚ → Option ℚ → List Change
report i threshold n previous = if exceeds threshold n previous then change_of i n previous else []

-- One pass of the loop: the change, if there is one, and the channel after it.
abbrev pub report_channel : ThresholdScope → ℕ → Channel → Text → List Change
report_channel scope i c raw =
    report i c.threshold (of_scope scope (numeric raw) (filter c.filtering raw).0.1)
      (of_scope scope c.previous_raw c.previous_filtered)

abbrev pub after : Channel → Text → Channel
after c raw = record c {
  filtering = (filter c.filtering raw).1;
  previous_raw = numeric raw;
  previous_filtered = (filter c.filtering raw).0.1;
}

abbrev pub prepend_processed : (Text × Option ℚ) → List Change → Processed → Processed
prepend_processed (shown, n) changes p = record {
  filtered_strings = shown ∷ p.filtered_strings;
  filtered_numerics = n ∷ p.filtered_numerics;
  changes = changes ++ p.changes;
}

-- The loop, from the channel `i`.
unfoldable pub process_from :
    ThresholdScope → ℕ → List Channel → List Text → Processed × List Channel
process_from scope i (c ∷ cs) (raw ∷ raws) =
    let (p, cs') = process_from scope (suc i) cs raws in
    (
      prepend_processed (filter c.filtering raw).0 (report_channel scope i c raw) p,
      after c raw ∷ cs',
    )
process_from scope i _ _ =
    (record { filtered_strings = []; filtered_numerics = []; changes = [] }, [])

-- LoadcellChangeDetector.process
unfoldable pub process :
    LoadcellChangeDetector → List Text → Result (Processed × LoadcellChangeDetector)
process d raws =
    if length raws == 10
    then (let (p, channels') = process_from d.threshold_scope 0 d.channels raws in
        ok (p, record d { channels = channels' }))
    else raise (other value_error)

-- LoadcellChangeDetector.detect_uncertainties
abbrev pub is_absent : Option ℚ → Bool
is_absent none = true
is_absent (some n) = false

unfoldable pub uncertain_from : ℕ → List Text → List (Option ℚ) → List ℕ
uncertain_from i (raw ∷ raws) (n ∷ ns) =
    let rest = uncertain_from (suc i) raws ns in
    if is_error_value raw || is_absent n then i ∷ rest else rest
uncertain_from i _ _ = []

unfoldable pub detect_uncertainties : List Text → List (Option ℚ) → List ℕ
detect_uncertainties raws filtered_numerics = uncertain_from 0 raws filtered_numerics

-- LoadcellChangeDetector.reset
abbrev pub reset_channel : Channel → Channel
reset_channel c = record c {
  filtering = Filters.reset c.filtering;
  previous_raw = none;
  previous_filtered = none;
}

unfoldable pub reset : LoadcellChangeDetector → LoadcellChangeDetector
reset d = record d { channels = map reset_channel d.channels }
