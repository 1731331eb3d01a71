-- ===== src/Filters.antt =====
-- src/io_board/filters.py: the filters that smooth the readings of a loadcell. A filter is a value
-- that `filter` returns changed; each operation on floats is rounded (`binary64`). `_initialized` is set and cleared
-- together with `_previous` or `_x`, so that option stands for both.
pub mod Format
pub mod History
mod Tests
use crk_io_board.Base.{
  ℕ, ◌+◌, ◌-◌, ◌*◌, ◌/◌, ◌%◌, ◌≤◌, Bool, true, false, Option, none, some, List, [], ◌∷◌, Text, leb,
  ltb, if◌then◌else◌,
}
use mathlib.Core.Option
use crk_io_board.Readings.{parse_value, digits_5, digits_3_1}
use crk_io_board.Numbers.{ℚ, ratio, ◌+ℚ◌, ◌-ℚ◌, ◌*ℚ◌, ◌/ℚ◌, leb_ℚ, ltb_ℚ, max_ℚ, min_ℚ, tenths}
use crk_io_board.Numbers.Binary64.{binary64, reading}

pub data FilterMethod : Type 0 where
  unfiltered exponential kalman : FilterMethod

pub data ThresholdScope : Type 0 where
  raw_scope filtered_scope : ThresholdScope

-- _parse_value
abbrev pub numeric : Text → Option ℚ
numeric value = Option.map reading (parse_value value)

abbrev sign : ℚ → ℕ
sign n = if leb n.minus n.plus then b'+' else b'-'

abbrev pub clamp_5 : ℕ → ℕ
clamp_5 n = if ltb 99999 n then 99999 else n

abbrev pub format_tenths : ℕ → Text
format_tenths t = if ltb t 10000 then digits_3_1 t else digits_5 (clamp_5 (t / 10))

unfoldable pub format_value : ℚ → Text
format_value n = sign n ∷ format_tenths (tenths n)

pub record ExponentialSmoothingFilter : Type 0 where
  pub alpha : ℚ
  pub previous : Option ℚ

pub record KalmanFilter : Type 0 where
  pub q : ℚ
  pub r : ℚ
  pub x : Option ℚ
  pub p : ℚ

-- LoadcellFilter and its subclasses
pub data LoadcellFilter : Type 0 where
  no_filter : LoadcellFilter
  smoothing : ExponentialSmoothingFilter → LoadcellFilter
  estimating : KalmanFilter → LoadcellFilter

-- What `filter` returns, and the filter after it.
abbrev pub Filtered : Type 0
Filtered = (Text × Option ℚ) × LoadcellFilter

-- ExponentialSmoothingFilter.filter
abbrev pub smoothed : ExponentialSmoothingFilter → ℚ → Option ℚ → ℚ
smoothed f n none = n
smoothed f n (some previous) =
    binary64 (binary64 (f.alpha *ℚ n) +ℚ binary64 (binary64 (ratio 1 1 -ℚ f.alpha) *ℚ previous))

unfoldable pub filter_exponential : ExponentialSmoothingFilter → Text → Option ℚ → Filtered
filter_exponential f value none = ((value, none), smoothing f)
filter_exponential f value (some n) =
    let filtered = smoothed f n f.previous in
    ((format_value filtered, some filtered), smoothing (record f { previous = some filtered }))

-- KalmanFilter.filter: the first reading, or the prediction and its update.
abbrev pub estimate : KalmanFilter → ℚ → Option ℚ → KalmanFilter
estimate f n none = record f { x = some n; p = ratio 1 1 }
estimate f n (some x) =
    let predicted = binary64 (f.p +ℚ f.q) in
    let k = binary64 (predicted /ℚ binary64 (predicted +ℚ f.r)) in
    record f {
      x = some (binary64 (x +ℚ binary64 (k *ℚ binary64 (n -ℚ x))));
      p = binary64 (binary64 (ratio 1 1 -ℚ k) *ℚ predicted);
    }

abbrev shown : Option ℚ → Text
shown none = []
shown (some n) = format_value n

unfoldable pub filter_kalman : KalmanFilter → Text → Option ℚ → Filtered
filter_kalman f value none = ((value, none), estimating f)
filter_kalman f value (some n) = let f' = estimate f n f.x in ((shown f'.x, f'.x), estimating f')

-- `filter` of each class
unfoldable pub filter : LoadcellFilter → Text → Filtered
filter no_filter value = ((value, numeric value), no_filter)
filter (smoothing f) value = filter_exponential f value (numeric value)
filter (estimating f) value = filter_kalman f value (numeric value)

-- `reset` of each class
unfoldable pub reset : LoadcellFilter → LoadcellFilter
reset no_filter = no_filter
reset (smoothing f) = smoothing (record f { previous = none })
reset (estimating f) = estimating (record f { x = none; p = ratio 1 1 })

-- `**kwargs`
pub record FilterKwargs : Type 0 where
  pub alpha : Option ℚ
  pub q : Option ℚ
  pub r : Option ℚ

abbrev pub or_default : Option ℚ → ℚ → ℚ
or_default none d = d
or_default (some n) d = n

-- The constructors: `alpha` is clamped to [0, 1], and `q` and `r` are kept from 0.
abbrev new_exponential : ℚ → ExponentialSmoothingFilter
new_exponential alpha = record {
  alpha = max_ℚ (ratio 0 1) (min_ℚ (ratio 1 1) alpha);
  previous = none;
}

abbrev new_kalman : ℚ → ℚ → KalmanFilter
new_kalman q r = record {
  q = max_ℚ (binary64 (ratio 1 10000)) q;
  r = max_ℚ (binary64 (ratio 1 10000)) r;
  x = none;
  p = ratio 1 1;
}

unfoldable pub create_filter : FilterMethod → FilterKwargs → LoadcellFilter
create_filter unfiltered kwargs = no_filter
create_filter exponential kwargs =
    smoothing (new_exponential (or_default kwargs.alpha (binary64 (ratio 2 10))))
create_filter kalman kwargs =
    estimating
      (new_kalman (or_default kwargs.q (binary64 (ratio 1 1000))) (or_default kwargs.r (ratio 1 1)))
