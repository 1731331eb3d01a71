-- ===== src/Diagnosis/Silent.antt =====
-- A capture that is clear in every part raises no issue in `analyze` of tools/post_move_diag.py.
use crk_io_board.Base.{
  ℕ, ◌≡◌, ◌↔◌, refl, Bool, true, false, ◌&&◌, Option, none, some, List, [], ◌∷◌, Text, length,
}
use crk_io_board.Base.Int.{pos, ltb_ℤ}
use crk_io_board.Errors.{ok}
use crk_io_board.Numbers.{ℚ, leb_ℚ}
use crk_io_board.Diagnosis.{
  Thresholds, Severity, fail, warn, Issue, issue, when, grade, graded, same_value, Health, Product,
  StatusSample, RequestRecord,
}
use crk_io_board.Diagnosis
use crk_io_board.Diagnosis.Statistics.{Sample, ChannelStats, Spread, channel_stats}
use crk_io_board.Diagnosis.Percentile.{percentile}
use crk_io_board.Diagnosis.Checks.{
  BaselineChannel, check_interval, check_samples, check_health, check_product, check_device_errors,
  check_markers, check_offset, check_shift, check_noise_ratio, noise_ratio, check_baseline,
  check_spread, check_channel, check_channels, at_channel, check_expected, check_status, failures,
  check_requests, latencies, check_p95, check_latency,
}
use crk_io_board.Diagnosis.Analysis.{
  Capture, Baseline, Expectations, Arguments, baseline_channels, baseline_product, check_comparable,
  issues_of, overall_of, analyze, main, validate_args,
}
use crk_io_board.Diagnosis.Clear.{
  IsBelow, HealthClear, ProductClear, HistoryClear, OffsetClear, MeanClear, ShiftClear, SpreadClear,
  ChannelClear,
}
use crk_io_board.Diagnosis.Verdict.{
  AllChannelsClear, ExpectedClear, StatusClear, LatencyClear, ComparableClear, IntervalClear,
  IsClear, main-IsClear,
}

grade-none : (w f v : ℚ) → IsBelow w f v → grade w f v ≡ none
unfolding grade
grade-none w f v (a, b) = rw (a, b) refl

health-silent : (h : Option Health) → HealthClear h → check_health h ≡ []
unfolding check_health
health-silent none h = elim h [ ]
health-silent (some x) (a, b, c) = rw (a, b, c) refl

product-silent : (p b : Option Product) → ProductClear p b → check_product p b ≡ []
unfolding check_product
product-silent none b h = elim h [ ]
product-silent (some p) none h = refl
product-silent (some p) (some b) (x, y) = rw (x, y) refl

history-silent : (e : Option (List (Option Text))) → HistoryClear e → check_device_errors e ≡ []
unfolding check_device_errors
history-silent none h = elim h [ ]
history-silent (some es) h = rw h refl

offset-silent :
    (t : Thresholds) (empty : Bool) (channel : ℕ) (n : Spread)
    → OffsetClear t empty n
    → check_offset t empty channel n ≡ []
unfolding check_offset
offset-silent t false channel n h = refl
offset-silent t true channel n h = rw (grade-none _ _ _ h) refl

shift-silent :
    (t : Thresholds) (channel : ℕ) (n : Spread) (m : Option ℚ)
    → MeanClear t n m
    → check_shift t channel n m ≡ []
unfolding check_shift
shift-silent t channel n none h = refl
shift-silent t channel n (some m) h = rw (grade-none _ _ _ h) refl

and_never : (a b : Bool) → b ≡ false → (a && b) ≡ false
and_never true b h = h
and_never false b h = refl

-- Noise below its limit raises no issue about its ratio to the baseline either.
ratio-silent :
    (t : Thresholds) (channel : ℕ) (n : Spread) (m : Option ℚ)
    → leb_ℚ t.noise_std_warn n.stddev ≡ false
    → check_noise_ratio t channel n m ≡ []
unfolding check_noise_ratio
ratio-silent t channel n none h = refl
ratio-silent t channel n (some b) h =
    rw
      (
        and_never (leb_ℚ t.baseline_noise_ratio_fail (noise_ratio n b))
            (leb_ℚ t.noise_std_warn n.stddev) h,
        and_never (leb_ℚ t.baseline_noise_ratio_warn (noise_ratio n b))
            (leb_ℚ t.noise_std_warn n.stddev) h,
      )
      refl

baseline-silent :
    (t : Thresholds) (channel : ℕ) (n : Spread) (b : Option BaselineChannel)
    → leb_ℚ t.noise_std_warn n.stddev ≡ false
    → ShiftClear t n b
    → check_baseline t channel n b ≡ []
baseline-silent t channel n none h s = refl
baseline-silent t channel n (some b) h s =
    rw (shift-silent t channel n b.mean s, ratio-silent t channel n b.stddev h) refl

spread-silent :
    (t : Thresholds) (empty : Bool) (channel : ℕ) (b : Option BaselineChannel) (n : Option Spread)
    → SpreadClear t empty b n
    → check_spread t empty channel b n ≡ []
spread-silent t empty channel b none h = refl
spread-silent t empty channel b (some n) (noise, range, offset, shift) =
    rw
      (
        grade-none t.noise_std_warn t.noise_std_fail n.stddev noise,
        grade-none t.range_warn t.range_fail n.range range,
        offset-silent t empty channel n offset,
        baseline-silent t channel n b noise.1 shift,
      )
      refl

channel-silent :
    (t : Thresholds) (empty : Bool) (b : Option BaselineChannel) (s : ChannelStats)
    → ChannelClear t empty b s
    → check_channel t empty b s ≡ []
unfolding check_channel check_markers
channel-silent t empty b s (errors, enough, spread) =
    rw (errors, enough) (spread-silent t empty s.channel b s.numbers spread)

channels-silent :
    (t : Thresholds) (empty : Bool) (base : Option (List BaselineChannel)) (ss : List ChannelStats)
    → AllChannelsClear t empty base ss
    → check_channels t empty base ss ≡ []
channels-silent t empty base [] h = refl
channels-silent t empty base (s ∷ ss) (c, h) =
    rw (channel-silent t empty (at_channel base s.channel) s c, channels-silent t empty base ss h)
      refl

expected-silent :
    (e : Option Text) (values : List (Option Text)) (mismatch changed : Diagnosis.IssueCode)
    → ExpectedClear e values
    → check_expected e values mismatch changed ≡ []
unfolding check_expected
expected-silent none values mismatch changed h = rw h refl
expected-silent (some e) values mismatch changed h = rw h refl

status-silent :
    (door deadbolt : Option Text) (samples : List StatusSample)
    → StatusClear door deadbolt samples
    → check_status door deadbolt samples ≡ []
unfolding check_status
status-silent door deadbolt [] h = elim h [ ]
status-silent door deadbolt (s ∷ ss) (a, b, c, d) =
    rw (a, b, expected-silent door _ _ _ c, expected-silent deadbolt _ _ _ d) refl

requests-silent :
    (t : Thresholds) (rs : List RequestRecord) → failures rs ≡ 0 → check_requests t rs ≡ []
unfolding check_requests
requests-silent t rs h = rw h refl

latency-silent : (t : Thresholds) (o : Option ℚ) → LatencyClear t o → check_p95 t o ≡ []
latency-silent t none h = refl
latency-silent t (some p) h = rw (grade-none _ _ _ h) refl

comparable-silent :
    (b : Option Baseline) (cs : Option (List BaselineChannel))
    → ComparableClear b cs
    → check_comparable b cs ≡ []
comparable-silent none cs h = refl
comparable-silent (some b) none h = elim h [ ]
comparable-silent (some b) (some cs) h = refl

interval-silent : (o : Option ℚ) → IntervalClear o → check_interval o ≡ []
unfolding check_interval
interval-silent none h = refl
interval-silent (some i) h = rw h refl

samples-silent :
    (t : Thresholds) (ss : List Sample)
    → ltb_ℤ (pos (length ss)) t.min_samples ≡ false
    → check_samples t ss ≡ []
unfolding check_samples
samples-silent t ss h = rw h refl

silent :
    (t : Thresholds) (c : Capture) (b : Option Baseline) (x : Expectations)
    → IsClear t c b x
    → issues_of t c b x ≡ []
unfolding issues_of check_latency
silent t c b x k =
    rw
      (
        comparable-silent b (baseline_channels b) k.comparable,
        interval-silent c.interval_seconds k.interval,
        samples-silent t c.loadcell_samples k.samples,
        health-silent c.health k.health,
        product-silent c.product_info (baseline_product b) k.product,
        history-silent c.device_errors k.history,
        channels-silent t x.empty (baseline_channels b) (channel_stats c.loadcell_samples)
            k.channels,
        status-silent x.expected_door x.expected_deadbolt c.status_samples k.status,
        requests-silent t c.requests k.requests,
        latency-silent t (percentile 95 100 (latencies c.requests)) k.latency,
      )
      refl

passes :
    (a : Arguments) (c : Capture) (b : Option Baseline) (x : Expectations)
    → validate_args a ≡ ok tt
    → IsClear a.thresholds c b x
    → main a c b x ≡ 0
unfolding main analyze overall_of
passes a c b x v k = rw (v, silent a.thresholds c b x k) refl

-- The diagnosis exits with 0 exactly when its arguments are valid and the capture is clear in
-- every part: enough samples at an interval above the throttle, /health all HEALTHY, the product
-- and version of the baseline, no error code in the device, in each channel no error marker,
-- enough values, and noise, range, offset and shift below their limits, only valid and expected
-- states of door and deadbolt, no failed request, and a latency below its limits.
pub main_iff :
    (a : Arguments) (c : Capture) (b : Option Baseline) (x : Expectations)
    → (main a c b x ≡ 0) ↔ ((validate_args a ≡ ok tt) × IsClear a.thresholds c b x)
main_iff a c b x = (main-IsClear a c b x, λ h. passes a c b x h.0 h.1)
