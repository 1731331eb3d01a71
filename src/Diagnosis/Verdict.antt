-- ===== src/Diagnosis/Verdict.antt =====
-- The verdict of tools/post_move_diag.py: what a pass says of the capture.
use crk_io_board.Base.{
  ℕ, suc, ◌≡◌, refl, ap, sym, ◌∙◌, arith, Bool, true, false, Option, none, some, List, [], ◌∷◌,
  Text, ◌==◌, ==_iff, if◌then◌else◌, Bool-cases, inl, inr, length,
}
use crk_io_board.Base.Int.{pos, ltb_ℤ}
use crk_io_board.Errors.{Result, ok, raise}
use crk_io_board.Numbers.{ℚ, ratio, leb_ℚ, ltb_ℚ}
use crk_io_board.Diagnosis
use crk_io_board.Diagnosis.{
  Thresholds, Severity, info, warn, fail, Issue, issue, when, same_value, StatusSample,
  RequestRecord,
}
use crk_io_board.Diagnosis.Statistics.{Sample, ChannelStats, channel_stats}
use crk_io_board.Diagnosis.Percentile.{percentile}
use crk_io_board.Diagnosis.Checks.{
  BaselineChannel, check_interval, check_samples, check_channels, at_channel, all_of, count_unlike,
  varies, check_expected, valid_door, valid_deadbolt, doors_of, deadbolts_of, check_status,
  failures, failure_rate, check_requests, latencies, check_p95, check_latency,
}
use crk_io_board.Diagnosis.Analysis.{
  Capture, Baseline, Expectations, baseline_channels, baseline_product, check_comparable, issues_of,
  max_rank, overall_of, overall_of_rank, analyze, exit_code, Arguments, validate_args, main, judged,
}
use crk_io_board.Diagnosis.Clear.{
  IsQuiet, IsQuiet-append, quiet_when, quiet_unless, quiet_grade, loud, fail_severe, warn_severe,
  rank_if, IsBelow, HealthClear, ProductClear, HistoryClear, ChannelClear, health-clear,
  product-clear, history-clear, channel-clear,
}

abbrev pub AllChannelsClear :
    Thresholds → Bool → Option (List BaselineChannel) → List ChannelStats → Type 0
AllChannelsClear t empty base [] = Unit
AllChannelsClear t empty base (s ∷ ss) =
    ChannelClear t empty (at_channel base s.channel) s × AllChannelsClear t empty base ss

channels-clear :
    (t : Thresholds) (empty : Bool) (base : Option (List BaselineChannel)) (ss : List ChannelStats)
    → IsQuiet (check_channels t empty base ss)
    → AllChannelsClear t empty base ss
channels-clear t empty base [] q = tt
channels-clear t empty base (s ∷ ss) q =
    let (first, rest) = IsQuiet-append q in
    (channel-clear t empty (at_channel base s.channel) s first, channels-clear t empty base ss rest)

-- Every value is the expected one, or all are the same.
abbrev pub ExpectedClear : Option Text → List (Option Text) → Type 0
ExpectedClear none values = varies values ≡ false
ExpectedClear (some e) values = count_unlike (some e) values ≡ 0

expected-clear :
    (e : Option Text) (values : List (Option Text)) (mismatch changed : Diagnosis.IssueCode)
    → IsQuiet (check_expected e values mismatch changed)
    → ExpectedClear e values
unfolding check_expected
expected-clear none values mismatch changed q =
    quiet_when (varies values) (issue warn changed) warn_severe q
expected-clear (some e) values mismatch changed q =
    let n = count_unlike (some e) values in
    (==_iff n 0).0 (
      quiet_unless (n == 0) (issue (if n == length values then fail else warn) mismatch)
        (rank_if (n == length values)) q)

abbrev pub StatusClear : Option Text → Option Text → List StatusSample → Type 0
StatusClear door deadbolt [] = ⊥
StatusClear door deadbolt (s ∷ ss) =
    (all_of valid_door (doors_of (s ∷ ss)) ≡ true)
    × (all_of valid_deadbolt (deadbolts_of (s ∷ ss)) ≡ true)
    × ExpectedClear door (doors_of (s ∷ ss))
    × ExpectedClear deadbolt (deadbolts_of (s ∷ ss))

status-clear :
    (door deadbolt : Option Text) (samples : List StatusSample)
    → IsQuiet (check_status door deadbolt samples)
    → StatusClear door deadbolt samples
unfolding check_status
status-clear door deadbolt [] q = absurd (loud (issue fail Diagnosis.status_unavailable) 1 refl q)
status-clear door deadbolt (s ∷ ss) q =
    let (abc, d) = IsQuiet-append q in
    let (ab, c) = IsQuiet-append abc in
    let (a, b) = IsQuiet-append ab in
    (
      quiet_unless (all_of valid_door (doors_of (s ∷ ss))) (issue fail Diagnosis.door_state_invalid)
          fail_severe a,
      quiet_unless (all_of valid_deadbolt (deadbolts_of (s ∷ ss)))
          (issue fail Diagnosis.deadbolt_state_invalid) fail_severe b,
      expected-clear door (doors_of (s ∷ ss)) _ _ c,
      expected-clear deadbolt (deadbolts_of (s ∷ ss)) _ _ d,
    )

requests-clear :
    (t : Thresholds) (rs : List RequestRecord) → IsQuiet (check_requests t rs) → failures rs ≡ 0
unfolding check_requests
requests-clear t rs q = (==_iff (failures rs) 0).0 (
    quiet_unless (failures rs == 0)
      (issue (if leb_ℚ t.request_failure_rate_fail (failure_rate rs) then fail else warn)
        Diagnosis.api_request_failures)
      (rank_if (leb_ℚ t.request_failure_rate_fail (failure_rate rs))) q)

abbrev pub LatencyClear : Thresholds → Option ℚ → Type 0
LatencyClear t none = Unit
LatencyClear t (some p95) = IsBelow t.latency_warn_ms t.latency_fail_ms p95

latency-clear : (t : Thresholds) (o : Option ℚ) → IsQuiet (check_p95 t o) → LatencyClear t o
latency-clear t none q = tt
latency-clear t (some p95) q =
    quiet_grade t.latency_warn_ms t.latency_fail_ms p95 (λ s. issue s Diagnosis.api_latency_high)
      (λ s. refl) q

abbrev pub ComparableClear : Option Baseline → Option (List BaselineChannel) → Type 0
ComparableClear none channels = Unit
ComparableClear (some b) none = ⊥
ComparableClear (some b) (some cs) = Unit

comparable-clear :
    (b : Option Baseline) (cs : Option (List BaselineChannel))
    → IsQuiet (check_comparable b cs)
    → ComparableClear b cs
comparable-clear none cs q = tt
comparable-clear (some b) none q =
    absurd (loud (issue warn Diagnosis.baseline_loadcells_unavailable) 0 refl q)
comparable-clear (some b) (some cs) q = tt

abbrev pub IntervalClear : Option ℚ → Type 0
IntervalClear none = Unit
IntervalClear (some i) = ltb_ℚ i (ratio 3 4) ≡ false

interval-clear : (o : Option ℚ) → IsQuiet (check_interval o) → IntervalClear o
unfolding check_interval
interval-clear none q = tt
interval-clear (some i) q =
    quiet_when (ltb_ℚ i (ratio 3 4)) (issue warn Diagnosis.capture_interval_below_throttle)
      warn_severe q

-- What the diagnosis asks for, part by part.
pub record IsClear (t : Thresholds) (c : Capture) (b : Option Baseline) (x : Expectations)
    : Type 0 where
  pub comparable : ComparableClear b (baseline_channels b)
  pub interval : IntervalClear c.interval_seconds
  pub samples : ltb_ℤ (pos (length c.loadcell_samples)) t.min_samples ≡ false
  pub health : HealthClear c.health
  pub product : ProductClear c.product_info (baseline_product b)
  pub history : HistoryClear c.device_errors
  pub channels : AllChannelsClear t x.empty (baseline_channels b) (channel_stats c.loadcell_samples)
  pub status : StatusClear x.expected_door x.expected_deadbolt c.status_samples
  pub requests : failures c.requests ≡ 0
  pub latency : LatencyClear t (percentile 95 100 (latencies c.requests))

samples-clear :
    (t : Thresholds) (ss : List Sample)
    → IsQuiet (check_samples t ss)
    → ltb_ℤ (pos (length ss)) t.min_samples ≡ false
unfolding check_samples
samples-clear t ss q =
    quiet_when (ltb_ℤ (pos (length ss)) t.min_samples)
      (issue fail Diagnosis.insufficient_loadcell_samples) fail_severe q

clear :
    (t : Thresholds) (c : Capture) (b : Option Baseline) (x : Expectations)
    → IsQuiet (issues_of t c b x)
    → IsClear t c b x
unfolding issues_of check_latency
clear t c b x q =
    let (q9, latency) = IsQuiet-append q in
    let (q8, requests) = IsQuiet-append q9 in
    let (q7, status) = IsQuiet-append q8 in
    let (q6, channels) = IsQuiet-append q7 in
    let (q5, history) = IsQuiet-append q6 in
    let (q4, product) = IsQuiet-append q5 in
    let (q3, health) = IsQuiet-append q4 in
    let (q2, samples) = IsQuiet-append q3 in
    let (comparable, interval) = IsQuiet-append q2 in
    record {
      comparable = comparable-clear b (baseline_channels b) comparable;
      interval = interval-clear c.interval_seconds interval;
      samples = samples-clear t c.loadcell_samples samples;
      health = health-clear c.health health;
      product = product-clear c.product_info (baseline_product b) product;
      history = history-clear c.device_errors history;
      channels =
          channels-clear t x.empty (baseline_channels b) (channel_stats c.loadcell_samples)
            channels;
      status = status-clear x.expected_door x.expected_deadbolt c.status_samples status;
      requests = requests-clear t c.requests requests;
      latency = latency-clear t (percentile 95 100 (latencies c.requests)) latency;
    }

zero_rank : (n : ℕ) → exit_code (overall_of_rank n) ≡ 0 → n ≡ 0
zero_rank n h = elim (Bool-cases (n == 0)) [
  | inl e ↦ (==_iff n 0).0 e
  | inr e ↦ elim (Bool-cases (n == 1)) [
    | inl one ↦ absurd (two_codes (rw (e, one) at h))
    | inr more ↦ absurd (two_codes (rw (e, more) at h))
  ]
]
  where
    two_codes : {k : ℕ} → suc k ≡ 0 → ⊥
    two_codes e = omega arith

passing : (is : List Issue) → exit_code (overall_of is) ≡ 0 → IsQuiet is
unfolding overall_of
passing is h = record { lowest = zero_rank (max_rank is) h }

-- The diagnosis exits with 0 only when its arguments are valid and the capture is clear in every
-- part: enough samples at an interval above the throttle, /health all HEALTHY, the product and
-- version of the baseline, no error code in the device, and in each channel no error marker, enough
-- values, and noise, range, offset and shift below their limits; only valid and expected states of
-- door and deadbolt, no failed request, and a latency below its limits.
pub main-IsClear :
    (a : Arguments) (c : Capture) (b : Option Baseline) (x : Expectations)
    → main a c b x ≡ 0
    → (validate_args a ≡ ok tt) × IsClear a.thresholds c b x
unfolding main analyze
main-IsClear a c b x h = judged_clear (validate_args a) refl
  where
    judged_clear :
        (r : Result (Unit {0}))
        → validate_args a ≡ r
        → (validate_args a ≡ ok tt) × IsClear a.thresholds c b x
    judged_clear (raise e) v =
        absurd (
          omega (arith, ap (λ r. judged r (overall_of (issues_of a.thresholds c b x))) (sym v) ∙ h))
    judged_clear (ok u) v = (
      v,
      clear a.thresholds c b x (
          passing (issues_of a.thresholds c b x)
            (ap (λ r. judged r (overall_of (issues_of a.thresholds c b x))) (sym v) ∙ h)),
    )
