-- ===== src/Diagnosis/Analysis.antt =====
-- `analyze` of tools/post_move_diag.py, the check of the command line, and the exit code.
use crk_io_board.Base.{
  ℕ, Bool, ◌&&◌, ◌||◌, not, Option, none, some, List, [], ◌∷◌, ◌++◌, Text, leb, ◌==◌, if◌then◌else◌,
}
use crk_io_board.Base.Int.{ℤ, pos, ltb_ℤ}
use crk_io_board.Errors.{Result, ok, raise, other, value_error}
use crk_io_board.Numbers.{ℚ, ratio, leb_ℚ, ltb_ℚ}
use crk_io_board.Diagnosis.{
  Thresholds, Severity, info, warn, fail, baseline_loadcells_unavailable, Issue, issue, Health,
  Product, StatusSample, RequestRecord,
}
use crk_io_board.Diagnosis.Statistics.{Sample, ChannelStats, Spread, channel_stats}
use crk_io_board.Diagnosis.Checks.{
  BaselineChannel, check_interval, check_samples, check_health, check_product, check_device_errors,
  check_channels, check_status, check_requests, check_latency,
}

pub record Capture : Type 0 where
  pub loadcell_samples : List Sample
  pub interval_seconds : Option ℚ
  pub health : Option Health
  pub product_info : Option Product
  pub device_errors : Option (List (Option Text))
  pub status_samples : List StatusSample
  pub requests : List RequestRecord

-- A baseline file: the statistics of its analysis, its samples and its product.
pub record Baseline : Type 0 where
  pub analysis_channels : Option (List BaselineChannel)
  pub samples : Option (List Sample)
  pub product : Option Product

pub record Expectations : Type 0 where
  pub empty : Bool
  pub expected_door : Option Text
  pub expected_deadbolt : Option Text

abbrev baseline_channel : Option Spread → BaselineChannel
baseline_channel none = record { mean = none; stddev = none }
baseline_channel (some n) = record { mean = some n.mean; stddev = some n.stddev }

abbrev baseline_of_stats : List ChannelStats → List BaselineChannel
baseline_of_stats [] = []
baseline_of_stats (s ∷ ss) = baseline_channel s.numbers ∷ baseline_of_stats ss

abbrev of_samples : Option (List Sample) → Option (List BaselineChannel)
of_samples none = none
of_samples (some samples) = some (baseline_of_stats (channel_stats samples))

abbrev channels_or_samples :
    Option (List BaselineChannel) → Option (List Sample) → Option (List BaselineChannel)
channels_or_samples none samples = of_samples samples
channels_or_samples (some cs) samples = some cs

-- _baseline_channels
unfoldable pub baseline_channels : Option Baseline → Option (List BaselineChannel)
baseline_channels none = none
baseline_channels (some b) = channels_or_samples b.analysis_channels b.samples

abbrev pub check_comparable : Option Baseline → Option (List BaselineChannel) → List Issue
check_comparable none channels = []
check_comparable (some b) none = issue warn baseline_loadcells_unavailable ∷ []
check_comparable (some b) (some cs) = []

abbrev pub baseline_product : Option Baseline → Option Product
baseline_product none = none
baseline_product (some b) = b.product

unfoldable pub issues_of : Thresholds → Capture → Option Baseline → Expectations → List Issue
unfolding baseline_channels
issues_of t c baseline x =
    check_comparable baseline (baseline_channels baseline)
    ++ check_interval c.interval_seconds
    ++ check_samples t c.loadcell_samples
    ++ check_health c.health
    ++ check_product c.product_info (baseline_product baseline)
    ++ check_device_errors c.device_errors
    ++ check_channels t x.empty (baseline_channels baseline) (channel_stats c.loadcell_samples)
    ++ check_status x.expected_door x.expected_deadbolt c.status_samples
    ++ check_requests t c.requests
    ++ check_latency t c.requests

pub data Overall : Type 0 where
  overall_pass overall_warn overall_fail : Overall

-- SEVERITY_RANK, and the maximum of the ranks of the issues
abbrev pub severity_rank : Severity → ℕ
severity_rank info = 0
severity_rank warn = 1
severity_rank fail = 2

abbrev pub max_rank : List Issue → ℕ
max_rank [] = 0
max_rank (i ∷ is) =
    let rest = max_rank is in
    if leb rest (severity_rank i.severity) then severity_rank i.severity else rest

abbrev pub overall_of_rank : ℕ → Overall
overall_of_rank n = if n == 0 then overall_pass else if n == 1 then overall_warn else overall_fail

unfoldable pub overall_of : List Issue → Overall
overall_of issues = overall_of_rank (max_rank issues)

-- The verdict of `analyze`, with its issues.
unfoldable pub analyze :
    Thresholds → Capture → Option Baseline → Expectations → Overall × List Issue
unfolding issues_of overall_of
analyze t c baseline x = let issues = issues_of t c baseline x in (overall_of issues, issues)

abbrev pub exit_code : Overall → ℕ
exit_code overall_pass = 0
exit_code overall_warn = 1
exit_code overall_fail = 2

pub record Arguments : Type 0 where
  pub duration : ℚ
  pub interval : ℚ
  pub timeout : ℚ
  pub status_every : ℤ
  pub thresholds : Thresholds

abbrev zero_ℚ : ℚ
zero_ℚ = ratio 0 1

abbrev pub is_rate : ℚ → Bool
is_rate v = leb_ℚ zero_ℚ v && leb_ℚ v (ratio 1 1)

abbrev pub is_ordered : ℚ → ℚ → Bool
is_ordered w f = not (ltb_ℚ w zero_ℚ || ltb_ℚ f w)

abbrev pub all_ordered : Thresholds → Bool
all_ordered t =
    is_ordered t.noise_std_warn t.noise_std_fail
    && is_ordered t.range_warn t.range_fail
    && is_ordered t.empty_offset_warn t.empty_offset_fail
    && is_ordered t.baseline_shift_warn t.baseline_shift_fail
    && is_ordered t.baseline_noise_ratio_warn t.baseline_noise_ratio_fail
    && is_ordered t.latency_warn_ms t.latency_fail_ms

-- validate_args, which raises a ValueError or returns
unfoldable pub validate_args : Arguments → Result (Unit {0})
validate_args a =
    if leb_ℚ a.duration zero_ℚ || leb_ℚ a.interval zero_ℚ || leb_ℚ a.timeout zero_ℚ
    then raise (other value_error)
    else if ltb_ℤ a.status_every (pos 1) || ltb_ℤ a.thresholds.min_samples (pos 1)
    then raise (other value_error)
    else if not
        (is_rate a.thresholds.marker_fail_rate && is_rate a.thresholds.request_failure_rate_fail)
    then raise (other value_error)
    else if not (all_ordered a.thresholds)
    then raise (other value_error)
    else ok tt

-- What `main` does with a capture, once its files are read and written: the exit code.
abbrev pub judged : Result (Unit {0}) → Overall → ℕ
judged (raise e) overall = 2
judged (ok u) overall = exit_code overall

unfoldable pub main : Arguments → Capture → Option Baseline → Expectations → ℕ
unfolding validate_args analyze
main a c baseline x = judged (validate_args a) (analyze a.thresholds c baseline x).0
