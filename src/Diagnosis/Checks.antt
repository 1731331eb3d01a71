-- ===== src/Diagnosis/Checks.antt =====
-- The checks of `analyze` in tools/post_move_diag.py, one function for each part of the capture.
use crk_io_board.Base.{
  ℕ, suc, Bool, true, false, ◌&&◌, ◌||◌, not, Option, none, some, List, [], ◌∷◌, ◌++◌, Text, codes,
  same_text, ◌==◌, length, get_elem?, map, if◌then◌else◌,
}
use crk_io_board.Base.Int.{pos, ltb_ℤ}
use crk_io_board.Numbers.Binary64.{binary64}
use crk_io_board.Numbers.{ℚ, ratio, ◌-ℚ◌, ◌/ℚ◌, abs_ℚ, leb_ℚ, ltb_ℚ, max_ℚ}
use crk_io_board.Diagnosis.{
  Thresholds, Severity, warn, fail, IssueCode, capture_interval_below_throttle,
  insufficient_loadcell_samples, health_unavailable, health_unhealthy, product_info_unavailable,
  product_id_changed, firmware_version_changed, error_history_unavailable,
  device_error_history_present, loadcell_error_marker, loadcell_valid_samples_low, loadcell_noisy,
  loadcell_range_unstable, empty_zero_offset, baseline_mean_shift, baseline_noise_increased,
  status_unavailable, door_state_invalid, deadbolt_state_invalid, door_expected_state_mismatch,
  deadbolt_expected_state_mismatch, door_state_changed, deadbolt_state_changed,
  api_request_failures, api_latency_high, Issue, issue, channel_issue, when, grade, graded,
  same_value, Health, Product, StatusSample, RequestRecord,
}
use crk_io_board.Diagnosis.Statistics.{Sample, ChannelStats, Spread, error_count}
use crk_io_board.Diagnosis.Percentile.{percentile}

-- What a baseline file holds of a channel.
pub record BaselineChannel : Type 0 where
  pub mean : Option ℚ
  pub stddev : Option ℚ

unfoldable pub check_interval : Option ℚ → List Issue
check_interval none = []
check_interval (some interval) =
    when (ltb_ℚ interval (ratio 3 4)) (issue warn capture_interval_below_throttle)

unfoldable pub check_samples : Thresholds → List Sample → List Issue
check_samples t samples =
    when (ltb_ℤ (pos (length samples)) t.min_samples) (issue fail insufficient_loadcell_samples)

abbrev pub is_healthy : Option Text → Bool
is_healthy value = same_value value (some (codes "HEALTHY"))

unfoldable pub check_health : Option Health → List Issue
check_health none = issue fail health_unavailable ∷ []
check_health (some h) =
    when (not (is_healthy h.loadcells)) (issue fail health_unhealthy)
    ++ when (not (is_healthy h.door)) (issue fail health_unhealthy)
    ++ when (not (is_healthy h.deadbolt)) (issue fail health_unhealthy)

unfoldable pub check_product : Option Product → Option Product → List Issue
check_product none baseline = issue fail product_info_unavailable ∷ []
check_product (some p) none = []
check_product (some p) (some b) =
    when (not (same_value p.product_id b.product_id)) (issue fail product_id_changed)
    ++ when (not (same_value p.sw_version b.sw_version)) (issue warn firmware_version_changed)

-- Whether a code is neither missing nor "0000".
abbrev pub is_active : Option Text → Bool
is_active none = false
is_active (some c) = not (same_text c (codes "0000"))

abbrev pub some_active : List (Option Text) → Bool
some_active [] = false
some_active (c ∷ cs) = is_active c || some_active cs

unfoldable pub check_device_errors : Option (List (Option Text)) → List Issue
check_device_errors none = issue warn error_history_unavailable ∷ []
check_device_errors (some errors) =
    when (some_active errors) (issue warn device_error_history_present)

unfoldable pub check_markers : Thresholds → ChannelStats → List Issue
check_markers t s = when (not (error_count s.error_counts == 0)) (
    channel_issue s.channel (if leb_ℚ t.marker_fail_rate s.error_rate then fail else warn)
      loadcell_error_marker)

unfoldable pub check_offset : Thresholds → Bool → ℕ → Spread → List Issue
check_offset t false channel n = []
check_offset t true channel n =
    graded (grade t.empty_offset_warn t.empty_offset_fail (abs_ℚ n.mean))
      (λ s. channel_issue channel s empty_zero_offset)

unfoldable pub check_shift : Thresholds → ℕ → Spread → Option ℚ → List Issue
check_shift t channel n none = []
check_shift t channel n (some base_mean) =
    graded
      (grade t.baseline_shift_warn t.baseline_shift_fail (abs_ℚ (binary64 (n.mean -ℚ base_mean))))
      (λ s. channel_issue channel s baseline_mean_shift)

abbrev pub noise_ratio : Spread → ℚ → ℚ
noise_ratio n base_std = binary64 (n.stddev /ℚ max_ℚ base_std (ratio 1 1))

abbrev pub graded_ratio : Thresholds → Spread → ℚ → Option Severity
graded_ratio t n r =
    if leb_ℚ t.baseline_noise_ratio_fail r && leb_ℚ t.noise_std_warn n.stddev
    then some fail
    else if leb_ℚ t.baseline_noise_ratio_warn r && leb_ℚ t.noise_std_warn n.stddev
    then some warn
    else none

unfoldable pub check_noise_ratio : Thresholds → ℕ → Spread → Option ℚ → List Issue
check_noise_ratio t channel n none = []
check_noise_ratio t channel n (some base_std) =
    graded (graded_ratio t n (noise_ratio n base_std))
      (λ s. channel_issue channel s baseline_noise_increased)

abbrev pub check_baseline : Thresholds → ℕ → Spread → Option BaselineChannel → List Issue
check_baseline t channel n none = []
check_baseline t channel n (some b) =
    check_shift t channel n b.mean ++ check_noise_ratio t channel n b.stddev

-- The checks of a channel whose values have statistics.
abbrev pub check_spread :
    Thresholds → Bool → ℕ → Option BaselineChannel → Option Spread → List Issue
check_spread t empty channel base none = []
check_spread t empty channel base (some n) =
    graded (grade t.noise_std_warn t.noise_std_fail n.stddev)
      (λ s. channel_issue channel s loadcell_noisy)
    ++ graded (grade t.range_warn t.range_fail n.range)
        (λ s. channel_issue channel s loadcell_range_unstable)
    ++ check_offset t empty channel n
    ++ check_baseline t channel n base

unfoldable pub check_channel :
    Thresholds → Bool → Option BaselineChannel → ChannelStats → List Issue
unfolding check_markers
check_channel t empty base s =
    check_markers t s
    ++ (if ltb_ℤ (pos s.valid_count) t.min_samples
        then channel_issue s.channel fail loadcell_valid_samples_low ∷ []
        else check_spread t empty s.channel base s.numbers)

abbrev pub at_channel : Option (List BaselineChannel) → ℕ → Option BaselineChannel
at_channel none channel = none
at_channel (some bs) channel = get_elem? bs channel

abbrev pub check_channels :
    Thresholds → Bool → Option (List BaselineChannel) → List ChannelStats → List Issue
check_channels t empty base [] = []
check_channels t empty base (s ∷ ss) =
    check_channel t empty (at_channel base s.channel) s ++ check_channels t empty base ss

-- Whether a state is one of the two.
abbrev pub is_one_of : Text → Text → Option Text → Bool
is_one_of a b v = same_value v (some a) || same_value v (some b)

abbrev pub all_of : (Option Text → Bool) → List (Option Text) → Bool
all_of p [] = true
all_of p (v ∷ vs) = p v && all_of p vs

abbrev pub count_unlike : Option Text → List (Option Text) → ℕ
count_unlike e [] = 0
count_unlike e (v ∷ vs) = let rest = count_unlike e vs in if same_value v e then rest else suc rest

-- `len(set(values)) > 1`
abbrev pub varies : List (Option Text) → Bool
varies [] = false
varies (v ∷ vs) = not (all_of (λ w. same_value w v) vs)

unfoldable pub check_expected :
    Option Text → List (Option Text) → (mismatch changed : IssueCode) → List Issue
check_expected none values mismatch changed = when (varies values) (issue warn changed)
check_expected (some e) values mismatch changed =
    let mismatches = count_unlike (some e) values in
    when (not (mismatches == 0))
      (issue (if mismatches == length values then fail else warn) mismatch)

abbrev pub doors_of : List StatusSample → List (Option Text)
doors_of samples = map (λ s. s.door) samples

abbrev pub deadbolts_of : List StatusSample → List (Option Text)
deadbolts_of samples = map (λ s. s.deadbolt) samples

abbrev pub valid_door : Option Text → Bool
valid_door v = is_one_of (codes "OPENED") (codes "CLOSED") v

abbrev pub valid_deadbolt : Option Text → Bool
valid_deadbolt v = is_one_of (codes "UNLOCK") (codes "LOCKED") v

unfoldable pub check_status : Option Text → Option Text → List StatusSample → List Issue
check_status door deadbolt [] = issue fail status_unavailable ∷ []
check_status door deadbolt (s ∷ ss) =
    when (not (all_of valid_door (doors_of (s ∷ ss)))) (issue fail door_state_invalid)
    ++ when (not (all_of valid_deadbolt (deadbolts_of (s ∷ ss))))
        (issue fail deadbolt_state_invalid)
    ++ check_expected door (doors_of (s ∷ ss)) door_expected_state_mismatch door_state_changed
    ++ check_expected deadbolt (deadbolts_of (s ∷ ss)) deadbolt_expected_state_mismatch
        deadbolt_state_changed

abbrev pub failures : List RequestRecord → ℕ
failures [] = 0
failures (r ∷ rs) = let rest = failures rs in if r.is_ok then rest else suc rest

-- `len(failures) / len(requests)`, or 1 without requests
abbrev pub failure_rate : List RequestRecord → ℚ
failure_rate [] = ratio 1 1
failure_rate (r ∷ rs) = binary64 (ratio (failures (r ∷ rs)) (length (r ∷ rs)))

unfoldable pub check_requests : Thresholds → List RequestRecord → List Issue
check_requests t requests = when (not (failures requests == 0)) (
    issue (if leb_ℚ t.request_failure_rate_fail (failure_rate requests) then fail else warn)
      api_request_failures)

abbrev with_latency : Bool → Option ℚ → List ℚ → List ℚ
with_latency true (some l) ls = l ∷ ls
with_latency _ _ ls = ls

abbrev pub latencies : List RequestRecord → List ℚ
latencies [] = []
latencies (r ∷ rs) = with_latency r.is_ok r.latency_ms (latencies rs)

abbrev pub check_p95 : Thresholds → Option ℚ → List Issue
check_p95 t none = []
check_p95 t (some p95) =
    graded (grade t.latency_warn_ms t.latency_fail_ms p95) (λ s. issue s api_latency_high)

unfoldable pub check_latency : Thresholds → List RequestRecord → List Issue
check_latency t requests = check_p95 t (percentile 95 100 (latencies requests))
