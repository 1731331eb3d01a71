-- ===== src/Diagnosis.antt =====
-- tools/post_move_diag.py: the diagnosis of an IO board from what the API answered over a while.
-- Texts that are shown only are left out: an issue keeps its severity, code and channel. What JSON
-- may hold in place of an expected value is none, and numbers are floats (Numbers).
pub mod Statistics
pub mod Percentile
pub mod Checks
pub mod Analysis
pub mod Clear
pub mod Verdict
pub mod Silent
mod Tests
use crk_io_board.Base.{
  ℕ, Bool, true, false, ◌&&◌, ◌||◌, not, Option, none, some, List, [], ◌∷◌, ◌++◌, Text, same_text,
  if◌then◌else◌,
}
use crk_io_board.Base.Int.{ℤ}
use crk_io_board.Numbers.{ℚ, leb_ℚ}

-- The defaults of Thresholds are those of the command line.
pub record Thresholds : Type 0 where
  pub min_samples : ℤ
  pub marker_fail_rate : ℚ
  pub noise_std_warn : ℚ
  pub noise_std_fail : ℚ
  pub range_warn : ℚ
  pub range_fail : ℚ
  pub empty_offset_warn : ℚ
  pub empty_offset_fail : ℚ
  pub baseline_shift_warn : ℚ
  pub baseline_shift_fail : ℚ
  pub baseline_noise_ratio_warn : ℚ
  pub baseline_noise_ratio_fail : ℚ
  pub latency_warn_ms : ℚ
  pub latency_fail_ms : ℚ
  pub request_failure_rate_fail : ℚ

pub data Severity : Type 0 where
  info warn fail : Severity

pub data IssueCode : Type 0 where
  baseline_loadcells_unavailable capture_interval_below_throttle : IssueCode
  insufficient_loadcell_samples health_unavailable health_unhealthy : IssueCode
  product_info_unavailable product_id_changed firmware_version_changed : IssueCode
  error_history_unavailable device_error_history_present loadcell_error_marker : IssueCode
  loadcell_valid_samples_low loadcell_noisy loadcell_range_unstable : IssueCode
  empty_zero_offset baseline_mean_shift baseline_noise_increased : IssueCode
  status_unavailable door_state_invalid deadbolt_state_invalid : IssueCode
  door_expected_state_mismatch deadbolt_expected_state_mismatch : IssueCode
  door_state_changed deadbolt_state_changed api_request_failures api_latency_high : IssueCode

pub record Issue : Type 0 where
  pub severity : Severity
  pub code : IssueCode
  pub channel : Option ℕ

abbrev pub issue : Severity → IssueCode → Issue
issue s c = record { severity = s; code = c; channel = none }

abbrev pub channel_issue : ℕ → Severity → IssueCode → Issue
channel_issue channel s c = record { severity = s; code = c; channel = some channel }

-- An issue when the test holds.
abbrev pub when : Bool → Issue → List Issue
when true i = i ∷ []
when false i = []

-- `fail` from the one limit on, `warn` from the other, none below.
unfoldable pub grade : (warn_from fail_from value : ℚ) → Option Severity
grade warn_from fail_from value =
    if leb_ℚ fail_from value then some fail else if leb_ℚ warn_from value then some warn else none

abbrev pub graded : Option Severity → (Severity → Issue) → List Issue
graded none i = []
graded (some s) i = i s ∷ []

-- `a == b` of what JSON holds
abbrev pub same_value : Option Text → Option Text → Bool
same_value none none = true
same_value none (some b) = false
same_value (some a) none = false
same_value (some a) (some b) = same_text a b

pub record Health : Type 0 where
  pub loadcells : Option Text
  pub door : Option Text
  pub deadbolt : Option Text

pub record Product : Type 0 where
  pub product_id : Option Text
  pub sw_version : Option Text

pub record StatusSample : Type 0 where
  pub door : Option Text
  pub deadbolt : Option Text

pub record RequestRecord : Type 0 where
  pub is_ok : Bool
  pub latency_ms : Option ℚ
