-- ===== src/Config.antt =====
-- The validators of src/core/config.py. A field read from the environment is an integer, in the
-- units of the model that it becomes; a model is built when all of its validators pass, and pydantic
-- raises a `ValueError` when one does not.
pub mod Guarantees
mod Tests
use crk_io_board.Base.{
  ℕ, ◌+◌, Bool, true, false, ◌&&◌, ◌||◌, not, List, [], ◌∷◌, Text, codes, same_text, ltb,
  if◌then◌else◌,
}
use crk_io_board.Base.Int.{ℤ, pos, ltb_ℤ, pos_part}
use crk_io_board.Errors.{Result, ok, raise, other, value_error, ◌>>=◌, ◌>>◌}
use crk_io_board.Serial.State.{SerialModel}
use crk_io_board.Sanitizer.{SanitizeModel}

-- `if <test>: raise ValueError(…)`
abbrev pub require : Bool → Result (Unit {0})
require true = ok tt
require false = raise (other value_error)

abbrev pub require_positive : ℤ → Result (Unit {0})
require_positive value = require (ltb_ℤ (pos 0) value)

abbrev pub require_non_negative : ℤ → Result (Unit {0})
require_non_negative value = require (not (ltb_ℤ value (pos 0)))

abbrev pub require_at_least : ℕ → ℤ → Result (Unit {0})
require_at_least n value = require (not (ltb_ℤ value (pos n)))

-- The settings of the serial port, as read. The multiplier is in thousandths.
pub record SerialSettings : Type 0 where
  pub baudrate : ℤ
  pub header_timeout : ℤ
  pub body_timeout : ℤ
  pub checksum_timeout : ℤ
  pub max_retries : ℤ
  pub initial_retry_delay : ℤ
  pub retry_backoff_multiplier : ℤ
  pub inter_command_gap : ℤ

unfoldable pub validate_serial : SerialSettings → Result SerialModel
validate_serial c =
    require_positive c.baudrate
    >> require_positive c.header_timeout
    >> require_positive c.body_timeout
    >> require_positive c.checksum_timeout
    >> require_at_least 1 c.max_retries
    >> require_positive c.initial_retry_delay
    >> require_at_least 1000 c.retry_backoff_multiplier
    >> require_non_negative c.inter_command_gap
    >> ok (record {
      max_retries = pos_part c.max_retries;
      initial_retry_delay = pos_part c.initial_retry_delay;
      retry_backoff_multiplier = pos_part c.retry_backoff_multiplier;
      inter_command_gap = pos_part c.inter_command_gap;
    })

pub record ApiSettings : Type 0 where
  pub port : ℤ
  pub log_level : Text
  pub timeout_graceful_shutdown : ℤ

abbrev pub valid_levels : List Text
valid_levels =
    codes "critical"
    ∷ codes "error"
    ∷ codes "warning"
    ∷ codes "info"
    ∷ codes "debug"
    ∷ codes "trace"
    ∷ []

abbrev pub is_among : Text → List Text → Bool
is_among s [] = false
is_among s (t ∷ ts) = same_text s t || is_among s ts

unfoldable pub validate_api : ApiSettings → Result ApiSettings
validate_api c =
    require (not (not (ltb_ℤ (pos 0) c.port) || ltb_ℤ (pos 65535) c.port))
    >> require (is_among c.log_level valid_levels)
    >> require_positive c.timeout_graceful_shutdown
    >> ok c

-- PollingModel, in microseconds
pub record PollingSettings : Type 0 where
  pub loadcells_poll_interval : ℤ
  pub io_status_poll_interval : ℤ
  pub io_status_poll_interval_while_loadcells_active : ℤ
  pub loadcells_min_request_gap : ℤ

unfoldable pub validate_polling : PollingSettings → Result PollingSettings
validate_polling c =
    require_positive c.loadcells_poll_interval
    >> require_positive c.io_status_poll_interval
    >> require_positive c.io_status_poll_interval_while_loadcells_active
    >> require_non_negative c.loadcells_min_request_gap
    >> ok c

pub record SanitizeSettings : Type 0 where
  pub enabled : Bool
  pub median_filter : Bool
  pub magnitude_tolerance_grams : ℤ
  pub min_magnitude_grams : ℤ
  pub relatch_frames : ℤ
  pub staleness_seconds : ℤ
  pub quantize_grams : ℤ
  pub quantize_hysteresis_grams : ℤ

unfoldable pub validate_sanitize : SanitizeSettings → Result SanitizeModel
validate_sanitize c =
    require_non_negative c.magnitude_tolerance_grams
    >> require_non_negative c.min_magnitude_grams
    >> require_at_least 2 c.relatch_frames
    >> require_non_negative c.staleness_seconds
    >> require_non_negative c.quantize_hysteresis_grams
    >> ok (record {
      enabled = c.enabled;
      median_filter = c.median_filter;
      magnitude_tolerance = pos_part c.magnitude_tolerance_grams;
      min_magnitude = pos_part c.min_magnitude_grams;
      relatch_frames = pos_part c.relatch_frames;
      staleness = pos_part c.staleness_seconds;
      quantize_step = c.quantize_grams;
      quantize_hysteresis = pos_part c.quantize_hysteresis_grams;
    })

-- HealthModel; the range is in grams.
pub record HealthSettings : Type 0 where
  pub loadcell_min_grams : ℤ
  pub loadcell_max_grams : ℤ
  pub door_open_error_seconds : ℤ
  pub deadbolt_apply_timeout_seconds : ℤ

unfoldable pub validate_health : HealthSettings → Result HealthSettings
validate_health c =
    require_positive c.door_open_error_seconds
    >> require_positive c.deadbolt_apply_timeout_seconds
    >> ok c
