-- ===== src/Config/Tests.antt =====
-- The theorems on src/core/config.py at the defaults.
use crk_io_board.Base.{ℕ, ◌≤◌, ◌≡◌, refl, true, false}
use crk_io_board.Base.Int.{pos}
use crk_io_board.Errors.{ok}
use crk_io_board.Serial.State.{SerialModel, configure_serial}
use crk_io_board.Serial.Sample.{unset, silent_board}
use crk_io_board.Serial.Fetch.{next_delay}
use crk_io_board.Serial.Fetch.Contract.{IsReady}
use crk_io_board.Sanitizer.{SanitizeModel}
use crk_io_board.Config.{SerialSettings, validate_serial, SanitizeSettings, validate_sanitize}
use crk_io_board.Config.Guarantees.{validate_serial-IsReady, validate_sanitize-relatch}

abbrev serial_defaults : SerialSettings
serial_defaults = record {
  baudrate = pos 38400;
  header_timeout = pos 500000;
  body_timeout = pos 300000;
  checksum_timeout = pos 500000;
  max_retries = pos 3;
  initial_retry_delay = pos 100000;
  retry_backoff_multiplier = pos 2000;
  inter_command_gap = pos 100000;
}

abbrev serial_model : SerialModel
serial_model = record {
  max_retries = 3;
  initial_retry_delay = 100000;
  retry_backoff_multiplier = 2000;
  inter_command_gap = 100000;
}

serial_accepted : validate_serial serial_defaults ≡ ok serial_model
unfolding validate_serial
serial_accepted = refl

validate_serial-IsReady_test :
    IsReady serial_model silent_board (configure_serial serial_model unset)
    × ((delay : ℕ) → delay ≤ next_delay serial_model delay)
validate_serial-IsReady_test =
    validate_serial-IsReady serial_defaults serial_model silent_board unset serial_accepted refl

abbrev sanitize_defaults : SanitizeSettings
sanitize_defaults = record {
  enabled = true;
  median_filter = false;
  magnitude_tolerance_grams = pos 200000;
  min_magnitude_grams = pos 500000;
  relatch_frames = pos 3;
  staleness_seconds = pos 2000000;
  quantize_grams = pos 500000;
  quantize_hysteresis_grams = pos 100000;
}

abbrev sanitize_model : SanitizeModel
sanitize_model = record {
  enabled = true;
  median_filter = false;
  magnitude_tolerance = 200000;
  min_magnitude = 500000;
  relatch_frames = 3;
  staleness = 2000000;
  quantize_step = pos 500000;
  quantize_hysteresis = 100000;
}

sanitize_accepted : validate_sanitize sanitize_defaults ≡ ok sanitize_model
unfolding validate_sanitize
sanitize_accepted = refl

validate_sanitize-relatch_test : 2 ≤ sanitize_model.relatch_frames
validate_sanitize-relatch_test =
    validate_sanitize-relatch sanitize_defaults sanitize_model sanitize_accepted
