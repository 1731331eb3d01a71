-- ===== src/Application/Settings/Tests.antt =====
-- The theorem on src/core/config.py and src/main.py at the defaults.
use crk_io_board.Base.{
  ℕ, ◌≡◌, refl, true, false, some, List, [], Text, codes, replicate, arith, ◌≤◌, none, inl,
}
use crk_io_board.Base.Int.{pos, negsuc}
use crk_io_board.Errors.{ok}
use crk_io_board.Protocol.Frames.{weights, IsField, reply_frame}
use crk_io_board.Protocol.Sample.{library}
use crk_io_board.Serial.State.{opened}
use crk_io_board.Serial.Sample.{drain_error-exchange_with, unset, exchange_with}
use crk_io_board.Serial.Fetch.{Board, next_delay}
use crk_io_board.Serial.Fetch.Contract.{IsReady}
use crk_io_board.Sanitizer.{sanitize_loadcells, configure_sanitizer, sign_guard}
use crk_io_board.Sanitizer.Guard.{IsGlitch}
use crk_io_board.Commands.{Service, get_loadcells}
use crk_io_board.Commands.Delivery.{IsDelivered}
use crk_io_board.Commands.Throttle.{asked}
use crk_io_board.Application.Settings.{
  Environment, Settings, load_settings, configure, configure_lem,
}

-- The defaults, in microseconds, thousandths, and 1/100000 g.
abbrev environment : Environment
environment = record {
  serial = record {
    baudrate = pos 38400;
    header_timeout = pos 500000;
    body_timeout = pos 300000;
    checksum_timeout = pos 500000;
    max_retries = pos 3;
    initial_retry_delay = pos 100000;
    retry_backoff_multiplier = pos 2000;
    inter_command_gap = pos 100000;
  };
  api = record { port = pos 8000; log_level = codes "info"; timeout_graceful_shutdown = pos 5 };
  polling = record {
    loadcells_poll_interval = pos 750000;
    io_status_poll_interval = pos 500000;
    io_status_poll_interval_while_loadcells_active = pos 1500000;
    loadcells_min_request_gap = pos 750000;
  };
  sanitize = record {
    enabled = true;
    median_filter = false;
    magnitude_tolerance_grams = pos 200000;
    min_magnitude_grams = pos 500000;
    relatch_frames = pos 3;
    staleness_seconds = pos 2000000;
    quantize_grams = pos 500000;
    quantize_hysteresis_grams = pos 100000;
  };
  health = record {
    loadcell_min_grams = negsuc 39999;
    loadcell_max_grams = pos 40000;
    door_open_error_seconds = pos 180000000;
    deadbolt_apply_timeout_seconds = pos 5000000;
  };
}

abbrev settings : Settings
settings = record {
  serial = record {
    max_retries = 3;
    initial_retry_delay = 100000;
    retry_backoff_multiplier = 2000;
    inter_command_gap = 100000;
  };
  api = environment.api;
  polling = environment.polling;
  sanitize = record {
    enabled = true;
    median_filter = false;
    magnitude_tolerance = 200000;
    min_magnitude = 500000;
    relatch_frames = 3;
    staleness = 2000000;
    quantize_step = pos 500000;
    quantize_hysteresis = 100000;
  };
  health = environment.health;
}

settings_load : load_settings environment ≡ ok settings
unfolding load_settings
settings_load = refl

abbrev shelves : List Text
shelves = replicate 10 (codes "+00120")

abbrev board : Board
board = record { opening = opened; exchange = λ n. exchange_with (reply_frame (weights shelves)) }

cell : IsField 6 (codes "+00120")
cell = record { width = refl; ascii = refl; unpadded = refl }

shelves-IsDelivered : IsDelivered (weights shelves) board
shelves-IsDelivered = record {
  well_formed =
      (refl, (cell, (cell, (cell, (cell, (cell, (cell, (cell, (cell, (cell, (cell, tt)))))))))));
  plain = ground arith;
  undisturbed = drain_error-exchange_with _;
  arrives = refl;
}

abbrev service : Service
service = record {
  serial = unset;
  sanitizer = none;
  loadcell_min_gap = 0;
  loadcell_cache = some [];
  loadcell_cache_ts = 0;
}

turned_over : IsGlitch settings.sanitize (pos 10100000) (negsuc 9999999)
turned_over = record {
  opposite = inl (omega arith, omega arith);
  large = omega arith;
  close = omega arith;
}

configure_lem_example :
    let s' = configure settings service in
    IsReady settings.serial board s'.serial
    × ((delay : ℕ) → delay ≤ next_delay settings.serial delay)
    × (2 ≤ settings.sanitize.relatch_frames)
    × (sign_guard settings.sanitize true (negsuc 9999999) (some (pos 10100000)) 0
        ≡ (pos 10000000, 1, true))
    × ((get_loadcells library board s').1
        ≡ ok
            (sanitize_loadcells shelves
              (asked library board s').0.serial.now
              (configure_sanitizer settings.sanitize)).1)
configure_lem_example =
    configure_lem environment settings library board service shelves settings_load refl
      shelves-IsDelivered (pos 10100000) (negsuc 9999999) turned_over
