-- ===== src/Diagnosis/Tests.antt =====
-- The theorems on tools/post_move_diag.py at concrete captures.
use crk_io_board.Base.{
  ◌↔◌, ◌≡◌, refl, none, some, [], ◌∷◌, Text, codes, replicate, true, List, length, arith, ◌*◌, ◌≤◌,
  ◌<◌,
}
use crk_io_board.Base.Int.{pos, ◌+ℤ◌}
use crk_io_board.Errors.{ok}
use crk_io_board.Readings.{float}
use crk_io_board.Numbers.{ℚ, ratio, ltb_ℚ, ◌-ℚ◌}
use crk_io_board.Numbers.Binary64.{binary64, reading}
use crk_io_board.Diagnosis.{Thresholds, grade}
use crk_io_board.Diagnosis.Statistics.{
  text_cell, channel_stats, stats_of, gather, channel_entry, parse_loadcell, fits_pattern, spread,
}
use crk_io_board.Diagnosis.Statistics.Roots.{nearest_root, root}
use crk_io_board.Diagnosis.Percentile.{percentile}
use crk_io_board.Diagnosis.Percentile.Share.{count_up_to, count_below, percentile_share}
use crk_io_board.Diagnosis.Checks.{
  check_interval, check_samples, check_health, check_product, check_device_errors, check_markers,
  check_offset, check_shift, check_noise_ratio, check_channel, check_status, check_expected,
  check_requests, check_latency,
}
use crk_io_board.Diagnosis.Analysis.{
  Arguments, Capture, Expectations, main, validate_args, analyze, issues_of, overall_of,
  baseline_channels,
}
use crk_io_board.Diagnosis.Verdict.{IsClear, main-IsClear}
use crk_io_board.Diagnosis.Silent.{main_iff}

abbrev thresholds : Thresholds
thresholds = record {
  min_samples = pos 2;
  marker_fail_rate = binary64 (ratio 5 100);
  noise_std_warn = ratio 5 1;
  noise_std_fail = ratio 15 1;
  range_warn = ratio 20 1;
  range_fail = ratio 50 1;
  empty_offset_warn = ratio 50 1;
  empty_offset_fail = ratio 200 1;
  baseline_shift_warn = ratio 20 1;
  baseline_shift_fail = ratio 100 1;
  baseline_noise_ratio_warn = ratio 3 1;
  baseline_noise_ratio_fail = ratio 5 1;
  latency_warn_ms = ratio 1000 1;
  latency_fail_ms = ratio 2500 1;
  request_failure_rate_fail = binary64 (ratio 1 10);
}

abbrev arguments : Arguments
arguments = record {
  duration = ratio 30 1;
  interval = binary64 (ratio 85 100);
  timeout = ratio 3 1;
  status_every = pos 5;
  thresholds = thresholds;
}

abbrev healthy : Text
healthy = codes "HEALTHY"

abbrev capture : Capture
capture = record {
  loadcell_samples =
      some (replicate 10 (text_cell (codes "+00010")))
      ∷ some (replicate 10 (text_cell (codes "+012.5")))
      ∷ [];
  interval_seconds = some (binary64 (ratio 85 100));
  health = some (record { loadcells = some healthy; door = some healthy; deadbolt = some healthy });
  product_info =
      some (record { product_id = some (codes "ABC12345678"); sw_version = some (codes "12") });
  device_errors = some (some (codes "0000") ∷ []);
  status_samples = record { door = some (codes "CLOSED"); deadbolt = some (codes "LOCKED") } ∷ [];
  requests = record { is_ok = true; latency_ms = some (ratio 42 1) } ∷ [];
}

abbrev empty_shelves : Expectations
empty_shelves = record {
  empty = true;
  expected_door = some (codes "CLOSED");
  expected_deadbolt = none;
}

exits_well : main arguments capture none empty_shelves ≡ 0
unfolding main validate_args analyze issues_of overall_of baseline_channels check_interval
    check_samples check_health check_product check_device_errors check_markers check_offset
    check_shift check_noise_ratio check_channel check_status check_expected check_requests
    check_latency channel_stats stats_of gather channel_entry parse_loadcell fits_pattern spread
    percentile nearest_root root grade float binary64 ◌+ℤ◌
exits_well = refl

main-IsClear_test :
    (validate_args arguments ≡ ok tt) × IsClear thresholds capture none empty_shelves
main-IsClear_test = main-IsClear arguments capture none empty_shelves exits_well

main_iff_example :
    (main arguments capture none empty_shelves ≡ 0)
    ↔ ((validate_args arguments ≡ ok tt) × IsClear thresholds capture none empty_shelves)
main_iff_example = main_iff arguments capture none empty_shelves

abbrev times : List ℚ
times = ratio 40 1 ∷ ratio 1200 1 ∷ ratio 55 2 ∷ []

percentile_share_example :
    (p : ℚ) × (percentile 95 100 times ≡ some p)
    × (95 * length times ≤ 100 * count_up_to p times)
    × (100 * count_below p times < 95 * length times)
percentile_share_example =
    percentile_share 95 100 (ratio 40 1) (ratio 1200 1 ∷ ratio 55 2 ∷ []) (omega arith)
      (omega arith) (omega arith) (omega arith, (omega arith, (omega arith, tt)))

-- 123.4 and 100.3 are further apart, as floats, than 23.1.
range_test :
    ltb_ℚ (binary64 (ratio 231 10)) (binary64 (reading (pos 12340000) -ℚ reading (pos 10030000)))
    ≡ true
unfolding binary64
range_test = refl
