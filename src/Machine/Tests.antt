-- ===== src/Machine/Tests.antt =====
-- The theorems on src/api/v1/routers/machine.py at concrete frames and requests.
use crk_io_board.Base.{◌≡◌, ◌↔◌, refl, true, false, [], ◌∷◌, codes, arith, none, replicate}
use crk_io_board.Protocol.Frames.{Reply, weights, io_status, reply_frame}
use crk_io_board.Serial.State.{opened as port_opened}
use crk_io_board.Serial.Fetch.{Board}
use crk_io_board.Machine.Verdict.{IsHealthyFrame, IsHealthyStatus, get_health_iff}
use crk_io_board.Base.Int.{pos, negsuc}
use crk_io_board.Readings.{is_error_value}
use crk_io_board.Protocol.Sample.{library}
use crk_io_board.Serial.Sample.{ready_state, silent_board, exchange_with}
use crk_io_board.Commands.{Service, open_bolt, unlocked, set_deadbolt, get_loadcells, get_status}
use crk_io_board.ErrorState.{ErrorState, new_error_state, door_error, deadbolt_error}
use crk_io_board.Config.{HealthSettings}
use crk_io_board.Machine.{all_plausible, matched, healthy, get_health, handle_deadbolt}
use crk_io_board.Machine.Waiting.{IsConfirmed, deadline_of, handle_deadbolt_ends}
use crk_io_board.Machine.Loadcells.{IsPlausible, all_plausible_lem, all_plausible-error}

abbrev limits : HealthSettings
limits = record {
  loadcell_min_grams = negsuc 39999;
  loadcell_max_grams = pos 40000;
  door_open_error_seconds = pos 180000000;
  deadbolt_apply_timeout_seconds = pos 5000000;
}

light : IsPlausible limits (codes "-00120")
light = record {
  minus = true;
  grams = 120;
  fits = omega arith;
  shape = refl;
  above = omega arith;
  below = omega arith;
}

all_plausible_lem_test : all_plausible limits (codes "-00120" ∷ []) ≡ true
all_plausible_lem_test = all_plausible_lem limits (codes "-00120" ∷ []) (light, tt)

marker : is_error_value (codes "VVVVVV") ≡ true
unfolding is_error_value
marker = refl

all_plausible-error_test : all_plausible limits (codes "-00120" ∷ codes "VVVVVV" ∷ []) ≡ false
all_plausible-error_test =
    all_plausible-error limits (codes "-00120" ∷ codes "VVVVVV" ∷ []) 1 (codes "VVVVVV") refl marker

-- A reading with a decimal, which the sanitizer may let through, does not match.
decimal_unmatched : matched (codes "+120.0") ≡ none
unfolding matched
decimal_unmatched = refl

abbrev service : Service
service = record {
  serial = ready_state;
  sanitizer = none;
  loadcell_min_gap = 0;
  loadcell_cache = none;
  loadcell_cache_ts = 0;
}

abbrev fresh : ErrorState
fresh = new_error_state 180000000 5000000

handle_deadbolt_ends_example :
    let (es', s', o) =
      handle_deadbolt library 51 open_bolt 7 0 silent_board
        (λ n. (silent_board, 0))
        fresh
        service in
    IsConfirmed unlocked
      (deadline_of 0 5000000 (set_deadbolt library open_bolt silent_board service))
      (s', o)
handle_deadbolt_ends_example =
    handle_deadbolt_ends library 50 open_bolt 7 0 silent_board (λ n. (silent_board, 0)) fresh
      service (omega arith)

-- A board that always answers with the reply.
abbrev answering : Reply → Board
answering r = record { opening = port_opened; exchange = λ n. exchange_with (reply_frame r) }

abbrev shelves : Board
shelves = answering (weights (replicate 10 (codes "+00250")))

abbrev locked_open : Board
locked_open = answering (io_status (codes "OPENED") (codes "LOCKED"))

get_health_iff_example :
    let (s', health) = get_health library limits fresh 9 9 shelves locked_open service in
    let (s₁, frame) = get_loadcells library shelves service in
    let (s₂, status) = get_status library locked_open s₁ in
    (s' ≡ s₂)
    × ((health.door ≡ healthy) ↔ (door_error 9 fresh ≡ true))
    × ((health.loadcells ≡ healthy) ↔ IsHealthyFrame limits frame)
    × ((health.deadbolt ≡ healthy) ↔ ((deadbolt_error 9 fresh ≡ true) × IsHealthyStatus status))
get_health_iff_example = get_health_iff library limits fresh 9 9 shelves locked_open service
