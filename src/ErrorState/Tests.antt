-- ===== src/ErrorState/Tests.antt =====
-- The theorems on src/services/error_state_mgmt.py on a few observations.
use crk_io_board.Base.{◌≡◌, refl, false, true, [], ◌∷◌}
use crk_io_board.Commands.{opened, closed, locked, unlocked, close_bolt}
use crk_io_board.ErrorState.{
  ErrorState, new_error_state, door_error, deadbolt_error, set_deadbolt_action,
}
use crk_io_board.ErrorState.Verdicts.{
  Observation, observe_all, door_error-history, deadbolt_error-history,
}

abbrev fresh : ErrorState
fresh = new_error_state 180000000 5000000

abbrev unlocked_at : Observation
unlocked_at = record { door = opened; bolt = unlocked; timestamp = 20 }

deadbolt_error-history_test :
    deadbolt_error 6000000
      (observe_all (unlocked_at ∷ []) (set_deadbolt_action close_bolt 10 fresh))
    ≡ false
deadbolt_error-history_test = deadbolt_error-history close_bolt 10 6000000 (unlocked_at ∷ []) fresh

door_error-history_test :
    door_error 170000000 (
      observe_all
        (unlocked_at ∷ record { door = closed; bolt = locked; timestamp = 30 } ∷ unlocked_at ∷ [])
        fresh)
    ≡ true
door_error-history_test =
    door_error-history (unlocked_at ∷ []) (unlocked_at ∷ []) locked 30 170000000 fresh (refl, tt)
