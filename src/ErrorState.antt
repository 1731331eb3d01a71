-- ===== src/ErrorState.antt =====
-- `ErrorStateManagementService` of src/services/error_state_mgmt.py: what the door and the deadbolt
-- have done, for the health check. Times are microseconds of the wall clock; `time` and the clock of
-- an observation are arguments.
pub mod Verdicts
mod Tests
use crk_io_board.Base.{
  ℕ, ◌+◌, ◌-◌, Bool, true, false, ◌&&◌, not, Option, none, some, List, [], ◌∷◌, ltb, if◌then◌else◌,
}
use crk_io_board.Errors.{Result, ok, raise}
use crk_io_board.Commands.{
  DoorState, opened, closed, DeadboltState, unlocked, locked, DeadboltAction, open_bolt, close_bolt,
}

pub record ErrorState : Type 0 where
  pub door_open_error : ℕ
  pub deadbolt_apply_timeout : ℕ
  pub door_last_closed_time : Option ℕ
  pub deadbolt_engaged_time : Option ℕ
  pub deadbolt_engaged_state : Option DeadboltState

-- __init__
abbrev pub new_error_state : ℕ → ℕ → ErrorState
new_error_state door_open_error deadbolt_apply_timeout = record {
  door_open_error = door_open_error;
  deadbolt_apply_timeout = deadbolt_apply_timeout;
  door_last_closed_time = none;
  deadbolt_engaged_time = none;
  deadbolt_engaged_state = none;
}

-- `t and (time() - t) > limit`: neither None nor 0 counts as a time.
abbrev pub is_overdue : ℕ → ℕ → Option ℕ → Bool
is_overdue limit time none = false
is_overdue limit time (some t) = ltb 0 t && ltb limit (time - t)

-- door_error: true when the door is all right
unfoldable pub door_error : ℕ → ErrorState → Bool
door_error time s = not (is_overdue s.door_open_error time s.door_last_closed_time)

abbrev pub wanted_state : DeadboltAction → DeadboltState
wanted_state close_bolt = locked
wanted_state open_bolt = unlocked

unfoldable pub set_deadbolt_action : DeadboltAction → ℕ → ErrorState → ErrorState
set_deadbolt_action action time s = record s {
  deadbolt_engaged_state = some (wanted_state action);
  deadbolt_engaged_time = some time;
}

abbrev pub is_late : ℕ → ℕ → Option ℕ → Option DeadboltState → Bool
is_late limit time engaged none = false
is_late limit time engaged (some state) = is_overdue limit time engaged

-- deadbolt_error: true when the deadbolt is all right
unfoldable pub deadbolt_error : ℕ → ErrorState → Bool
deadbolt_error time s =
    not (is_late s.deadbolt_apply_timeout time s.deadbolt_engaged_time s.deadbolt_engaged_state)

abbrev pub is_closed : DoorState → Bool
is_closed closed = true
is_closed opened = false

abbrev pub same_state : DeadboltState → DeadboltState → Bool
same_state locked locked = true
same_state unlocked unlocked = true
same_state _ _ = false

abbrev pub is_reached : Option DeadboltState → DeadboltState → Bool
is_reached none bolt = false
is_reached (some state) bolt = same_state bolt state

-- A pass of `_loop` with an observation, and with whatever the queue gives.
unfoldable pub observe : DoorState → DeadboltState → ℕ → ErrorState → ErrorState
observe door bolt timestamp s =
    let reached = is_reached s.deadbolt_engaged_state bolt in
    record s {
      door_last_closed_time = if is_closed door then some timestamp else s.door_last_closed_time;
      deadbolt_engaged_state = if reached then none else s.deadbolt_engaged_state;
      deadbolt_engaged_time = if reached then none else s.deadbolt_engaged_time;
    }

abbrev pub observe_next : Result ((DoorState × DeadboltState) × ℕ) → ErrorState → ErrorState
unfolding observe
observe_next (ok ((door, bolt), timestamp)) s = observe door bolt timestamp s
observe_next (raise e) s = s
