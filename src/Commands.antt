-- ===== src/Commands.antt =====
-- src/services/io_board/commands.py over the serial line, the protocol and the sanitizer. The state
-- of the module and of the modules it calls is one record; the clock is the one of the serial state.
-- The names of the commands are those of src/services/io_board/io_types.py.
pub mod Delivery
pub mod Replies
pub mod Throttle
mod Tests
use crk_io_board.Base.{
  ℕ, ◌+◌, ◌-◌, ◌≡◌, Bool, true, false, ◌&&◌, Option, none, some, List, [], ◌∷◌, Bytes, Text, codes,
  ltb, same_text, not, if◌then◌else◌,
}
use crk_io_board.Errors.{
  ErrorClass, Raised, io_board, Result, ok, raise, raise_code, raise_default, other, value_error,
  other_error, ◌>>=◌, validation_error, protocol_error, device_error, protocol_invalid_response,
  device_command_failed,
}
use crk_io_board.Protocol.{build_request, parse_response}
use crk_io_board.Protocol.Format.{
  Name, command, subcommand, deadbolt, product_id, sw_version, loadcells, door, errors, Value, text,
  texts, number, Fields, Ctx, lookup,
}
use crk_io_board.Protocol.Library.{Construct}
use crk_io_board.Protocol.Schema.{text_of}
use crk_io_board.Serial.State.{Serial}
use crk_io_board.Serial.Fetch.{Board, fetch}
use crk_io_board.Sanitizer.{Sanitizer, sanitize_loadcells, reset_sanitizer}

pub data CommandType : Type 0 where
  management_control request : CommandType

pub data ManagementSubcommand : Type 0 where
  initialize_board deadbolt_control calibrate_loadcells write_product_id : ManagementSubcommand
  clear_error_log reboot_board : ManagementSubcommand

pub data RequestSubcommand : Type 0 where
  manufacturing_info loadcell_weights io_status error_list : RequestSubcommand

pub data Subcommand : Type 0 where
  management : ManagementSubcommand → Subcommand
  query : RequestSubcommand → Subcommand

abbrev pub command_value : CommandType → Text
command_value management_control = codes "MC"
command_value request = codes "RQ"

abbrev pub subcommand_value : Subcommand → Text
subcommand_value (management initialize_board) = codes "PD"
subcommand_value (management deadbolt_control) = codes "DC"
subcommand_value (management calibrate_loadcells) = codes "LZ"
subcommand_value (management write_product_id) = codes "WP"
subcommand_value (management clear_error_log) = codes "EZ"
subcommand_value (management reboot_board) = codes "RT"
subcommand_value (query manufacturing_info) = codes "MI"
subcommand_value (query loadcell_weights) = codes "IW"
subcommand_value (query io_status) = codes "ID"
subcommand_value (query error_list) = codes "ER"

pub data DoorState : Type 0 where
  opened closed : DoorState

pub data DeadboltState : Type 0 where
  unlocked locked : DeadboltState

pub data DeadboltAction : Type 0 where
  open_bolt close_bolt : DeadboltAction

-- The `str` values of the members.
abbrev pub door_value : DoorState → Text
door_value opened = codes "OPENED"
door_value closed = codes "CLOSED"

abbrev pub deadbolt_value : DeadboltState → Text
deadbolt_value unlocked = codes "UNLOCK"
deadbolt_value locked = codes "LOCKED"

abbrev pub action_value : DeadboltAction → Text
action_value open_bolt = codes "OPEN"
action_value close_bolt = codes "CLOSE"

-- `DoorState(s)` and `DeadboltState(s)`
abbrev pub door_state : Text → Result DoorState
door_state s =
    if same_text s (codes "OPENED")
    then ok opened
    else if same_text s (codes "CLOSED")
    then ok closed
    else raise (other value_error)

abbrev pub deadbolt_state : Text → Result DeadboltState
deadbolt_state s =
    if same_text s (codes "UNLOCK")
    then ok unlocked
    else if same_text s (codes "LOCKED")
    then ok locked
    else raise (other value_error)

-- The state of the service below the HTTP layer.
pub record Service : Type 0 where
  pub serial : Serial
  pub sanitizer : Option Sanitizer
  pub loadcell_min_gap : ℕ
  pub loadcell_cache : Option (List Text)
  pub loadcell_cache_ts : ℕ

abbrev is_matching : CommandType → Subcommand → Bool
is_matching management_control (management s) = true
is_matching request (query s) = true
is_matching _ _ = false

abbrev pub send_interval : Subcommand → Service → ℕ
send_interval (query loadcell_weights) s = s.loadcell_min_gap
send_interval _ s = 0

-- The check of the parsed header against the request.
abbrev pub check_header : Text → Text → Ctx → Result Ctx
check_header cmd sub response =
    if same_text (text_of (lookup command response.fields)) cmd
      && same_text (text_of (lookup subcommand response.fields)) sub
    then ok response
    else raise_code protocol_error protocol_invalid_response

-- _session: a `DeviceError` becomes one that names the command.
abbrev pub named_failure : Raised → Raised
named_failure (io_board e) = io_board (elim e.class [
  | device_error ↦ record { class = device_error; error_code = device_command_failed }
  | _ ↦ e
])
named_failure (other e) = other e

abbrev pub session {ℓ} : {A : Type ℓ} → Result A → Result A
session (ok a) = ok a
session (raise e) = raise (named_failure e)

abbrev pub done_with : Ctx → Result (Unit {0})
done_with c = ok tt

-- `response.DATA.NAME`
abbrev pub data_value : Name → Ctx → Result Value
data_value n c = elim (lookup n c.payload) [ none ↦ raise (other other_error) | some v ↦ ok v ]

abbrev pub data_text : Name → Ctx → Result Text
data_text n c = data_value n c >>= λ v. ok (text_of (some v))

abbrev pub texts_in : Value → Result (List Text)
texts_in (texts ss) = ok ss
texts_in _ = raise (other other_error)

-- What the commands read off the response.
abbrev pub deadbolt_of : Ctx → Result DeadboltState
deadbolt_of c = data_text deadbolt c >>= deadbolt_state

abbrev pub product_info_of : Ctx → Result (Text × Text)
product_info_of c = data_text product_id c >>= λ p. data_text sw_version c >>= λ v. ok (p, v)

abbrev pub status_of : Ctx → Result (DoorState × DeadboltState)
status_of c = data_text door c >>= door_state >>= λ d.
    data_text deadbolt c >>= deadbolt_state >>= λ b. ok (d, b)

abbrev pub errors_of : Ctx → Result (List Text)
errors_of c = data_value errors c >>= texts_in

abbrev pub loadcells_of : Ctx → Result (List Text)
loadcells_of c = data_value loadcells c >>= texts_in

-- The value that a handler returns, inside its `_session`.
abbrev pub answer_with {ℓ} :
    {A : Type ℓ} → (Ctx → Result A) → Service × Result Ctx → Service × Result A
answer_with f (s, r) = (s, session (r >>= f))

-- reset_loadcell_processing
unfoldable pub reset_loadcell_processing : Service → Service
reset_loadcell_processing s = record s {
  loadcell_cache = none;
  loadcell_cache_ts = 0;
  sanitizer = reset_sanitizer s.sanitizer;
}

abbrev pub after_calibration : Service × Result Ctx → Service × Result (Unit {0})
unfolding reset_loadcell_processing
after_calibration (s, ok c) = (reset_loadcell_processing s, ok tt)
after_calibration (s, raise e) = (s, session (raise e))

-- configure_loadcell_throttle
unfoldable pub configure_loadcell_throttle : ℕ → Service → Service
configure_loadcell_throttle min_gap s = record s {
  loadcell_min_gap = min_gap;
  loadcell_cache = none;
  loadcell_cache_ts = 0;
}

-- The frame goes through the sanitizer and into the cache.
abbrev pub store_frame : List Text → Service → Service × Result (List Text)
store_frame device_values s =
    let (sanitizer, result) = sanitize_loadcells device_values s.serial.now s.sanitizer in
    (
      record s {
        sanitizer = sanitizer;
        loadcell_cache = some result;
        loadcell_cache_ts = s.serial.now;
      },
      ok result,
    )

abbrev pub stored_from : Result (List Text) → Service → Service × Result (List Text)
stored_from (ok device_values) s = store_frame device_values s
stored_from (raise e) s = (s, session (raise e))

abbrev pub stored : Service × Result Ctx → Service × Result (List Text)
stored (s, raise e) = (s, session (raise e))
stored (s, ok c) = stored_from (loadcells_of c) s

-- The cached frame, while it is younger than the gap.
abbrev pub cached_frame : Service → Option (List Text)
cached_frame s =
    if ltb 0 s.loadcell_min_gap && ltb (s.serial.now - s.loadcell_cache_ts) s.loadcell_min_gap
    then s.loadcell_cache
    else none

module _ (L : Construct) where
  abbrev pub received : Text → Text → Serial × Result Bytes → Service → Service × Result Ctx
  received cmd sub (serial, r) s = (
    record s { serial = serial },
    r >>= λ response_message. parse_response L response_message >>= check_header cmd sub,
  )

  abbrev pub exchanged : Text → Text → ℕ → Board → Result Bytes → Service → Service × Result Ctx
  exchanged cmd sub m board (raise e) s = (s, raise e)
  exchanged cmd sub m board (ok request_message) s =
      received cmd sub (fetch request_message (some cmd) (some sub) m board s.serial) s

  -- _send_command
  unfoldable pub send_command :
      CommandType → Subcommand → Fields → Board → Service → Service × Result Ctx
  send_command c sc payload board s =
      if is_matching c sc
      then (exchanged (command_value c) (subcommand_value sc) (send_interval sc s) board
          (build_request L (command_value c) (subcommand_value sc) payload) s)
      else (s, raise_default validation_error)

  unfoldable pub initialize : Board → Service → Service × Result (Unit {0})
  unfolding send_command
  initialize board s =
      answer_with done_with
        (send_command management_control (management initialize_board) [] board s)

  unfoldable pub set_deadbolt : DeadboltAction → Board → Service → Service × Result DeadboltState
  unfolding send_command
  set_deadbolt action board s = answer_with deadbolt_of (
      send_command management_control (management deadbolt_control)
        ((deadbolt, text (action_value action)) ∷ []) board s)

  unfoldable pub calibrate : Board → Service → Service × Result (Unit {0})
  unfolding send_command
  calibrate board s =
      after_calibration
        (send_command management_control (management calibrate_loadcells) [] board s)

  unfoldable pub set_manufacturing_number : Text → Board → Service → Service × Result Text
  unfolding send_command
  set_manufacturing_number manufacturing_number board s = answer_with (data_text product_id) (
      send_command management_control (management write_product_id)
        ((product_id, text manufacturing_number) ∷ []) board s)

  unfoldable pub clear_errors : Board → Service → Service × Result (Unit {0})
  unfolding send_command
  clear_errors board s =
      answer_with done_with
        (send_command management_control (management clear_error_log) [] board s)

  unfoldable pub reboot : Board → Service → Service × Result (Unit {0})
  unfolding send_command
  reboot board s =
      answer_with done_with (send_command management_control (management reboot_board) [] board s)

  unfoldable pub get_product_info : Board → Service → Service × Result (Text × Text)
  unfolding send_command
  get_product_info board s =
      answer_with product_info_of (send_command request (query manufacturing_info) [] board s)

  unfoldable pub get_status : Board → Service → Service × Result (DoorState × DeadboltState)
  unfolding send_command
  get_status board s = answer_with status_of (send_command request (query io_status) [] board s)

  unfoldable pub get_errors : Board → Service → Service × Result (List Text)
  unfolding send_command
  get_errors board s = answer_with errors_of (send_command request (query error_list) [] board s)

  abbrev pub loaded : Option (List Text) → Board → Service → Service × Result (List Text)
  loaded (some frame) board s = (s, ok frame)
  loaded none board s = stored (send_command request (query loadcell_weights) [] board s)

  unfoldable pub get_loadcells : Board → Service → Service × Result (List Text)
  unfolding send_command
  get_loadcells board s = loaded (cached_frame s) board s
