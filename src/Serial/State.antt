-- ===== src/Serial/State.antt =====
-- The module state of src/services/io_board/serial_io.py: its globals, the clock of the event loop,
-- and what has gone over the wire. Times are whole microseconds.
use crk_io_board.Base.{
  ℕ, ◌+◌, ◌-◌, Option, none, some, List, [], ◌∷◌, Bytes, Text, codes, ltb, leb, take, if◌then◌else◌,
  ◌||◌,
}
use crk_io_board.Base.Dict.{Dict, get, put}
use crk_io_board.Errors.{
  Result, ok, raise, raise_code, serial_communication_error, serial_connection_failed,
  serial_port_permission_denied, serial_port_not_found, serial_port_busy, other, OtherError,
}
use crk_io_board.Protocol.{contains, lower}
use crk_io_board.Serial.Frame.{response_codes}

-- `SerialModel` of src/core/config.py, once validated. The multiplier is in thousandths.
pub record SerialModel : Type 0 where
  pub max_retries : ℕ
  pub initial_retry_delay : ℕ
  pub retry_backoff_multiplier : ℕ
  pub inter_command_gap : ℕ

-- _WireTx
pub record WireTx : Type 0 where
  pub transaction_id : ℕ
  pub attempt : ℕ
  pub command : Text
  pub subcommand : Text
  pub timestamp : ℕ

-- The globals `reader` and `writer`: both None, both usable, or a writer that is closing.
pub data Connection : Type 0 where
  absent live closing : Connection

-- The traffic, as an observer of the wire sees it.
pub data WireEvent : Type 0 where
  sent : ℕ → Bytes → WireEvent
  received : ℕ → Bytes → WireEvent

pub record Serial : Type 0 where
  pub config : Option SerialModel
  pub last_request_tx : Dict ℕ
  pub transaction_sequence : ℕ
  pub last_wire_tx : Option WireTx
  pub last_rx_complete_time : Option ℕ
  pub connection : Connection
  pub now : ℕ
  pub wire : List WireEvent  -- newest first

-- configure_serial
unfoldable pub configure_serial : SerialModel → Serial → Serial
configure_serial config s = record s {
  config = some config;
  last_request_tx = [];
  transaction_sequence = 0;
  last_wire_tx = none;
  last_rx_complete_time = none;
}

-- get_serial_config
unfoldable pub get_serial_config : Serial → Result SerialModel
get_serial_config s = elim s.config [
  | none ↦ raise_code serial_communication_error serial_connection_failed
  | some config ↦ ok config
]

-- What `open_serial_connection` does: it opens the port, or raises a `SerialException` with a text,
-- or something else; or the port is open, and the low latency mode raises something else.
pub data Opening : Type 0 where
  opened : Opening
  refused : Text → Opening
  broken : OtherError → Opening
  half_opened : OtherError → Opening

-- The code by the text of the `SerialException`.
unfoldable pub open_error : Text → Result (Unit {0})
open_error error =
    let error_msg = lower error in
    if contains (codes "access is denied") error_msg || contains (codes "permission") error_msg
    then raise_code serial_communication_error serial_port_permission_denied
    else if contains (codes "cannot find") error_msg || contains (codes "does not exist") error_msg
    then raise_code serial_communication_error serial_port_not_found
    else if contains (codes "busy") error_msg || contains (codes "in use") error_msg
    then raise_code serial_communication_error serial_port_busy
    else raise_code serial_communication_error serial_connection_failed

unfoldable pub open_port : Opening → Serial → Serial × Result (Unit {0})
unfolding open_error
open_port opened s = (record s { connection = live }, ok tt)
open_port (refused error) s = (record s { connection = absent }, open_error error)
open_port (broken e) s = (record s { connection = absent }, raise (other e))
open_port (half_opened e) s = (record s { connection = live }, raise (other e))

unfoldable pub reconnect : Connection → Opening → Serial → Serial × Result (Unit {0})
unfolding open_port
reconnect live opening s = (s, ok tt)
reconnect closing opening s = open_port opening (record s { connection = absent })
reconnect absent opening s = open_port opening s

-- get_serial_connection
unfoldable pub get_serial_connection : Opening → Serial → Serial × Result (Unit {0})
unfolding reconnect
get_serial_connection opening s = reconnect s.connection opening s

-- Time passes.
abbrev pub elapse : ℕ → Serial → Serial
elapse d s = record s { now = s.now + d }

-- `asyncio.sleep(d)` returns after `d`, and `late` later.
abbrev pub sleep : ℕ → ℕ → Serial → Serial
sleep d late s = elapse (d + late) s

-- `min_gap - (now - previous)`, which is at most 0 once `previous + min_gap` has passed
abbrev pub remaining : ℕ → ℕ → ℕ → ℕ
remaining min_gap previous now = previous + min_gap - now

unfoldable pub gap_after : ℕ → Option ℕ → ℕ → Serial → Serial
gap_after min_gap none late s = s
gap_after min_gap (some previous) late s =
    let r = remaining min_gap previous s.now in if ltb 0 r then sleep r late s else s

-- _respect_inter_command_gap
unfoldable pub respect_inter_command_gap : ℕ → ℕ → Serial → Serial
unfolding gap_after
respect_inter_command_gap min_gap late s =
    if leb min_gap 0 then s else gap_after min_gap s.last_rx_complete_time late s

-- The bytes STX, CMD and SUBCMD name the kind of a request.
abbrev pub request_key : Bytes → Bytes
request_key message = take 5 message

-- _respect_wire_min_gap
unfoldable pub respect_wire_min_gap : Bytes → ℕ → ℕ → Serial → Serial
unfolding gap_after
respect_wire_min_gap message min_send_interval late s =
    if leb min_send_interval 0
    then s
    else gap_after min_send_interval (get (request_key message) s.last_request_tx) late s

abbrev tx_codes : Option (Text × Text) → Text × Text
tx_codes none = (codes "??", codes "??")
tx_codes (some c) = c

-- What `fetch` records right before it writes, and the write.
unfoldable pub record_tx : ℕ → ℕ → Bytes → Serial → Serial
record_tx transaction_id attempt message s =
    let (cmd, sub) = tx_codes (response_codes message) in
    record s {
      last_request_tx = put (request_key message) s.now s.last_request_tx;
      last_wire_tx = some (record {
        transaction_id = transaction_id;
        attempt = attempt;
        command = cmd;
        subcommand = sub;
        timestamp = s.now;
      });
      wire = sent s.now message ∷ s.wire;
    }

-- What it records once a whole frame has been read.
unfoldable pub record_rx : Bytes → Serial → Serial
record_rx response s = record s {
  last_rx_complete_time = some s.now;
  wire = received s.now response ∷ s.wire;
}
