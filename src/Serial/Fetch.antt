-- ===== src/Serial/Fetch.antt =====
-- `fetch` of src/services/io_board/serial_io.py: one transaction, with its retries. What it only
-- logs (the drained bytes, the gaps, the diagnostics) is left out.
pub mod Steps
pub mod Outcomes
pub mod Spacing
pub mod QuietTime
pub mod History
pub mod Clock
pub mod Contract
pub mod Safety
use crk_io_board.Base.{
  ℕ, zero, suc, ◌+◌, ◌*◌, ◌/◌, Bool, true, false, Option, none, some, Bytes, Text, ltb,
  if◌then◌else◌,
}
use crk_io_board.Errors.{
  Result, ok, raise, raise_code, other, OtherError, protocol_error, protocol_checksum_mismatch,
  protocol_invalid_response, serial_communication_error, serial_timeout, serial_incomplete_read,
}
use crk_io_board.Serial.Frame.{response_codes, response_checksum_valid, same_codes}
use crk_io_board.Serial.State.{
  SerialModel, Serial, Opening, closing, get_serial_config, get_serial_connection, elapse, sleep,
  respect_inter_command_gap, respect_wire_min_gap, record_tx, record_rx,
}
use crk_io_board.Serial.Exchange.{
  timed_out, disconnected, broken, Exchange, Received, whole, stalled, drain_error, received_in,
}

-- The two optional arguments; both must be given for the codes to be checked.
abbrev pub expected_codes : Option Text → Option Text → Option (Text × Text)
expected_codes (some cmd) (some sub) = some (cmd, sub)
expected_codes _ _ = none

abbrev pub is_expected : Option (Text × Text) → Option (Text × Text) → Bool
is_expected none codes = true
is_expected (some expected) none = false
is_expected (some expected) (some codes) = same_codes codes expected

-- What an attempt comes to, for the loop.
pub data Verdict : Type 0 where
  accepted : Bytes → Verdict
  corrupted mismatched timeout incomplete : Verdict
  failed : OtherError → Verdict

unfoldable pub judge : Option (Text × Text) → Received → Verdict
judge expected (whole response rest) =
    if response_checksum_valid response
    then (if is_expected expected (response_codes response) then accepted response else mismatched)
    else corrupted
judge expected (stalled timed_out) = timeout
judge expected (stalled disconnected) = incomplete
judge expected (stalled (broken e)) = failed e

-- The waits before an attempt, and the time that the drain takes.
unfoldable pub waited : SerialModel → Bytes → ℕ → Exchange → Serial → Serial
waited config message min_send_interval e s =
    let s₁ = respect_inter_command_gap config.inter_command_gap e.late_gap s in
    let s₂ = respect_wire_min_gap message min_send_interval e.late_interval s₁ in
    elapse e.drain_time s₂

-- The waits, and behind a drain that ends the record of the transmission.
unfoldable pub before_tx : SerialModel → Bytes → ℕ → ℕ → ℕ → Exchange → Serial → Serial
unfolding waited
before_tx config message min_send_interval transaction_id attempt e s =
    record_tx transaction_id attempt message (waited config message min_send_interval e s)

abbrev after_rx : Received → Serial → Serial
after_rx (whole response rest) s = record_rx response s
after_rx (stalled e) s = s

-- What the drain leaves: an exception ends the attempt before its transmission is recorded.
abbrev pub after_drain :
    Option OtherError → SerialModel → Bytes → ℕ → ℕ → ℕ → Exchange → Serial → Serial
after_drain none config message min_send_interval transaction_id attempt e s =
    elapse e.exchange_time (before_tx config message min_send_interval transaction_id attempt e s)
after_drain (some x) config message min_send_interval transaction_id attempt e s =
    waited config message min_send_interval e s

-- An attempt: the waits, the drain, the transmission, and the reads.
unfoldable pub try_once : SerialModel → Bytes → ℕ → ℕ → ℕ → Exchange → Serial → Serial × Received
unfolding before_tx
try_once config message min_send_interval transaction_id attempt e s =
    let s₁ =
      after_drain (drain_error e) config message min_send_interval transaction_id attempt e s in
    let r = received_in e in (after_rx r s₁, r)

-- `retry_delay *= config.retry_backoff_multiplier`
unfoldable pub next_delay : SerialModel → ℕ → ℕ
next_delay config retry_delay = retry_delay * config.retry_backoff_multiplier / 1000

-- `last_exception`, by its class: whether it is a `TimeoutError`
abbrev pub exhausted : Option Verdict → Result Bytes
exhausted (some timeout) = raise_code serial_communication_error serial_timeout
exhausted _ = raise_code serial_communication_error serial_incomplete_read

-- The code after the checks of a verdict: return, raise, or go on with another attempt.
pub data Next : Type 0 where
  stop : Result Bytes → Next
  again : Option Verdict → Next

unfoldable pub decide : SerialModel → ℕ → Verdict → Option Verdict → Next
decide config attempt (accepted response) last_exception = stop (ok response)
decide config attempt corrupted last_exception =
    if ltb attempt config.max_retries
    then again last_exception
    else stop (raise_code protocol_error protocol_checksum_mismatch)
decide config attempt mismatched last_exception =
    if ltb attempt config.max_retries
    then again last_exception
    else stop (raise_code protocol_error protocol_invalid_response)
decide config attempt timeout last_exception = again (some timeout)
decide config attempt incomplete last_exception = again (some incomplete)
decide config attempt (failed e) last_exception = stop (raise (other e))

-- One transaction under the mutex.
pub record Transaction : Type 0 where
  pub config : SerialModel
  pub message : Bytes
  pub expected : Option (Text × Text)
  pub min_send_interval : ℕ
  pub transaction_id : ℕ
  pub exchange : ℕ → Exchange  -- by the number of the attempt

-- for attempt in range(attempt, attempt + left)
unfoldable pub attempts : Transaction → ℕ → ℕ → ℕ → Option Verdict → Serial → Serial × Result Bytes
unfolding try_once next_delay judge decide
attempts t zero attempt retry_delay last_exception s = (s, exhausted last_exception)
attempts t (suc left) attempt retry_delay last_exception s =
    let e = t.exchange attempt in
    let (s', r) = try_once t.config t.message t.min_send_interval t.transaction_id attempt e s in
    elim (decide t.config attempt (judge t.expected r) last_exception) [
      | stop result ↦ (s', result)
      | again last ↦
          attempts t left (attempt + 1)
            (if ltb attempt t.config.max_retries
              then next_delay t.config retry_delay
              else retry_delay)
            last
            (if ltb attempt t.config.max_retries then sleep retry_delay e.late_retry s' else s')
    ]

-- `except Exception`: the connection is closed, and the exception goes on.
abbrev pub reset_on_error : Serial × Result Bytes → Serial × Result Bytes
reset_on_error (s, ok response) = (s, ok response)
reset_on_error (s, raise e) = (record s { connection = closing }, raise e)

-- The board's side of a transaction.
pub record Board : Type 0 where
  pub opening : Opening
  pub exchange : ℕ → Exchange

abbrev pub transaction :
    SerialModel → Bytes → Option (Text × Text) → ℕ → Board → Serial → Transaction
transaction config message expected min_send_interval board s = record {
  config = config;
  message = message;
  expected = expected;
  min_send_interval = min_send_interval;
  transaction_id = s.transaction_sequence;
  exchange = board.exchange;
}

unfoldable pub connected :
    SerialModel
    → Bytes
    → Option (Text × Text)
    → ℕ
    → Board
    → Serial × Result (Unit {0})
    → Serial × Result Bytes
unfolding attempts
connected config message expected min_send_interval board (s, raise e) = (s, raise e)
connected config message expected min_send_interval board (s, ok _) = reset_on_error (
    attempts (transaction config message expected min_send_interval board s) config.max_retries 1
      config.initial_retry_delay none s)

unfoldable pub configured :
    Result SerialModel → Bytes → Option (Text × Text) → ℕ → Board → Serial → Serial × Result Bytes
unfolding connected get_serial_connection
configured (raise e) message expected min_send_interval board s = (s, raise e)
configured (ok config) message expected min_send_interval board s =
    connected config message expected min_send_interval board (
      get_serial_connection board.opening
        (record s { transaction_sequence = s.transaction_sequence + 1 }))

-- fetch
unfoldable pub fetch :
    Bytes → Option Text → Option Text → ℕ → Board → Serial → Serial × Result Bytes
unfolding configured get_serial_config
fetch message expected_command expected_subcommand min_send_interval board s =
    configured (get_serial_config s) message (expected_codes expected_command expected_subcommand)
      min_send_interval board s
