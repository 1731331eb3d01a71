-- ===== src/Serial/Sample.antt =====
-- Settings, a state and exchanges of the serial line, to try the functions on.
use crk_io_board.Base.{◌≡◌, refl, none, some, [], ◌∷◌, ◌++◌, Bytes, codes, if◌then◌else◌, ◌==◌}
use crk_io_board.Errors.{os_error}
use crk_io_board.Serial.State.{SerialModel, Serial, absent, opened}
use crk_io_board.Serial.Drain.{chunk, read_timeout, read_error, drain_stale_input}
use crk_io_board.Serial.Exchange.{Exchange, timed_out, drain_error}
use crk_io_board.Serial.Fetch.{Board}

-- [STX]MCLZ[ETX] and its LRC
abbrev pub calibrated_frame : Bytes
calibrated_frame = 0x02 ∷ codes "MCLZ" ++ 0x03 ∷ 0x1b ∷ []

abbrev pub settings : SerialModel
settings = record {
  max_retries = 3;
  initial_retry_delay = 100000;
  retry_backoff_multiplier = 2000;
  inter_command_gap = 50000;
}

abbrev pub unset : Serial
unset = record {
  config = none;
  last_request_tx = [];
  transaction_sequence = 0;
  last_wire_tx = none;
  last_rx_complete_time = none;
  connection = absent;
  now = 0;
  wire = [];
}

abbrev pub ready_state : Serial
ready_state = record unset { config = some settings }

abbrev pub exchange_with : Bytes → Exchange
exchange_with bs = record {
  late_gap = 3;
  late_interval = 1;
  stale = λ n. read_timeout;
  pause = 0;
  pauses = refl;
  drain_time = 10;
  arrivals = bs;
  stall = timed_out;
  exchange_time = 20000;
  late_retry = 0;
}

pub drain_error-exchange_with : (bs : Bytes) → drain_error (exchange_with bs) ≡ none
unfolding drain_error drain_stale_input
drain_error-exchange_with bs = refl

-- The reader has stored an exception, and raises it in the drain.
abbrev pub unplugged : Exchange
unplugged = record {
  late_gap = 3;
  late_interval = 1;
  stale = λ n. if n == 1 then read_error os_error else chunk (0x02 ∷ []);
  pause = 1;
  pauses = refl;
  drain_time = 10;
  arrivals = [];
  stall = timed_out;
  exchange_time = 20000;
  late_retry = 0;
}

-- The first answer is lost, and the port breaks before the second transmission.
abbrev pub breaking_board : Board
breaking_board = record {
  opening = opened;
  exchange = λ n. if n == 2 then unplugged else exchange_with [];
}

-- The first answer is lost, the second is whole.
abbrev pub slow_board : Board
slow_board = record {
  opening = opened;
  exchange = λ n. if n == 2 then exchange_with calibrated_frame else exchange_with [];
}

abbrev pub silent_board : Board
silent_board = record { opening = opened; exchange = λ n. exchange_with [] }
