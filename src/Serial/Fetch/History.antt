-- ===== src/Serial/Fetch/History.antt =====
-- Any sequence of calls of `fetch`, by whichever tasks, in the order in which they take the mutex.
use crk_io_board.Base.{
  ℕ, ◌+◌, ◌≤◌, ◌≡◌, refl, true, Option, none, List, [], ◌∷◌, arith, Bytes, Text, same_text,
}
use crk_io_board.Base.Dict.{get}
use crk_io_board.Errors.{Result, ok, raise}
use crk_io_board.Serial.State.{
  SerialModel, Serial, Opening, opened, refused, broken, half_opened, Connection, live, closing,
  absent, configure_serial, open_port, reconnect, get_serial_connection, get_serial_config, elapse,
  request_key,
}
use crk_io_board.Serial.Fetch.{
  Board, expected_codes, configured, connected, reset_on_error, transaction, fetch,
}
use crk_io_board.Serial.Fetch.Spacing.{Quiet}
use crk_io_board.Serial.Fetch.QuietTime.{
  IsSpaced, GapIs, Asks, Paced, attempts-IsSpaced, elapse-IsSpaced,
}

-- A call of `fetch`, and how long the port is idle before it.
pub record Call : Type 0 where
  pub idle : ℕ
  pub message : Bytes
  pub expected_command : Option Text
  pub expected_subcommand : Option Text
  pub min_send_interval : ℕ
  pub board : Board

abbrev pub call : Call → Serial → Serial
call c s =
    (fetch c.message c.expected_command c.expected_subcommand c.min_send_interval c.board
      (elapse c.idle s)).0

abbrev pub calls : List Call → Serial → Serial
calls [] s = s
calls (c ∷ cs) s = calls cs (call c s)

-- Each call that sends the request of the key asks for the interval.
abbrev pub AllAsk : ℕ → Bytes → List Call → Type 0
AllAsk interval key [] = Unit
AllAsk interval key (c ∷ cs) =
    (same_text (request_key c.message) key ≡ true → interval ≤ c.min_send_interval)
    × AllAsk interval key cs

module _ (gap interval : ℕ) (key : Bytes) where
  -- Neither the connection nor the numbering has a part in it.
  with_connection :
      (n : ℕ) (c : Connection) (s : Serial)
      → IsSpaced gap interval key s
      → IsSpaced gap interval key (record s { transaction_sequence = n; connection = c })
  with_connection n c s i = record {
    gap_set = i.gap_set;
    rx_tracked = i.rx_tracked;
    tx_tracked = i.tx_tracked;
    rx_past = i.rx_past;
    tx_past = i.tx_past;
    quiet = i.quiet;
    paced = i.paced;
  }

  reset-IsSpaced :
      (p : Serial × Result Bytes)
      → IsSpaced gap interval key p.0
      → IsSpaced gap interval key (reset_on_error p).0
  reset-IsSpaced (s, ok r) i = i
  reset-IsSpaced (s, raise e) i = with_connection s.transaction_sequence closing s i

  open-IsSpaced :
      (opening : Opening) (s : Serial)
      → IsSpaced gap interval key s
      → IsSpaced gap interval key (open_port opening s).0
  unfolding open_port
  open-IsSpaced opened s i = with_connection s.transaction_sequence live s i
  open-IsSpaced (refused e) s i = with_connection s.transaction_sequence absent s i
  open-IsSpaced (broken e) s i = with_connection s.transaction_sequence absent s i
  open-IsSpaced (half_opened e) s i = with_connection s.transaction_sequence live s i

  reconnect-IsSpaced :
      (c : Connection) (opening : Opening) (s : Serial)
      → IsSpaced gap interval key s
      → IsSpaced gap interval key (reconnect c opening s).0
  unfolding reconnect
  reconnect-IsSpaced live opening s i = i
  reconnect-IsSpaced closing opening s i =
      open-IsSpaced opening _ (with_connection s.transaction_sequence absent s i)
  reconnect-IsSpaced absent opening s i = open-IsSpaced opening s i

  connected-IsSpaced :
      (config : SerialModel) (c : Call) (p : Serial × Result (Unit {0}))
      → config.inter_command_gap ≡ gap
      → Asks gap interval key c.message c.min_send_interval
      → IsSpaced gap interval key p.0
      → IsSpaced gap interval key
          (connected config c.message
            (expected_codes c.expected_command c.expected_subcommand)
            c.min_send_interval
            c.board
            p).0
  unfolding connected
  connected-IsSpaced config c (s, raise e) g asks i = i
  connected-IsSpaced config c (s, ok x) g asks i = reset-IsSpaced _ (
      attempts-IsSpaced gap interval key
        (transaction config c.message (expected_codes c.expected_command c.expected_subcommand)
          c.min_send_interval c.board s)
        config.max_retries 1 config.initial_retry_delay none s g asks i)

  configured-IsSpaced :
      (r : Result SerialModel) (c : Call) (s : Serial)
      → ((config : SerialModel) → r ≡ ok config → config.inter_command_gap ≡ gap)
      → Asks gap interval key c.message c.min_send_interval
      → IsSpaced gap interval key s
      → IsSpaced gap interval key
          (configured r c.message
            (expected_codes c.expected_command c.expected_subcommand)
            c.min_send_interval
            c.board
            s).0
  unfolding configured get_serial_connection
  configured-IsSpaced (raise e) c s g asks i = i
  configured-IsSpaced (ok config) c s g asks i =
      connected-IsSpaced config c _ (g config refl) asks (
        reconnect-IsSpaced s.connection c.board.opening _
          (with_connection (s.transaction_sequence + 1) s.connection s i))

  config_gap :
      (config : SerialModel) (s : Serial)
      → GapIs gap s.config
      → get_serial_config s ≡ ok config
      → config.inter_command_gap ≡ gap
  unfolding get_serial_config
  config_gap config s g e = ground arith

  fetch-IsSpaced :
      (c : Call) (s : Serial)
      → Asks gap interval key c.message c.min_send_interval
      → IsSpaced gap interval key s
      → IsSpaced gap interval key
          (fetch c.message c.expected_command c.expected_subcommand c.min_send_interval c.board s).0
  unfolding fetch
  fetch-IsSpaced c s asks i =
      configured-IsSpaced (get_serial_config s) c s (λ config. config_gap config s i.gap_set) asks i

  calls-IsSpaced :
      (cs : List Call) (s : Serial)
      → AllAsk interval key cs
      → IsSpaced gap interval key s
      → IsSpaced gap interval key (calls cs s)
  calls-IsSpaced [] s h i = i
  calls-IsSpaced (c ∷ cs) s (asks, h) i =
      calls-IsSpaced cs (call c s) h
        (fetch-IsSpaced c (elapse c.idle s) asks (elapse-IsSpaced gap interval key c.idle s i))

-- From `configure_serial` on, over any calls of `fetch` with any behaviour of the board: every
-- transmission is at least `inter_command_gap` after the last whole response before it, and
-- transmissions of one request (by its first five bytes) are at least `interval` apart, provided
-- each call that sends it asks for `interval` or more.
pub calls_keep-Quiet :
    (config : SerialModel) (interval : ℕ) (key : Bytes) (cs : List Call) (s : Serial)
    → s.wire ≡ []
    → AllAsk interval key cs
    → let w = (calls cs (configure_serial config s)).wire in
      Quiet config.inter_command_gap w × Paced interval key w
unfolding configure_serial get
calls_keep-Quiet config interval key cs s h asks =
    let i =
      calls-IsSpaced config.inter_command_gap interval key cs (configure_serial config s) asks
        (record {
          gap_set = refl;
          rx_tracked = rw h refl;
          tx_tracked = rw h refl;
          rx_past = tt;
          tx_past = λ k. tt;
          quiet = rw h tt;
          paced = rw h tt;
        }) in
    (i.quiet, i.paced)
