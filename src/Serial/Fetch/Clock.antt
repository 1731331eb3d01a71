-- ===== src/Serial/Fetch/Clock.antt =====
-- The clock in a call of `fetch` of src/services/io_board/serial_io.py.
use crk_io_board.Base.{
  ℕ, zero, suc, ◌+◌, ◌≤◌, ◌≡◌, refl, Option, none, some, arith, Bytes, Text, inl, inr,
}
use crk_io_board.Base.Dict.{get}
use crk_io_board.Errors.{Result, OtherError, ok, raise}
use crk_io_board.Serial.State.{
  SerialModel, Serial, Opening, opened, refused, broken, half_opened, Connection, live, closing,
  absent, gap_after, respect_inter_command_gap, respect_wire_min_gap, record_tx, record_rx,
  open_port, reconnect, get_serial_connection, get_serial_config, request_key,
}
use crk_io_board.Serial.Exchange.{Exchange, Received, whole, stalled, drain_error, received_in}
use crk_io_board.Serial.Fetch.{
  Verdict, waited, before_tx, after_drain, after_rx, try_once, Transaction, transaction, decide,
  attempts, Board, expected_codes, configured, connected, reset_on_error, fetch,
}
use crk_io_board.Serial.Fetch.Steps.{
  verdict_at, tried, rested, delay_after, attempts-stop, attempts-again, Next-cases,
}

now-gap_after : (g : ℕ) (o : Option ℕ) (late : ℕ) (s : Serial) → s.now ≤ (gap_after g o late s).now
unfolding gap_after
now-gap_after g o late s = ground arith

now-command_gap : (g late : ℕ) (s : Serial) → s.now ≤ (respect_inter_command_gap g late s).now
unfolding respect_inter_command_gap
now-command_gap g late s = ground (arith, now-gap_after g s.last_rx_complete_time late s)

now-min_gap :
    (message : Bytes) (m late : ℕ) (s : Serial)
    → s.now ≤ (respect_wire_min_gap message m late s).now
unfolding respect_wire_min_gap
now-min_gap message m late s =
    ground (arith, now-gap_after m (get (request_key message) s.last_request_tx) late s)

now-after_rx : (r : Received) (s : Serial) → (after_rx r s).now ≡ s.now
unfolding record_rx
now-after_rx (whole response rest) s = refl
now-after_rx (stalled e) s = refl

now-waited :
    (config : SerialModel) (message : Bytes) (m : ℕ) (e : Exchange) (s : Serial)
    → s.now ≤ (waited config message m e s).now
unfolding waited
now-waited config message m e s =
    let s₁ : Serial = respect_inter_command_gap config.inter_command_gap e.late_gap s in
    omega (
      arith,
      now-command_gap config.inter_command_gap e.late_gap s,
      now-min_gap message m e.late_interval s₁,
    )

now-after_drain :
    (o : Option OtherError) (t : Transaction) (attempt : ℕ) (e : Exchange) (s : Serial)
    → s.now
      ≤ (after_drain o t.config t.message t.min_send_interval t.transaction_id attempt e s).now
unfolding before_tx record_tx
now-after_drain none t attempt e s =
    omega (arith, now-waited t.config t.message t.min_send_interval e s)
now-after_drain (some x) t attempt e s = now-waited t.config t.message t.min_send_interval e s

now-tried : (t : Transaction) (attempt : ℕ) (s : Serial) → s.now ≤ (tried t attempt s).now
unfolding try_once
now-tried t attempt s =
    let e = t.exchange attempt in
    let s₁ : Serial =
      after_drain (drain_error e) t.config t.message t.min_send_interval t.transaction_id attempt e
        s in
    omega (arith, now-after_drain (drain_error e) t attempt e s, now-after_rx (received_in e) s₁)

now-rested :
    (t : Transaction) (attempt retry_delay : ℕ) (s : Serial)
    → s.now ≤ (rested t attempt retry_delay s).now
now-rested t attempt retry_delay s = ground arith

now-attempts :
    (t : Transaction) (left attempt retry_delay : ℕ) (last : Option Verdict) (s : Serial)
    → s.now ≤ (attempts t left attempt retry_delay last s).0.now
unfolding attempts
now-attempts t zero attempt d last s = omega arith
now-attempts t (suc left) attempt d last s =
    elim (Next-cases (decide t.config attempt (verdict_at t attempt) last)) [
      | inl (r, e) ↦ rw (attempts-stop t left attempt d last s r e) (now-tried t attempt s)
      | inr (l, e) ↦ rw (attempts-again t left attempt d last s l e) (
          omega (
            arith,
            now-tried t attempt s,
            now-rested t attempt d (tried t attempt s),
            now-attempts t left (attempt + 1) (delay_after t attempt d) l
                (rested t attempt d (tried t attempt s)),
          ))
    ]

now-reset : (p : Serial × Result Bytes) → (reset_on_error p).0.now ≡ p.0.now
now-reset (s, ok r) = refl
now-reset (s, raise e) = refl

now-open : (opening : Opening) (s : Serial) → (open_port opening s).0.now ≡ s.now
unfolding open_port
now-open opened s = refl
now-open (refused e) s = refl
now-open (broken e) s = refl
now-open (half_opened e) s = refl

now-reconnect :
    (c : Connection) (opening : Opening) (s : Serial) → (reconnect c opening s).0.now ≡ s.now
unfolding reconnect
now-reconnect live opening s = refl
now-reconnect closing opening s = now-open opening (record s { connection = absent })
now-reconnect absent opening s = now-open opening s

now-connected :
    (config : SerialModel) (message : Bytes) (e : Option (Text × Text)) (m : ℕ) (board : Board)
    (p : Serial × Result (Unit {0}))
    → p.0.now ≤ (connected config message e m board p).0.now
unfolding connected
now-connected config message e m board (s, raise x) = omega arith
now-connected config message e m board (s, ok x) =
    let t : Transaction = transaction config message e m board s in
    omega (
      arith,
      now-reset (attempts t config.max_retries 1 config.initial_retry_delay none s),
      now-attempts t config.max_retries 1 config.initial_retry_delay none s,
    )

now-configured :
    (c : Result SerialModel) (message : Bytes) (e : Option (Text × Text)) (m : ℕ) (board : Board)
    (s : Serial)
    → s.now ≤ (configured c message e m board s).0.now
unfolding configured get_serial_connection
now-configured (raise x) message e m board s = omega arith
now-configured (ok config) message e m board s =
    let s₁ : Serial = record s { transaction_sequence = s.transaction_sequence + 1 } in
    omega (
      arith,
      now-connected config message e m board (reconnect s.connection board.opening s₁),
      now-reconnect s.connection board.opening s₁,
    )

pub now-fetch :
    (message : Bytes) (cmd sub : Option Text) (m : ℕ) (board : Board) (s : Serial)
    → s.now ≤ (fetch message cmd sub m board s).0.now
unfolding fetch
now-fetch message cmd sub m board s =
    now-configured (get_serial_config s) message (expected_codes cmd sub) m board s
