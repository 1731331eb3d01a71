-- ===== src/Serial/Fetch/Steps.antt =====
-- One round of the retry loop, as equations, and what it does to the record of the wire.
use crk_io_board.Base.{
  ℕ, suc, ◌+◌, ◌≡◌, refl, ◌⊎◌, inl, inr, Option, List, [], ◌∷◌, arith, Bytes, Text, ltb, ◌∙◌, ap,
  if◌then◌else◌, none, some,
}
use crk_io_board.Base.Dict.{get}
use crk_io_board.Errors.{Result}
use crk_io_board.Serial.State.{
  SerialModel, Serial, WireEvent, sent, received, sleep, respect_inter_command_gap, gap_after,
  respect_wire_min_gap, record_tx, record_rx, request_key,
}
use crk_io_board.Errors.{OtherError}
use crk_io_board.Serial.Exchange.{Exchange, Received, whole, stalled, drain_error, received_in}
use crk_io_board.Serial.Fetch.{
  Verdict, judge, waited, before_tx, after_drain, after_rx, try_once, next_delay, decide, Next,
  stop, again, Transaction, attempts,
}

-- What an attempt comes to does not depend on the state: the drain leaves nothing of the past, or
-- raises.
abbrev pub verdict : Option (Text × Text) → Exchange → Verdict
verdict expected e = judge expected (received_in e)

abbrev pub verdict_at : Transaction → ℕ → Verdict
verdict_at t attempt = verdict t.expected (t.exchange attempt)

-- The state after the reads of an attempt, and after the sleep that may follow.
abbrev pub tried : Transaction → ℕ → Serial → Serial
tried t attempt s =
    (try_once t.config t.message t.min_send_interval t.transaction_id attempt (t.exchange attempt)
      s).0

abbrev pub rested : Transaction → ℕ → ℕ → Serial → Serial
rested t attempt retry_delay s' =
    if ltb attempt t.config.max_retries
    then sleep retry_delay (t.exchange attempt).late_retry s'
    else s'

abbrev pub delay_after : Transaction → ℕ → ℕ → ℕ
delay_after t attempt retry_delay =
    if ltb attempt t.config.max_retries then next_delay t.config retry_delay else retry_delay

module _ (t : Transaction) (left attempt retry_delay : ℕ) (last : Option Verdict) (s : Serial) where
  pub attempts-stop :
      (result : Result Bytes)
      → decide t.config attempt (verdict_at t attempt) last ≡ stop result
      → attempts t (suc left) attempt retry_delay last s ≡ (tried t attempt s, result)
  unfolding attempts
  attempts-stop result e = rw (e, attempts)

  pub attempts-again :
      (last' : Option Verdict)
      → decide t.config attempt (verdict_at t attempt) last ≡ again last'
      → attempts t (suc left) attempt retry_delay last s
        ≡ attempts t left
            (attempt + 1)
            (delay_after t attempt retry_delay)
            last'
            (rested t attempt retry_delay (tried t attempt s))
  unfolding attempts
  attempts-again last' e = rw (e, attempts)

pub Next-cases :
    (n : Next) → ((r : Result Bytes) × (n ≡ stop r)) ⊎ ((l : Option Verdict) × (n ≡ again l))
Next-cases (stop r) = inl (r, refl)
Next-cases (again l) = inr (l, refl)

-- How many transmissions the record of the wire has.
abbrev pub count_sent : List WireEvent → ℕ
count_sent [] = 0
count_sent (sent t m ∷ w) = suc (count_sent w)
count_sent (received t m ∷ w) = count_sent w

pub wire-gap_after :
    (g : ℕ) (o : Option ℕ) (late : ℕ) (s : Serial) → (gap_after g o late s).wire ≡ s.wire
unfolding gap_after
wire-gap_after g o late s = ground arith

pub wire-inter_command_gap :
    (g late : ℕ) (s : Serial) → (respect_inter_command_gap g late s).wire ≡ s.wire
unfolding respect_inter_command_gap
wire-inter_command_gap g late s = ground (arith, wire-gap_after g s.last_rx_complete_time late s)

pub wire-min_gap :
    (message : Bytes) (m late : ℕ) (s : Serial)
    → (respect_wire_min_gap message m late s).wire ≡ s.wire
unfolding respect_wire_min_gap
wire-min_gap message m late s =
    ground (arith, wire-gap_after m (get (request_key message) s.last_request_tx) late s)

wire-waited :
    (config : SerialModel) (message : Bytes) (m : ℕ) (e : Exchange) (s : Serial)
    → (waited config message m e s).wire ≡ s.wire
unfolding waited
wire-waited config message m e s =
    wire-min_gap message m e.late_interval _
    ∙ wire-inter_command_gap config.inter_command_gap e.late_gap s

count_sent-after_rx :
    (r : Received) (s : Serial) → count_sent (after_rx r s).wire ≡ count_sent s.wire
unfolding record_rx
count_sent-after_rx (whole response rest) s = refl
count_sent-after_rx (stalled e) s = refl

-- How many transmissions an attempt makes: one, and none when its drain raises.
abbrev pub transmissions : Option OtherError → ℕ
transmissions none = 1
transmissions (some x) = 0

count_sent-after_drain :
    (o : Option OtherError) (t : Transaction) (attempt : ℕ) (e : Exchange) (s : Serial)
    → count_sent
        (after_drain o t.config t.message t.min_send_interval t.transaction_id attempt e s).wire
      ≡ transmissions o + count_sent s.wire
unfolding before_tx record_tx
count_sent-after_drain none t attempt e s =
    omega (arith, ap count_sent (wire-waited t.config t.message t.min_send_interval e s))
count_sent-after_drain (some x) t attempt e s =
    omega (arith, ap count_sent (wire-waited t.config t.message t.min_send_interval e s))

pub count_sent-tried :
    (t : Transaction) (attempt : ℕ) (s : Serial)
    → count_sent (tried t attempt s).wire
      ≡ transmissions (drain_error (t.exchange attempt)) + count_sent s.wire
unfolding try_once
count_sent-tried t attempt s =
    let e = t.exchange attempt in
    count_sent-after_rx (received_in e) (
      after_drain (drain_error e) t.config t.message t.min_send_interval t.transaction_id attempt e
        s)
    ∙ count_sent-after_drain (drain_error e) t attempt e s

pub wire-rested :
    (t : Transaction) (attempt retry_delay : ℕ) (s : Serial)
    → (rested t attempt retry_delay s).wire ≡ s.wire
wire-rested t attempt retry_delay s = ground arith
