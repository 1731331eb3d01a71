-- ===== src/Serial/Fetch/QuietTime.antt =====
-- The two quiet times of `fetch` (src/services/io_board/serial_io.py) over the history of the wire:
-- after each whole response, and between transmissions of one request.
use mathlib.Core.Path.{subst}
use crk_io_board.Base.{
  ℕ, zero, suc, ◌+◌, ◌≤◌, ◌≡◌, refl, inl, inr, Bool, true, false, Option, none, some, List, [], ◌∷◌,
  arith, Bytes, sym, same_text, same_text→eq, ltb, leb, Bool-cases, if◌then◌else◌,
}
use crk_io_board.Base.Dict.{get, get-put}
use crk_io_board.Errors.{OtherError}
use crk_io_board.Serial.State.{
  remaining, gap_after, respect_inter_command_gap, respect_wire_min_gap, SerialModel, Serial,
  WireEvent, sent, received, record_tx, record_rx, elapse, request_key,
}
use crk_io_board.Serial.Exchange.{Exchange, Received, whole, stalled, drain_error, received_in}
use crk_io_board.Serial.Fetch.{
  Verdict, waited, before_tx, after_drain, after_rx, try_once, Transaction, decide, attempts,
}
use crk_io_board.Serial.Fetch.Steps.{
  verdict_at, tried, rested, delay_after, attempts-stop, attempts-again, Next-cases,
}
use crk_io_board.Serial.Fetch.Spacing.{AfterGap, last_rx, Quiet, before_tx_time}

-- The last transmission with the key.
abbrev pub last_tx : Bytes → List WireEvent → Option ℕ
last_tx key [] = none
last_tx key (received t m ∷ w) = last_tx key w
last_tx key (sent t m ∷ w) = if same_text (request_key m) key then some t else last_tx key w

abbrev pub When : Bool → Type 0 → Type 0
When true P = P
When false P = Unit

-- Transmissions with the key are `interval` or more apart.
abbrev pub Paced : ℕ → Bytes → List WireEvent → Type 0
Paced interval key [] = Unit
Paced interval key (received t m ∷ w) = Paced interval key w
Paced interval key (sent t m ∷ w) =
    When (same_text (request_key m) key) (AfterGap interval (last_tx key w) t)
    × Paced interval key w

abbrev pub GapIs : ℕ → Option SerialModel → Type 0
GapIs gap none = Unit
GapIs gap (some config) = config.inter_command_gap ≡ gap

-- The serial state agrees with the history of the wire, which has kept both times so far: the
-- gap after every response, and the interval for the key.
pub record IsSpaced (gap interval : ℕ) (key : Bytes) (s : Serial) : Type 0 where
  pub gap_set : GapIs gap s.config
  pub rx_tracked : s.last_rx_complete_time ≡ last_rx s.wire
  pub tx_tracked : get key s.last_request_tx ≡ last_tx key s.wire
  pub rx_past : AfterGap 0 s.last_rx_complete_time s.now
  pub tx_past : (k : Bytes) → AfterGap 0 (get k s.last_request_tx) s.now
  pub quiet : Quiet gap s.wire
  pub paced : Paced interval key s.wire

module _ (gap interval : ℕ) (key : Bytes) where
  -- A transmission at a time that respects both.
  sent-IsSpaced :
      (txn attempt time : ℕ) (message : Bytes) (s : Serial)
      → IsSpaced gap interval key s
      → AfterGap gap s.last_rx_complete_time time
      → (same_text (request_key message) key ≡ true
          → AfterGap interval (get key s.last_request_tx) time)
      → s.now ≤ time
      → IsSpaced gap interval key (record_tx txn attempt message (record s { now = time }))
  unfolding record_tx
  sent-IsSpaced txn attempt time message s i rx tx later = record {
    gap_set = i.gap_set;
    rx_tracked = i.rx_tracked;
    tx_tracked = rw get-put (ground (arith, i.tx_tracked));
    rx_past = ground (arith, i.rx_past);
    tx_past = λ k. rw get-put (ground (arith, i.tx_past k));
    quiet = (subst (λ o. AfterGap gap o time) i.rx_tracked rx, i.quiet);
    paced = (ground (arith, i.tx_tracked, tx), i.paced);
  }

  pub elapse-IsSpaced :
      (d : ℕ) (s : Serial) → IsSpaced gap interval key s → IsSpaced gap interval key (elapse d s)
  elapse-IsSpaced d s i = record {
    gap_set = i.gap_set;
    rx_tracked = i.rx_tracked;
    tx_tracked = i.tx_tracked;
    rx_past = ground (arith, i.rx_past);
    tx_past = λ k. ground (arith, i.tx_past k);
    quiet = i.quiet;
    paced = i.paced;
  }

  gap_after-IsSpaced :
      (g : ℕ) (o : Option ℕ) (late : ℕ) (s : Serial)
      → IsSpaced gap interval key s
      → IsSpaced gap interval key (gap_after g o late s)
  unfolding gap_after
  gap_after-IsSpaced g none late s i = i
  gap_after-IsSpaced g (some p) late s i = elim (Bool-cases (ltb 0 (remaining g p s.now))) [
    | inl e ↦ rw e (elapse-IsSpaced (remaining g p s.now + late) s i)
    | inr e ↦ rw e i
  ]

  gap_if-IsSpaced :
      (g : ℕ) (o : Option ℕ) (late : ℕ) (s : Serial)
      → IsSpaced gap interval key s
      → IsSpaced gap interval key (if leb g 0 then s else gap_after g o late s)
  gap_if-IsSpaced g o late s i = elim (Bool-cases (leb g 0)) [
    | inl e ↦ rw e i
    | inr e ↦ rw e (gap_after-IsSpaced g o late s i)
  ]

  received-IsSpaced :
      (r : Received) (s : Serial)
      → IsSpaced gap interval key s
      → IsSpaced gap interval key (after_rx r s)
  unfolding record_rx
  received-IsSpaced (whole response rest) s i = record {
    gap_set = i.gap_set;
    rx_tracked = refl;
    tx_tracked = i.tx_tracked;
    rx_past = omega arith;
    tx_past = i.tx_past;
    quiet = i.quiet;
    paced = i.paced;
  }
  received-IsSpaced (stalled e) s i = i

  AfterGap-le : (m g : ℕ) (o : Option ℕ) (t : ℕ) → m ≤ g → AfterGap g o t → AfterGap m o t
  AfterGap-le m g none t h a = tt
  AfterGap-le m g (some p) t h a = omega arith

  -- The request with the key is sent with the interval, or a longer one.
  abbrev pub Asks : Bytes → ℕ → Type 0
  Asks message m = same_text (request_key message) key ≡ true → interval ≤ m

  key_after :
      (message : Bytes) (m time : ℕ) (s : Serial)
      → Asks message m
      → AfterGap m (get (request_key message) s.last_request_tx) time
      → same_text (request_key message) key ≡ true
      → AfterGap interval (get key s.last_request_tx) time
  key_after message m time s asks after same =
      AfterGap-le interval m (get key s.last_request_tx) time (asks same) (
        subst (λ k. AfterGap m (get k s.last_request_tx) time)
          (same_text→eq (request_key message) key same) after)

  module _ (t : Transaction) where
    before_tx-IsSpaced :
        (attempt : ℕ) (e : Exchange) (s : Serial)
        → t.config.inter_command_gap ≡ gap
        → Asks t.message t.min_send_interval
        → IsSpaced gap interval key s
        → IsSpaced gap interval key
            (before_tx t.config t.message t.min_send_interval t.transaction_id attempt e s)
    before_tx-IsSpaced attempt e s g asks i =
        let (time, same, rx, tx, later) =
          before_tx_time t.config t.message t.min_send_interval t.transaction_id attempt e s
            (record { rx = i.rx_past; tx = i.tx_past (request_key t.message) }) in
        subst (IsSpaced gap interval key) (sym same) (
          sent-IsSpaced t.transaction_id attempt time t.message s i
            (subst (λ x. AfterGap x s.last_rx_complete_time time) g rx)
            (key_after t.message t.min_send_interval time s asks tx) later)

    waited-IsSpaced :
        (e : Exchange) (s : Serial)
        → IsSpaced gap interval key s
        → IsSpaced gap interval key (waited t.config t.message t.min_send_interval e s)
    unfolding waited respect_inter_command_gap respect_wire_min_gap
    waited-IsSpaced e s i =
        let s₁ : Serial = respect_inter_command_gap t.config.inter_command_gap e.late_gap s in
        elapse-IsSpaced e.drain_time _ (
          gap_if-IsSpaced t.min_send_interval (get (request_key t.message) s₁.last_request_tx)
            e.late_interval s₁
            (gap_if-IsSpaced t.config.inter_command_gap s.last_rx_complete_time e.late_gap s i))

    after_drain-IsSpaced :
        (o : Option OtherError) (attempt : ℕ) (e : Exchange) (s : Serial)
        → t.config.inter_command_gap ≡ gap
        → Asks t.message t.min_send_interval
        → IsSpaced gap interval key s
        → IsSpaced gap interval key
            (after_drain o t.config t.message t.min_send_interval t.transaction_id attempt e s)
    after_drain-IsSpaced none attempt e s g asks i =
        elapse-IsSpaced e.exchange_time _ (before_tx-IsSpaced attempt e s g asks i)
    after_drain-IsSpaced (some x) attempt e s g asks i = waited-IsSpaced e s i

    tried-IsSpaced :
        (attempt : ℕ) (s : Serial)
        → t.config.inter_command_gap ≡ gap
        → Asks t.message t.min_send_interval
        → IsSpaced gap interval key s
        → IsSpaced gap interval key (tried t attempt s)
    unfolding try_once
    tried-IsSpaced attempt s g asks i =
        let e = t.exchange attempt in
        received-IsSpaced (received_in e) _
          (after_drain-IsSpaced (drain_error e) attempt e s g asks i)

    rested-IsSpaced :
        (attempt retry_delay : ℕ) (s : Serial)
        → IsSpaced gap interval key s
        → IsSpaced gap interval key (rested t attempt retry_delay s)
    rested-IsSpaced attempt retry_delay s i = elim (Bool-cases (ltb attempt t.config.max_retries)) [
      | inl e ↦ rw e (elapse-IsSpaced (retry_delay + (t.exchange attempt).late_retry) s i)
      | inr e ↦ rw e i
    ]

    pub attempts-IsSpaced :
        (left attempt retry_delay : ℕ) (last : Option Verdict) (s : Serial)
        → t.config.inter_command_gap ≡ gap
        → Asks t.message t.min_send_interval
        → IsSpaced gap interval key s
        → IsSpaced gap interval key (attempts t left attempt retry_delay last s).0
    unfolding attempts
    attempts-IsSpaced zero attempt d last s g asks i = i
    attempts-IsSpaced (suc left) attempt d last s g asks i =
        let i' = tried-IsSpaced attempt s g asks i in
        elim (Next-cases (decide t.config attempt (verdict_at t attempt) last)) [
          | inl (r, e) ↦ rw (attempts-stop t left attempt d last s r e) i'
          | inr (l, e) ↦ rw (attempts-again t left attempt d last s l e) (
              attempts-IsSpaced left (attempt + 1) (delay_after t attempt d) l
                (rested t attempt d (tried t attempt s)) g asks
                (rested-IsSpaced attempt d (tried t attempt s) i'))
        ]
