-- ===== src/Serial/Fetch/Spacing.antt =====
-- The waits of an attempt of `fetch` (src/services/io_board/serial_io.py), and the time at which it
-- transmits.
use crk_io_board.Base.{ℕ, ◌+◌, ◌≤◌, ◌≡◌, Option, none, some, List, [], ◌∷◌, arith, Bytes, ap, sym}
use mathlib.Core.Path.{subst}
use crk_io_board.Base.Dict.{get}
use crk_io_board.Serial.State.{
  SerialModel, Serial, WireEvent, sent, received, gap_after, respect_inter_command_gap,
  respect_wire_min_gap, record_tx, elapse, request_key,
}
use crk_io_board.Serial.Exchange.{Exchange}
use crk_io_board.Serial.Fetch.{waited, before_tx}

-- The time `t` is `gap` or more after the time, if there is one.
abbrev pub AfterGap : ℕ → Option ℕ → ℕ → Type 0
AfterGap gap none t = Unit
AfterGap gap (some previous) t = previous + gap ≤ t

abbrev pub last_rx : List WireEvent → Option ℕ
last_rx [] = none
last_rx (received t m ∷ w) = some t
last_rx (sent t m ∷ w) = last_rx w

-- Every transmission is `gap` or more after the response before it.
abbrev pub Quiet : ℕ → List WireEvent → Type 0
Quiet gap [] = Unit
Quiet gap (received t m ∷ w) = Quiet gap w
Quiet gap (sent t m ∷ w) = AfterGap gap (last_rx w) t × Quiet gap w

waits :
    (gap : ℕ) (o : Option ℕ) (late : ℕ) (s : Serial)
    → AfterGap 0 o s.now
    → AfterGap gap o (gap_after gap o late s).now × (s.now ≤ (gap_after gap o late s).now)
unfolding gap_after
waits gap o late s h = ground arith

-- A wait changes only the clock.
gap_after_eq :
    (gap : ℕ) (o : Option ℕ) (late : ℕ) (s : Serial)
    → gap_after gap o late s ≡ record s { now = (gap_after gap o late s).now }
unfolding gap_after
gap_after_eq gap o late s = ground arith

AfterGap-mono : (gap : ℕ) (o : Option ℕ) (t u : ℕ) → t ≤ u → AfterGap gap o t → AfterGap gap o u
AfterGap-mono gap none t u h a = tt
AfterGap-mono gap (some p) t u h a = omega arith

-- The waits of an attempt end at a time that respects both gaps, and change only the clock.
record Waited (s s' : Serial) (gap : ℕ) (o : Option ℕ) : Type 0 where
  same : s' ≡ record s { now = s'.now }
  later : s.now ≤ s'.now
  respected : AfterGap gap o s'.now

command_gap_waits :
    (gap late : ℕ) (s : Serial)
    → AfterGap 0 s.last_rx_complete_time s.now
    → Waited s (respect_inter_command_gap gap late s) gap s.last_rx_complete_time
unfolding respect_inter_command_gap
command_gap_waits gap late s h =
    let (a, b) = waits gap s.last_rx_complete_time late s h in
    let e = gap_after_eq gap s.last_rx_complete_time late s in
    record { same = ground arith; later = ground arith; respected = ground arith }

min_gap_waits :
    (message : Bytes) (m late : ℕ) (s : Serial)
    → AfterGap 0 (get (request_key message) s.last_request_tx) s.now
    → Waited s
        (respect_wire_min_gap message m late s)
        m
        (get (request_key message) s.last_request_tx)
unfolding respect_wire_min_gap
min_gap_waits message m late s h =
    let o = get (request_key message) s.last_request_tx in
    let (a, b) = waits m o late s h in
    let e = gap_after_eq m o late s in
    record { same = ground arith; later = ground arith; respected = ground arith }

-- Both clocks that the waits look at lie in the past.
pub record IsPast (message : Bytes) (s : Serial) : Type 0 where
  pub rx : AfterGap 0 s.last_rx_complete_time s.now
  pub tx : AfterGap 0 (get (request_key message) s.last_request_tx) s.now

-- The transmission happens at a time that respects both gaps.
abbrev pub TxTime : SerialModel → Bytes → ℕ → ℕ → ℕ → Serial → Serial → Type 0
TxTime config message m txn attempt s s' =
    (time : ℕ) × (s' ≡ record_tx txn attempt message (record s { now = time }))
    × AfterGap config.inter_command_gap s.last_rx_complete_time time
    × AfterGap m (get (request_key message) s.last_request_tx) time
    × (s.now ≤ time)

second_wait :
    (config : SerialModel) (message : Bytes) (m txn attempt late drain t₁ : ℕ) (s : Serial)
    → IsPast message s
    → s.now ≤ t₁
    → AfterGap config.inter_command_gap s.last_rx_complete_time t₁
    → TxTime config message m txn attempt s (
        record_tx txn attempt message
          (elapse drain (respect_wire_min_gap message m late (record s { now = t₁ }))))
second_wait config message m txn attempt late drain t₁ s past later after =
    let o = get (request_key message) s.last_request_tx in
    let s₁ : Serial = record s { now = t₁ } in
    let s₂ : Serial = respect_wire_min_gap message m late s₁ in
    let w : Waited s₁ s₂ m o =
      min_gap_waits message m late s₁ (AfterGap-mono 0 o s.now t₁ later past.tx) in
    let time : ℕ = s₂.now + drain in
    (
      time,
      ap (λ x. record_tx txn attempt message (elapse drain x)) w.same,
      AfterGap-mono config.inter_command_gap s.last_rx_complete_time t₁ time
          (omega (arith, w.later)) after,
      AfterGap-mono m o s₂.now time (omega arith) w.respected,
      omega (arith, w.later),
    )

pub before_tx_time :
    (config : SerialModel) (message : Bytes) (m txn attempt : ℕ) (e : Exchange) (s : Serial)
    → IsPast message s
    → TxTime config message m txn attempt s (before_tx config message m txn attempt e s)
unfolding before_tx waited
before_tx_time config message m txn attempt e s past =
    let s₁ : Serial = respect_inter_command_gap config.inter_command_gap e.late_gap s in
    let w : Waited s s₁ config.inter_command_gap s.last_rx_complete_time =
      command_gap_waits config.inter_command_gap e.late_gap s past.rx in
    subst
      (λ x. TxTime config message m txn attempt s (
        record_tx txn attempt message
          (elapse e.drain_time (respect_wire_min_gap message m e.late_interval x))))
      (sym w.same)
      (second_wait config message m txn attempt e.late_interval e.drain_time s₁.now s past w.later
        w.respected)
