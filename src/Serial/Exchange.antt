-- ===== src/Serial/Exchange.antt =====
-- One exchange on the wire: what the board does in it, and `_fetch_with_timeout` of
-- src/services/io_board/serial_io.py over it.
use crk_io_board.Base.{
  ℕ, suc, ◌≡◌, true, Option, none, some, [], ◌∷◌, ◌++◌, Bytes, ◌==◌, if◌then◌else◌,
}
use crk_io_board.Errors.{OtherError}
use crk_io_board.Serial.Drain.{StaleRead, is_end, drain_stale_input}

-- What a read meets when the bytes that arrived in time are used up: its timeout, the end of the
-- stream, or another exception of the stream or the port.
pub data Stall : Type 0 where
  timed_out disconnected : Stall
  broken : OtherError → Stall

-- What the board and the event loop do in one attempt. The sleeps end late by `late_gap`,
-- `late_interval` and `late_retry`; draining and the exchange take some time. The reads of the drain
-- are a stream with no end of its own: an attempt that goes on has a read, the one numbered `pause`,
-- that ends the loop (`pauses`). A board that never pauses for 50 ms keeps the attempt, and the
-- mutex, for ever (`drain_endless` of Serial/Drain), and is no exchange.
pub record Exchange : Type 0 where
  pub late_gap : ℕ
  pub late_interval : ℕ
  pub stale : ℕ → StaleRead
  pub pause : ℕ
  pub pauses : is_end (stale pause) ≡ true
  pub drain_time : ℕ
  pub arrivals : Bytes
  pub stall : Stall
  pub exchange_time : ℕ
  pub late_retry : ℕ

pub data Received : Type 0 where
  whole : (response : Bytes) → (rest : Bytes) → Received
  stalled : Stall → Received

abbrev pub extend : Bytes → Received → Received
extend prefix (whole response rest) = whole (prefix ++ response) rest
extend prefix (stalled e) = stalled e

-- reader.readexactly(1)
abbrev pub read_one : Bytes → Stall → Received
read_one [] stall = stalled stall
read_one (b ∷ bs) stall = whole (b ∷ []) bs

-- reader.readuntil(b"\x03"): up to the first ETX and with it
abbrev pub read_until_etx : Bytes → Stall → Received
read_until_etx [] stall = stalled stall
read_until_etx (b ∷ bs) stall =
    if b == 0x03 then whole (b ∷ []) bs else extend (b ∷ []) (read_until_etx bs stall)

abbrev pub then_read : (Bytes → Stall → Received) → Stall → Received → Received
then_read step stall (whole response rest) = extend response (step rest stall)
then_read step stall (stalled e) = stalled e

-- _fetch_with_timeout: the first byte, the bytes to ETX, the checksum.
unfoldable pub fetch_with_timeout : Bytes → Stall → Received
fetch_with_timeout arrivals stall =
    then_read read_one stall (then_read read_until_etx stall (read_one arrivals stall))

-- The exception that leaves the drain, if one does; `pause + 1` turns are enough (`drain-ends`).
abbrev raised_by : Option (Option OtherError) → Option OtherError
raised_by none = none
raised_by (some x) = x

unfoldable pub drain_error : Exchange → Option OtherError
unfolding drain_stale_input
drain_error e = raised_by (drain_stale_input (suc e.pause) e.stale)

-- An exception of the drain leaves the attempt before anything is sent or read.
abbrev pub received_after : Option OtherError → Bytes → Stall → Received
received_after none arrivals stall = fetch_with_timeout arrivals stall
received_after (some x) arrivals stall = stalled (broken x)

abbrev pub received_in : Exchange → Received
received_in e = received_after (drain_error e) e.arrivals e.stall
