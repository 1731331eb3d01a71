-- ===== src/Serial/Tests.antt =====
-- The theorems on src/services/io_board/serial_io.py at concrete frames, states and boards.
use crk_io_board.Base.{
  ℕ, ◌+◌, ◌≤◌, ◌<◌, ◌≡◌, refl, inr, true, false, some, [], ◌∷◌, ◌++◌, Bytes, codes, arith, ap, ◌∙◌,
  length,
}
use crk_io_board.Errors.{Result, ok, raise, other, os_error}
use crk_io_board.Protocol.Checksum.{reduce_xor}
use crk_io_board.Protocol.Frames.{frame, Reply, io_status, reply_frame, IsReply}
use crk_io_board.Serial.Frame.{
  response_checksum_valid, checksum_matches, xor_checksum, response_codes, length_for,
  response_frame_lengths,
}
use crk_io_board.Serial.Frame.Corruption.{response_checksum_valid_damaged}
use crk_io_board.Serial.Frame.Replies.{
  response_checksum_valid-frame, response_codes-reply, response_frame_lengths-reply,
}
use crk_io_board.Serial.State.{Serial, opened, configure_serial}
use crk_io_board.Serial.Exchange.{fetch_with_timeout, drain_error}
use crk_io_board.Serial.Drain.{drain_stale_input}
use crk_io_board.Serial.Sample.{
  calibrated_frame, settings, unset, ready_state, exchange_with, slow_board, breaking_board,
  silent_board,
}
use crk_io_board.Serial.Fetch.{Board, fetch, judge, accepted, timeout, failed}
use crk_io_board.Serial.Fetch.Steps.{count_sent, verdict}
use crk_io_board.Serial.Fetch.Outcomes.{is_retriable, outcome, last_error}
use crk_io_board.Serial.Fetch.Contract.{IsReady, fetch_ends, fetch_exhausts}
use crk_io_board.Serial.Fetch.Safety.{fetch-IsAnswer, IsAnswer}
use crk_io_board.Serial.Fetch.Spacing.{Quiet}
use crk_io_board.Serial.Fetch.QuietTime.{Paced}
use crk_io_board.Serial.Fetch.History.{Call, calls, calls_keep-Quiet}

abbrev door_reply : Reply
door_reply = io_status (codes "CLOSED") (codes "LOCKED")

door_reply_fields : IsReply door_reply
door_reply_fields = (
  record { width = refl; ascii = refl; unpadded = refl },
  record { width = refl; ascii = refl; unpadded = refl },
)

calibrated_valid : response_checksum_valid calibrated_frame ≡ true
unfolding response_checksum_valid checksum_matches xor_checksum reduce_xor
calibrated_valid = refl

response_checksum_valid_damaged_example :
    response_checksum_valid (0x02 ∷ codes "MDLZ" ++ 0x03 ∷ 0x1b ∷ []) ≡ false
response_checksum_valid_damaged_example =
    response_checksum_valid_damaged (0x02 ∷ b'M' ∷ []) b'C' b'D' (codes "LZ" ++ 0x03 ∷ 0x1b ∷ [])
      (ground arith) (omega arith) (λ e. omega arith) calibrated_valid

response_checksum_valid-frame_test :
    response_checksum_valid (frame (codes "RQID") (codes "CLOSEDLOCKED")) ≡ true
response_checksum_valid-frame_test =
    response_checksum_valid-frame b'R' b'Q' b'I' b'D' (codes "CLOSEDLOCKED")

response_codes-reply_test : response_codes (reply_frame door_reply) ≡ some (codes "RQ", codes "ID")
response_codes-reply_test = response_codes-reply door_reply

response_frame_lengths-reply_example :
    length_for (codes "RQ", codes "ID") response_frame_lengths
    ≡ some (length (reply_frame door_reply))
response_frame_lengths-reply_example = response_frame_lengths-reply door_reply door_reply_fields

ready : (b : Board) → b.opening ≡ opened → IsReady settings b ready_state
ready b h = record { set = refl; tries = omega arith; opens = inr h }

answers :
    verdict (some (codes "MC", codes "LZ")) (slow_board.exchange 2) ≡ accepted calibrated_frame
unfolding judge fetch_with_timeout drain_error drain_stale_input response_codes
    response_checksum_valid checksum_matches xor_checksum reduce_xor
answers = refl

silence : verdict (some (codes "MC", codes "LZ")) (exchange_with []) ≡ timeout
unfolding judge fetch_with_timeout drain_error drain_stale_input
silence = refl

abbrev calibrate : Board → Serial × Result Bytes
calibrate b = fetch (codes "x") (some (codes "MC")) (some (codes "LZ")) 0 b ready_state

answered_before :
    (j : ℕ)
    → 1 ≤ j
    → j < 2
    → is_retriable (verdict (some (codes "MC", codes "LZ")) (slow_board.exchange j)) ≡ true
unfolding judge fetch_with_timeout drain_error drain_stale_input
answered_before j lo hi = ground arith

fetch_ends_example :
    ((calibrate slow_board).1
      ≡ outcome (verdict (some (codes "MC", codes "LZ")) (slow_board.exchange 2)))
    × (count_sent (calibrate slow_board).0.wire ≡ 2)
unfolding drain_error drain_stale_input
fetch_ends_example =
    fetch_ends settings (codes "x") (some (codes "MC")) (some (codes "LZ")) 0 slow_board ready_state
      (ready slow_board refl) 2 (omega arith) (omega arith) answered_before
      (ap is_retriable answers)

unplugged_failed :
    verdict (some (codes "MC", codes "LZ")) (breaking_board.exchange 2) ≡ failed os_error
unfolding judge drain_error drain_stale_input
unplugged_failed = refl

answered_until :
    (j : ℕ)
    → 1 ≤ j
    → j < 2
    → is_retriable (verdict (some (codes "MC", codes "LZ")) (breaking_board.exchange j)) ≡ true
unfolding judge fetch_with_timeout drain_error drain_stale_input
answered_until j lo hi = ground arith

-- The second attempt ends in its drain: one transmission.
fetch_ends_drain_test :
    ((calibrate breaking_board).1 ≡ raise (other os_error))
    × (count_sent (calibrate breaking_board).0.wire + 1 ≡ 2)
unfolding drain_error drain_stale_input
fetch_ends_drain_test =
    (fetch_ends settings (codes "x") (some (codes "MC")) (some (codes "LZ")) 0 breaking_board
      ready_state (ready breaking_board refl) 2 (omega arith) (omega arith) answered_until
      (ap is_retriable unplugged_failed)).1

fetch_exhausts_example :
    ((calibrate silent_board).1
      ≡ last_error (verdict (some (codes "MC", codes "LZ")) (exchange_with [])))
    × (count_sent (calibrate silent_board).0.wire ≡ 3)
fetch_exhausts_example =
    fetch_exhausts settings (codes "x") (some (codes "MC")) (some (codes "LZ")) 0 silent_board
      ready_state (ready silent_board refl) (λ j lo hi. ap is_retriable silence)

slow_answer : (calibrate slow_board).1 ≡ ok calibrated_frame
slow_answer =
    (fetch_ends settings (codes "x") (some (codes "MC")) (some (codes "LZ")) 0 slow_board
      ready_state (ready slow_board refl) 2 (omega arith) (omega arith) answered_before
      (ap is_retriable answers)).0
    ∙ ap outcome answers

fetch-IsAnswer_example :
    IsAnswer (codes "x") (codes "MC") (codes "LZ") 0 slow_board calibrated_frame
fetch-IsAnswer_example =
    fetch-IsAnswer (codes "x") (codes "MC") (codes "LZ") 0 slow_board ready_state calibrated_frame
      slow_answer

abbrev weigh : Call
weigh = record {
  idle = 5;
  message = codes "RQIW!";
  expected_command = some (codes "RQ");
  expected_subcommand = some (codes "IW");
  min_send_interval = 700000;
  board = slow_board;
}

calls_keep-Quiet_example :
    let w = (calls (weigh ∷ weigh ∷ []) (configure_serial settings unset)).wire in
    Quiet 50000 w × Paced 700000 (codes "RQIW!") w
calls_keep-Quiet_example =
    calls_keep-Quiet settings 700000 (codes "RQIW!") (weigh ∷ weigh ∷ []) unset refl
      ((λ e. omega arith), ((λ e. omega arith), tt))
