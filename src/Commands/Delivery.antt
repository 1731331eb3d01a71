-- ===== src/Commands/Delivery.antt =====
-- From the bytes that the board sends to what `_send_command` returns: the reads, the checks of the
-- serial layer, the parser and the check of the header, together.
use crk_io_board.Base.{
  ℕ, ◌≡◌, refl, ◌∙◌, ap, true, none, some, [], ◌++◌, Bytes, Text, arith, same_text_refl,
}
use crk_io_board.Errors.{ok, ◌>>=◌}
use crk_io_board.Protocol.{parse_response}
use crk_io_board.Protocol.Library.{Construct}
use crk_io_board.Protocol.Frames.{
  Reply, reply_command, reply_subcommand, reply_key, reply_data, reply_frame, IsReply, lrc_of, join,
  initialized, calibrated, errors_cleared, rebooting, deadbolt_moved, product_id_written,
  manufacturing, weights, io_status, error_list,
}
use crk_io_board.Protocol.RoundTrip.{parse_response-reply, reply_ctx}
use crk_io_board.Serial.Frame.{response_checksum_valid, response_codes}
use crk_io_board.Serial.Frame.Replies.{response_checksum_valid-frame, response_codes-reply}
use crk_io_board.Serial.State.{SerialModel}
use crk_io_board.Serial.Exchange.{whole, fetch_with_timeout, drain_error, received_after}
use crk_io_board.Serial.Framing.{NoEtx, fetch_with_timeout-frame}
use crk_io_board.Serial.Fetch.{Board, fetch, judge, accepted}
use crk_io_board.Serial.Fetch.Steps.{verdict}
use crk_io_board.Serial.Fetch.Outcomes.{is_retriable, outcome}
use crk_io_board.Serial.Fetch.Contract.{IsReady, fetch_ends}
use crk_io_board.Commands.{Service, check_header, received}

-- The board's first answer to the transmission is the frame of the reply, with no ETX in its data,
-- and the drain before it raises nothing.
pub record IsDelivered (r : Reply) (board : Board) : Type 0 where
  pub well_formed : IsReply r
  pub plain : NoEtx (reply_key r ++ reply_data r)
  pub undisturbed : drain_error (board.exchange 1) ≡ none
  pub arrives : (board.exchange 1).arrivals ≡ reply_frame r

valid_reply : (r : Reply) → response_checksum_valid (reply_frame r) ≡ true
valid_reply initialized = response_checksum_valid-frame b'M' b'C' b'P' b'D' []
valid_reply calibrated = response_checksum_valid-frame b'M' b'C' b'L' b'Z' []
valid_reply errors_cleared = response_checksum_valid-frame b'M' b'C' b'E' b'Z' []
valid_reply rebooting = response_checksum_valid-frame b'M' b'C' b'R' b'T' []
valid_reply (deadbolt_moved u) =
    response_checksum_valid-frame b'M' b'C' b'D' b'C' (reply_data (deadbolt_moved u))
valid_reply (product_id_written p) = response_checksum_valid-frame b'M' b'C' b'W' b'P' p
valid_reply (manufacturing p v) = response_checksum_valid-frame b'R' b'Q' b'M' b'I' (p ++ v)
valid_reply (weights ws) = response_checksum_valid-frame b'R' b'Q' b'I' b'W' (join ws)
valid_reply (io_status d b) = response_checksum_valid-frame b'R' b'Q' b'I' b'D' (d ++ b)
valid_reply (error_list es) = response_checksum_valid-frame b'R' b'Q' b'E' b'R' (join es)

judge_accepts :
    (cmd sub : Text) (f rest : Bytes)
    → response_checksum_valid f ≡ true
    → response_codes f ≡ some (cmd, sub)
    → judge (some (cmd, sub)) (whole f rest) ≡ accepted f
unfolding judge
judge_accepts cmd sub f rest valid named =
    rw (valid, named, same_text_refl cmd, same_text_refl sub) refl

accepted_reply :
    (r : Reply) (board : Board)
    → IsDelivered r board
    → verdict (some (reply_command r, reply_subcommand r)) (board.exchange 1)
      ≡ accepted (reply_frame r)
accepted_reply r board d =
    let stall = (board.exchange 1).stall in
    let expected = some (reply_command r, reply_subcommand r) in
    ap (λ o. judge expected (received_after o (board.exchange 1).arrivals stall)) d.undisturbed
    ∙ ap (λ b. judge expected (fetch_with_timeout b stall)) d.arrives
    ∙ ap (judge expected) (
        fetch_with_timeout-frame (reply_key r) (reply_data r) (lrc_of (reply_key r) (reply_data r))
          [] stall d.plain)
    ∙ judge_accepts (reply_command r) (reply_subcommand r) (reply_frame r) [] (valid_reply r)
        (response_codes-reply r)

header_checked :
    (r : Reply)
    → check_header (reply_command r) (reply_subcommand r) (reply_ctx r) ≡ ok (reply_ctx r)
header_checked r = rw (same_text_refl (reply_command r), same_text_refl (reply_subcommand r)) refl

module _ (L : Construct) (r : Reply) (request_message : Bytes) (m : ℕ) (config : SerialModel)
    (board : Board) (s : Service) where
  fetched :
      IsReady config board s.serial
      → IsDelivered r board
      → (fetch request_message
          (some (reply_command r))
          (some (reply_subcommand r))
          m
          board
          s.serial).1
        ≡ ok (reply_frame r)
  fetched ready d =
      let v = accepted_reply r board d in
      (fetch_ends config request_message (some (reply_command r)) (some (reply_subcommand r)) m
        board s.serial ready 1 (omega arith) ready.tries (λ j lo hi. absurd (omega arith))
        (ap is_retriable v)).0
      ∙ ap outcome v

  -- If the board answers the first transmission with the frame of a reply, the parsed reply comes
  -- out of the whole chain: the reads, the serial layer's checks, the parser and the header check.
  pub received-reply :
      IsReady config board s.serial
      → IsDelivered r board
      → (received L
          (reply_command r)
          (reply_subcommand r)
          (fetch request_message
            (some (reply_command r))
            (some (reply_subcommand r))
            m
            board
            s.serial)
          s).1
        ≡ ok (reply_ctx r)
  received-reply ready d =
      ap
        (λ x. x >>= λ b. parse_response L b >>= check_header (reply_command r) (reply_subcommand r))
        (fetched ready d)
      ∙ ap (λ x. x >>= check_header (reply_command r) (reply_subcommand r))
          (parse_response-reply L r d.well_formed)
      ∙ header_checked r
