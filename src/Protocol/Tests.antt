-- ===== src/Protocol/Tests.antt =====
-- The theorems on src/services/io_board/protocol.py at concrete messages, with a library that has
-- the laws of the interface.
use crk_io_board.Base.{◌≡◌, refl, ◌≢◌, Text, codes, replicate, arith}
use crk_io_board.Protocol.Checksum.{calculate_checksum}
use crk_io_board.Errors.{ok, raise_code, protocol_error, protocol_checksum_mismatch}
use crk_io_board.Protocol.{build_request, parse_response}
use crk_io_board.Protocol.Sample.{library}
use crk_io_board.Protocol.Frames.{
  Reply, weights, write_product_id, reply_frame, request_frame, request_fields, frame_with, lrc_of,
  reply_key, reply_data, IsReply, IsField,
}
use crk_io_board.Protocol.RoundTrip.{parse_response-reply, parse_response-wrong_lrc, reply_ctx}
use crk_io_board.Protocol.Building.{build_request-frame}
use crk_io_board.Protocol.ErrorPaths.{parse_response-IsProtocolResult, IsProtocolResult}

abbrev reading : Text
reading = codes "+01234"

abbrev reply : Reply
reply = weights (replicate 10 reading)

field : IsField 6 reading
field = record { width = refl; ascii = refl; unpadded = refl }

readings : IsReply reply
readings = (
  refl,
  (field, (field, (field, (field, (field, (field, (field, (field, (field, (field, tt)))))))))),
)

parse_response-reply_example : parse_response library (reply_frame reply) ≡ ok (reply_ctx reply)
parse_response-reply_example = parse_response-reply library reply readings

no_lrc : 0 ≢ lrc_of (reply_key reply) (reply_data reply)
unfolding calculate_checksum
no_lrc e = omega arith

parse_response-wrong_lrc_example :
    parse_response library (frame_with (reply_key reply) (reply_data reply) 0)
    ≡ raise_code protocol_error protocol_checksum_mismatch
parse_response-wrong_lrc_example = parse_response-wrong_lrc library reply 0 readings no_lrc refl

build_request-frame_example :
    build_request library
      (codes "MC")
      (codes "WP")
      (request_fields (write_product_id (codes "BWSM-000001")))
    ≡ ok (request_frame (write_product_id (codes "BWSM-000001")))
build_request-frame_example =
    build_request-frame library (write_product_id (codes "BWSM-000001")) (refl, omega arith)

parse_response-IsProtocolResult_example :
    IsProtocolResult (parse_response library (codes "garbage"))
parse_response-IsProtocolResult_example = parse_response-IsProtocolResult library (codes "garbage")
