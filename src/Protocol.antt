-- ===== src/Protocol.antt =====
-- src/services/io_board/protocol.py: requests are built and responses parsed by two declarations
-- for the library `construct`, which is a parameter.
pub mod Checksum
pub mod Format
pub mod Library
pub mod Schema
pub mod Frames
pub mod Lrc
pub mod RoundTrip
pub mod Building
pub mod ErrorPaths
pub mod Sample
mod Tests
use crk_io_board.Base.{
  ◌≡◌, Bool, [], ◌∷◌, Bytes, Text, codes, same_text, ltb, length, take, if◌then◌else◌, map, ◌||◌,
  ◌&&◌, leb, ◌+◌, ℕ, drop, false, true, List, zero, suc, Option, some, none, ◌++◌,
}
use crk_io_board.Errors.{
  Result, ok, raise, raise_code, other, key_error as py_key_error, protocol_error,
  protocol_build_failed, protocol_checksum_mismatch, protocol_malformed_data, protocol_parse_failed,
}
use crk_io_board.Protocol.Format.{
  Name, command, subcommand, Value, text, Fields, Ctx, empty, Outcome, done, fail, Failure,
  is_construct_error,
}
use crk_io_board.Protocol.Library.{Construct}
use crk_io_board.Protocol.Schema.{request_protocol, response_protocol}

-- `part in s`
abbrev pub starts_with : Text → Text → Bool
starts_with [] s = true
starts_with (p ∷ ps) [] = false
starts_with (p ∷ ps) (c ∷ s) = same_text (p ∷ []) (c ∷ []) && starts_with ps s

abbrev pub contains : Text → Text → Bool
contains part [] = starts_with part []
contains part (c ∷ s) = starts_with part (c ∷ s) || contains part s

-- `str.lower` on ASCII
abbrev pub lower : Text → Text
lower = map (λ c. if leb b'A' c && leb c b'Z' then c + 32 else c)

module _ (L : Construct) where
  built : Outcome Bytes → Result Bytes
  built (done frame) = ok frame
  built (fail e) =
      if is_construct_error e
      then raise_code protocol_error protocol_build_failed
      else raise (other py_key_error)

  unfoldable pub build_request : Text → Text → Fields → Result Bytes
  unfolding built
  build_request cmd sub payload = built (
      L.build request_protocol
        (record {
          fields = (command, text cmd) ∷ (subcommand, text sub) ∷ [];
          payload = payload;
          length_mark = 0;
        })
        [])

  -- The code by the text of the library's error.
  classify : Text → Result Ctx
  classify error_msg =
      if contains (codes "checksum") error_msg
      then raise_code protocol_error protocol_checksum_mismatch
      else if contains (codes "const") error_msg
      then raise_code protocol_error protocol_malformed_data
      else raise_code protocol_error protocol_parse_failed

  parsed : Outcome Ctx → Result Ctx
  unfolding classify
  parsed (done response) = ok response
  parsed (fail e) =
      if is_construct_error e then classify (lower (L.message e)) else raise (other py_key_error)

  unfoldable pub parse_response : Bytes → Result Ctx
  unfolding parsed
  parse_response frame =
      parsed (L.parse response_protocol (record { all = frame; rest = frame }) empty)
