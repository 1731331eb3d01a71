-- ===== src/Serial/Frame.antt =====
-- The pure checks that src/services/io_board/serial_io.py makes on a frame, before the parser sees it.
pub mod Corruption
pub mod Replies
use crk_io_board.Base.{
  ℕ, ◌-◌, ◌≡◌, Bool, true, false, ◌&&◌, Option, none, some, List, [], ◌∷◌, ◌++◌, Bytes, Text, codes,
  same_text, ltb, leb, ◌==◌, take, drop, length, if◌then◌else◌,
}
use crk_io_board.Protocol.Checksum.{reduce_xor}
use crk_io_board.Protocol.Format.{is_ascii}

abbrev pub min_frame_length : ℕ
min_frame_length = 7

-- `bs[:-1]`, and the last byte as a list, `bs[-1:]`
abbrev pub init : Bytes → Bytes
init [] = []
init (b ∷ []) = []
init (b ∷ c ∷ bs) = b ∷ init (c ∷ bs)

abbrev pub last : Bytes → Bytes
last [] = []
last (b ∷ []) = b ∷ []
last (b ∷ c ∷ bs) = last (c ∷ bs)

-- _response_codes
unfoldable pub response_codes : Bytes → Option (Text × Text)
response_codes response =
    if ltb (length response) 5
    then none
    else if same_text (take 1 response) (0x02 ∷ [])
    then (let cmd = take 2 (drop 1 response) in
        let sub = take 2 (drop 3 response) in
        if is_ascii cmd && is_ascii sub then some (cmd, sub) else none)
    else none

-- _xor_checksum
unfoldable pub xor_checksum : Bytes → ℕ
unfolding reduce_xor
xor_checksum message = reduce_xor 0 message

-- `response[0:1] == b"\x02"` and `response[-2:-1] == b"\x03"`
abbrev pub has_markers : Bytes → Bool
has_markers response =
    same_text (take 1 response) (0x02 ∷ []) && same_text (last (init response)) (0x03 ∷ [])

-- `_xor_checksum(response[1:-1]) == response[-1]`
unfoldable pub checksum_matches : Bytes → Bool
unfolding xor_checksum
checksum_matches response = same_text (xor_checksum (drop 1 (init response)) ∷ []) (last response)

-- _response_checksum_valid
unfoldable pub response_checksum_valid : Bytes → Bool
unfolding checksum_matches
response_checksum_valid response =
    if ltb (length response) min_frame_length
    then false
    else if has_markers response
    then checksum_matches response
    else false

-- _RESPONSE_FRAME_LENGTHS
abbrev pub response_frame_lengths : List ((Text × Text) × ℕ)
response_frame_lengths =
    ((codes "MC", codes "PD"), 7)
    ∷ ((codes "MC", codes "DC"), 8)
    ∷ ((codes "MC", codes "LZ"), 7)
    ∷ ((codes "MC", codes "WP"), 18)
    ∷ ((codes "MC", codes "EZ"), 7)
    ∷ ((codes "MC", codes "RT"), 7)
    ∷ ((codes "RQ", codes "MI"), 20)
    ∷ ((codes "RQ", codes "IW"), 67)
    ∷ ((codes "RQ", codes "ID"), 19)
    ∷ ((codes "RQ", codes "ER"), 23)
    ∷ []

abbrev pub same_codes : Text × Text → Text × Text → Bool
same_codes (a, b) (c, d) = same_text a c && same_text b d

abbrev pub length_for : Text × Text → List ((Text × Text) × ℕ) → Option ℕ
length_for k [] = none
length_for k ((j, n) ∷ table) = if same_codes j k then some n else length_for k table

-- The parts of the line that `_frame_diagnostics` writes.
pub data Shape : Type 0 where
  request_sized_or_empty_response unknown known_response_size : Shape
  size_mismatch : ℕ → Shape

pub data ChecksumNote : Type 0 where
  valid : ℕ → ChecksumNote
  invalid : (received : ℕ) → (calculated : ℕ) → ChecksumNote
  unavailable : ChecksumNote

abbrev expected_length : Option (Text × Text) → Option ℕ
expected_length none = none
expected_length (some codes') = length_for codes' response_frame_lengths

abbrev shape_for : ℕ → Option ℕ → Shape
shape_for n none = if n == 7 then request_sized_or_empty_response else unknown
shape_for n (some m) =
    if n == 7
    then request_sized_or_empty_response
    else if n == m
    then known_response_size
    else size_mismatch m

abbrev checksum_note : ℕ → Bytes → ChecksumNote
checksum_note calculated [] = unavailable
checksum_note calculated (received ∷ _) =
    if calculated == received then valid received else invalid received calculated

-- _frame_diagnostics
unfoldable pub frame_diagnostics : Bytes → ℕ × Shape × ChecksumNote
unfolding response_codes xor_checksum
frame_diagnostics response = (
  length response,
  shape_for (length response) (expected_length (response_codes response)),
  if leb 3 (length response) && has_markers response
      then checksum_note (xor_checksum (drop 1 (init response))) (last response)
      else unavailable,
)
