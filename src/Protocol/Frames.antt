-- ===== src/Protocol/Frames.antt =====
-- The frames of the protocol and the messages that the board and the host exchange, described apart
-- from the declarations of src/services/io_board/protocol.py: the layout is that of docs/PROTOCOL.md,
-- with the LRC over CMD to ETX, ETX included, as the documentation of protocol.py has it
-- (docs/PROTOCOL.md leaves ETX out).
use Prim.Native.Nat.{bit_xor}
use crk_io_board.Base.{
  ℕ, ◌-◌, ◌≤◌, ◌≡◌, Bool, true, List, [], ◌∷◌, ◌++◌, Bytes, Text, codes, length, if◌then◌else◌,
  replicate,
}
use crk_io_board.Protocol.Format.{
  text, texts, Fields, deadbolt, product_id, sw_version, loadcells, door, errors, is_ascii,
  strip_nul,
}

-- [STX][CMD][SUBCMD][DATA][ETX][LRC]
abbrev pub frame_with : Text → Bytes → ℕ → Bytes
frame_with key d lrc = 0x02 ∷ (key ++ d ++ 0x03 ∷ []) ++ lrc ∷ []

-- The XOR of bytes with one that is given, byte after byte.
abbrev pub xor_from : ℕ → Bytes → ℕ
xor_from acc [] = acc
xor_from acc (b ∷ bs) = xor_from (bit_xor acc b) bs

-- The LRC: the XOR of the bytes of CMD, SUBCMD, DATA and ETX.
abbrev pub lrc_of : Text → Bytes → ℕ
lrc_of key d = xor_from 0 (key ++ d ++ 0x03 ∷ [])

abbrev pub frame : Text → Bytes → Bytes
frame key d = frame_with key d (lrc_of key d)

-- A text of fixed width, with no padding.
pub record IsField (n : ℕ) (s : Text) : Type 0 where
  pub width : length s ≡ n
  pub ascii : is_ascii s ≡ true
  pub unpadded : strip_nul s ≡ s

abbrev pub AllFields : ℕ → List Text → Type 0
AllFields n [] = Unit
AllFields n (s ∷ ss) = IsField n s × AllFields n ss

abbrev pub join : List Text → Text
join [] = []
join (s ∷ ss) = s ++ join ss

-- What the board answers.
pub data Reply : Type 0 where
  initialized calibrated errors_cleared rebooting : Reply
  deadbolt_moved : Bool → Reply
  product_id_written : Text → Reply
  manufacturing : Text → Text → Reply
  weights : List Text → Reply
  io_status : Text → Text → Reply
  error_list : List Text → Reply

abbrev pub reply_command : Reply → Text
reply_command initialized = codes "MC"
reply_command calibrated = codes "MC"
reply_command errors_cleared = codes "MC"
reply_command rebooting = codes "MC"
reply_command (deadbolt_moved b) = codes "MC"
reply_command (product_id_written s) = codes "MC"
reply_command _ = codes "RQ"

abbrev pub reply_subcommand : Reply → Text
reply_subcommand initialized = codes "PD"
reply_subcommand calibrated = codes "LZ"
reply_subcommand errors_cleared = codes "EZ"
reply_subcommand rebooting = codes "RT"
reply_subcommand (deadbolt_moved b) = codes "DC"
reply_subcommand (product_id_written s) = codes "WP"
reply_subcommand (manufacturing p v) = codes "MI"
reply_subcommand (weights ws) = codes "IW"
reply_subcommand (io_status d b) = codes "ID"
reply_subcommand (error_list es) = codes "ER"

abbrev pub reply_key : Reply → Text
reply_key r = reply_command r ++ reply_subcommand r

abbrev pub reply_data : Reply → Bytes
reply_data (deadbolt_moved unlock) = (if unlock then b'O' else b'C') ∷ []
reply_data (product_id_written s) = s
reply_data (manufacturing p v) = p ++ v
reply_data (weights ws) = join ws
reply_data (io_status d b) = d ++ b
reply_data (error_list es) = join es
reply_data _ = []

abbrev pub reply_frame : Reply → Bytes
reply_frame r = frame (reply_key r) (reply_data r)

abbrev pub reply_fields : Reply → Fields
reply_fields (deadbolt_moved unlock) =
    (deadbolt, text (if unlock then codes "UNLOCK" else codes "LOCKED")) ∷ []
reply_fields (product_id_written s) = (product_id, text s) ∷ []
reply_fields (manufacturing p v) = (product_id, text p) ∷ (sw_version, text v) ∷ []
reply_fields (weights ws) = (loadcells, texts ws) ∷ []
reply_fields (io_status d b) = (door, text d) ∷ (deadbolt, text b) ∷ []
reply_fields (error_list es) = (errors, texts es) ∷ []
reply_fields _ = []

abbrev pub IsReply : Reply → Type 0
IsReply (product_id_written s) = IsField 11 s
IsReply (manufacturing p v) = IsField 11 p × IsField 2 v
IsReply (weights ws) = (length ws ≡ 10) × AllFields 6 ws
IsReply (io_status d b) = IsField 6 d × IsField 6 b
IsReply (error_list es) = (length es ≡ 4) × AllFields 4 es
IsReply _ = Unit

-- What the host asks.
pub data Request : Type 0 where
  initialize calibrate clear_errors reboot : Request
  move_deadbolt : Bool → Request
  write_product_id : Text → Request
  get_manufacturing get_weights get_io_status get_errors : Request

abbrev pub request_command : Request → Text
request_command get_manufacturing = codes "RQ"
request_command get_weights = codes "RQ"
request_command get_io_status = codes "RQ"
request_command get_errors = codes "RQ"
request_command _ = codes "MC"

abbrev pub request_subcommand : Request → Text
request_subcommand initialize = codes "PD"
request_subcommand calibrate = codes "LZ"
request_subcommand clear_errors = codes "EZ"
request_subcommand reboot = codes "RT"
request_subcommand (move_deadbolt b) = codes "DC"
request_subcommand (write_product_id s) = codes "WP"
request_subcommand get_manufacturing = codes "MI"
request_subcommand get_weights = codes "IW"
request_subcommand get_io_status = codes "ID"
request_subcommand get_errors = codes "ER"

-- The payload that src/services/io_board/commands.py passes for it.
abbrev pub request_fields : Request → Fields
request_fields (move_deadbolt unlock) =
    (deadbolt, text (if unlock then codes "OPEN" else codes "CLOSE")) ∷ []
request_fields (write_product_id s) = (product_id, text s) ∷ []
request_fields _ = []

abbrev pub request_data : Request → Bytes
request_data (move_deadbolt unlock) = (if unlock then b'O' else b'C') ∷ []
request_data (write_product_id s) = s ++ replicate (11 - length s) 0
request_data _ = []

-- A product ID is ASCII and fits its field.
abbrev pub IsRequest : Request → Type 0
IsRequest (write_product_id s) = (is_ascii s ≡ true) × (length s ≤ 11)
IsRequest _ = Unit

abbrev pub request_frame : Request → Bytes
request_frame r = frame (request_command r ++ request_subcommand r) (request_data r)
