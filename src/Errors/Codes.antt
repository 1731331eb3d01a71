-- ===== src/Errors/Codes.antt =====
-- `class ErrorCode(str, Enum)` of src/exceptions.py.
use crk_io_board.Base.{
  ◌≡◌, refl, ap, Bool, true, false, ◌&&◌, Option, none, some, List, [], ◌∷◌, Text, codes, same_text,
  leb, ◌==◌, if◌then◌else◌, ℕ,
}

pub data ErrorCode : Type 0 where
  config_invalid config_missing : ErrorCode
  serial_port_not_found serial_port_busy : ErrorCode
  serial_port_permission_denied serial_connection_failed : ErrorCode
  serial_timeout serial_read_error : ErrorCode
  serial_write_error serial_incomplete_read : ErrorCode
  protocol_build_failed protocol_parse_failed : ErrorCode
  protocol_checksum_mismatch protocol_invalid_command : ErrorCode
  protocol_invalid_response protocol_malformed_data : ErrorCode
  validation_invalid_input validation_out_of_range : ErrorCode
  validation_invalid_format validation_missing_required : ErrorCode
  device_not_initialized device_busy : ErrorCode
  device_error_state device_command_failed : ErrorCode
  internal_error unknown_error : ErrorCode

-- The `str` value of a member.
abbrev pub value : ErrorCode → Text
value config_invalid = codes "E1001"
value config_missing = codes "E1002"
value serial_port_not_found = codes "E2001"
value serial_port_busy = codes "E2002"
value serial_port_permission_denied = codes "E2003"
value serial_connection_failed = codes "E2004"
value serial_timeout = codes "E2005"
value serial_read_error = codes "E2006"
value serial_write_error = codes "E2007"
value serial_incomplete_read = codes "E2008"
value protocol_build_failed = codes "E3001"
value protocol_parse_failed = codes "E3002"
value protocol_checksum_mismatch = codes "E3003"
value protocol_invalid_command = codes "E3004"
value protocol_invalid_response = codes "E3005"
value protocol_malformed_data = codes "E3006"
value validation_invalid_input = codes "E4001"
value validation_out_of_range = codes "E4002"
value validation_invalid_format = codes "E4003"
value validation_missing_required = codes "E4004"
value device_not_initialized = codes "E5001"
value device_busy = codes "E5002"
value device_error_state = codes "E5003"
value device_command_failed = codes "E5004"
value internal_error = codes "E9001"
value unknown_error = codes "E9999"

-- The members, in the order of their declaration.
abbrev members : List ErrorCode
members =
    config_invalid ∷ config_missing ∷ serial_port_not_found ∷ serial_port_busy
    ∷ serial_port_permission_denied ∷ serial_connection_failed ∷ serial_timeout ∷ serial_read_error
    ∷ serial_write_error ∷ serial_incomplete_read ∷ protocol_build_failed ∷ protocol_parse_failed
    ∷ protocol_checksum_mismatch ∷ protocol_invalid_command ∷ protocol_invalid_response
    ∷ protocol_malformed_data ∷ validation_invalid_input ∷ validation_out_of_range
    ∷ validation_invalid_format ∷ validation_missing_required ∷ device_not_initialized ∷ device_busy
    ∷ device_error_state ∷ device_command_failed ∷ internal_error ∷ unknown_error ∷ []

member_with : Text → List ErrorCode → Option ErrorCode
member_with s [] = none
member_with s (c ∷ cs) = if same_text (value c) s then some c else member_with s cs

-- `ErrorCode(s)`: the member with the value `s`.
pub of_value : Text → Option ErrorCode
unfolding member_with
of_value s = member_with s members

-- Looking a member up by its own value finds that member again, for every code of the table.
pub of_value-value : (c : ErrorCode) → of_value (value c) ≡ some c
unfolding of_value
of_value-value config_invalid = refl
of_value-value _ = refl

pub value_injective : (c d : ErrorCode) → value c ≡ value d → c ≡ d
value_injective c d h = cc (of_value-value c, of_value-value d, ap of_value h)

is_digit : ℕ → Bool
is_digit c = leb b'0' c && leb c b'9'

-- The pattern `^E\\d{4}$` that clients match.
pub has_code_format : Text → Bool
unfolding is_digit
has_code_format (e ∷ a ∷ b ∷ c ∷ d ∷ []) =
    e == b'E' && is_digit a && is_digit b && is_digit c && is_digit d
has_code_format _ = false

pub value-has_code_format : (c : ErrorCode) → has_code_format (value c) ≡ true
unfolding has_code_format
value-has_code_format config_invalid = refl
value-has_code_format _ = refl
