-- ===== src/Errors.antt =====
-- src/exceptions.py: the error codes, the exception classes, and calls that may raise.
-- An exception keeps its class and its code; the message and the details dictionary are left out.
mod Codes
mod Tests
pub use Codes.*
use crk_io_board.Base.{◌≡◌, refl, Option, none, some}

-- The subclasses of `IOBoardError`.
pub data ErrorClass : Type 0 where
  configuration_error serial_communication_error protocol_error validation_error : ErrorClass
  device_error : ErrorClass

pub record IoBoardError : Type 0 where
  pub class : ErrorClass
  pub error_code : ErrorCode

-- The default of each constructor's `error_code` argument.
abbrev pub default_code : ErrorClass → ErrorCode
default_code configuration_error = config_invalid
default_code serial_communication_error = serial_connection_failed
default_code protocol_error = protocol_parse_failed
default_code validation_error = validation_invalid_input
default_code device_error = device_command_failed

-- Exceptions of other classes that the code lets through or catches by `except Exception`.
pub data OtherError : Type 0 where
  value_error key_error type_error os_error queue_shut_down other_error : OtherError

pub data Raised : Type 0 where
  io_board : IoBoardError → Raised
  other : OtherError → Raised

pub data Result {ℓ} (A : Type ℓ) : Type ℓ where
  ok : A → Result A
  raise : Raised → Result A

abbrev pub raise_code {ℓ} : {A : Type ℓ} → ErrorClass → ErrorCode → Result A
raise_code c e = raise (io_board (record { class = c; error_code = e }))

abbrev pub raise_default {ℓ} : {A : Type ℓ} → ErrorClass → Result A
raise_default c = raise_code c (default_code c)

infixl 5 ◌>>=◌ ◌>>◌
abbrev pub ◌>>=◌ {ℓ κ} : {A : Type ℓ} {B : Type κ} → Result A → (A → Result B) → Result B
ok a >>= f = f a
raise e >>= f = raise e

abbrev pub ◌>>◌ {ℓ κ} : {A : Type ℓ} {B : Type κ} → Result A → Result B → Result B
m >> k = m >>= λ _. k
