-- ===== src/Errors/Tests.antt =====
-- The theorems on src/exceptions.py at one code.
use crk_io_board.Base.{◌≡◌, some}
use crk_io_board.Errors.Codes.{of_value, of_value-value, value, serial_timeout}

of_value-value_test : of_value (value serial_timeout) ≡ some serial_timeout
of_value-value_test = of_value-value serial_timeout
