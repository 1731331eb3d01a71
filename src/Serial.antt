-- ===== src/Serial.antt =====
-- src/services/io_board/serial_io.py: the checks of a frame, the state of the module, the reads of an
-- exchange, and `fetch`.
pub mod Frame
pub mod State
pub mod Drain
pub mod Exchange
pub mod Framing
pub mod Fetch
pub mod Sample
mod Tests
