-- ===== src/Lib.antt =====
-- A model of the CRK IO board service (Python, under src/): the HTTP and SSE host of a vending
-- machine's IO board, which reads loadcells, a door sensor and a deadbolt over a serial line.
--
-- The parts, from the wire up, and the file of each:
--   * Errors models src/exceptions.py: the error codes, and the exceptions by their class and code.
--   * Protocol models src/services/io_board/protocol.py: the checksum, `RequestProtocol` and
--     `ResponseProtocol` as data, `build_request` and `parse_response`. The library `construct` is a
--     parameter (Protocol/Library): its `parse` and `build`, with one law for each kind of field as
--     its documentation states it, and the text of its errors.
--   * Serial models src/services/io_board/serial_io.py: the checks on a frame (Serial/Frame), the
--     globals of the module as one record with the clock and the traffic (Serial/State), the drain
--     of the input (Serial/Drain), the reads of one exchange (Serial/Exchange), and `fetch` with its
--     retries (Serial/Fetch).
--   * Readings and Sanitizer model src/services/io_board/sanitizer.py: the text and the number of a
--     reading, the sign guard, the quantization, and whole frames.
--   * Commands models src/services/io_board/commands.py, with the enumerations of io_types.py: every
--     command over the parts above, the throttle cache, and what a calibration resets.
--   * Polling models src/services/polling: the data sources, the queues, the subscribers and a pass
--     of the loop of `PollingService`.
--   * Recording models src/services/recording.py, and ErrorState src/services/error_state_mgmt.py,
--     which both read a queue of the polling service.
--   * Numbers has the fractions that stand for floats, and their rounding (Numbers/Binary64).
--   * Filters models src/io_board/filters.py and Detector src/io_board/events.py: the filters of a
--     loadcell, and the comparison of each of its readings with the one before.
--   * Stream models src/api/v1/routers/sse.py: the check of a request (Stream/Request) with
--     Python's `float` of its thresholds (Stream/PythonFloat), the polling
--     tasks (Stream/Tasks), and a client's session over the polling services (Stream/Session), which
--     runs one detector.
--   * Diagnosis models tools/post_move_diag.py: the statistics of the channels, the checks of
--     `analyze`, the verdict and the exit code.
--   * Flicker models tools/loadcell_diag.py: sign flips, mirrored channels and inverted frames.
--   * Machine models the handlers of /health and /deadbolt in src/api/v1/routers/machine.py.
--   * Api models the other handlers of that file, those of management.py and recording.py, and the
--     exception handlers of src/main.py.
--   * Application models the services that `lifespan` of src/main.py starts and stops, with their
--     tasks (Application/Background), and what happens in between: polls, recordings, the tracking
--     of door and deadbolt, and clients that come and go; Application/Settings has the settings of
--     src/core/config.py as a whole, and the configuration of the modules.
--   * Config models the validators of src/core/config.py.
--   * Base has the shared names: tests, lists over the native numbers, texts, integers, dicts.
--
-- The commands run over `fetch` and the parser, the data sources over the commands, and the services
-- over the queues; the state of the module globals of commands.py, sanitizer.py and serial_io.py is
-- the record `Service`.
--
-- `fetch` is one step under the mutex of the module, so a history of the service is a sequence of
-- calls (Serial/Fetch/History). What the board and the event loop do in an attempt is an argument
-- of the step (Exchange): what the reads of the drain find, which bytes arrive in time, what a read
-- meets when they are used up, and how late each sleep ends. The loop that drains the input has no
-- bound in the source. Its reads are a stream, it runs on fuel, and an exchange names a read that ends
-- it, so that the turns up to that read are enough (Serial/Drain, drain-ends); for a board that never
-- pauses no number of turns is (drain_endless), and such an attempt is no exchange. The loop of `fetch` runs over `max_retries` attempts, and is recursion
-- on that number: it needs no fuel. The loop behind /deadbolt runs on fuel, and 51 passes are enough
-- for the default limit (Machine.Waiting).
--
-- Numbers: times are whole microseconds, the backoff multiplier is in thousandths, weights are
-- whole counts of 1/100000 g, where the source has floats. `float` of a reading (Readings) reads plain
-- decimals; the forms with an exponent, an underscore, or the words inf and nan, which no field of six
-- characters from the board has, are read as no number. The thresholds of a request are read in all
-- forms (Stream/PythonFloat). Texts are lists of code points.
--
-- The filters, the detector and the diagnosis compute with floats: each operation is that of fractions,
-- rounded to 53 bits (`binary64`); numbers above the largest float are left out there, as no reading
-- or weight comes near it. `statistics.pstdev` is a root of a fraction of the decimals read, taken by rounds on
-- fuel; as many rounds as the number itself are enough (Diagnosis/Statistics/Roots).
--
-- A session of a stream is a sequence of steps: polls of the services, passes of the two tasks, and
-- events that the generator yields; nothing else runs between two awaits. A run of the application is
-- one of steps of all the services, whose queues are told apart by number; a pass of a loop takes the
-- item that it waited for at once.
--
-- The port is taken to close without an error. Not modelled: log messages, the details and
-- messages of exceptions, cancellation of a task in the middle of a transaction, the
-- middleware and the server class of src/main.py, src/core/logging_config.py and time_utils.py, and what the tools collect over HTTP, read and write as files, and print.
pub mod Base
pub mod Errors
pub mod Protocol
pub mod Serial
pub mod Readings
pub mod Numbers
pub mod Sanitizer
pub mod Commands
pub mod Polling
pub mod Recording
pub mod ErrorState
pub mod Config
pub mod Machine
pub mod Filters
pub mod Detector
pub mod Stream
pub mod Api
pub mod Diagnosis
pub mod Flicker
pub mod Application
