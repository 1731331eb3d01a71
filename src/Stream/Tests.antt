-- ===== src/Stream/Tests.antt =====
-- The theorems on src/api/v1/routers/sse.py at concrete requests and sessions.
use crk_io_board.Base.{
  ◌≡◌, refl, none, some, [], ◌∷◌, ◌++◌, List, Text, codes, replicate, true, false,
}
use crk_io_board.Errors.{
  ok, raise, io_board, IoBoardError, serial_communication_error, serial_timeout,
}
use crk_io_board.Errors
use crk_io_board.Numbers.{ratio}
use crk_io_board.Commands.{closed, locked}
use crk_io_board.Polling.{Polling, new_queue, source_result, source_error}
use crk_io_board.Recording.Session.{Poll}
use crk_io_board.Filters.{FilterKwargs, exponential, filtered_scope}
use crk_io_board.Detector.{LoadcellChangeDetector, new_detector}
use crk_io_board.Detector.History.{Frame}
use crk_io_board.Numbers.Binary64.{binary64}
use crk_io_board.Stream.PythonFloat.{python_float, finite, infinite, nan}
use crk_io_board.Stream.Request.{Explained, parts, parse_request, parse_request_lem}
use crk_io_board.Stream.Tasks.{
  poll_loadcells, loadcell_uncertainty, stream_error, io_board_failure, loadcells_stream,
}
use crk_io_board.Stream.Session.{
  Session, Step, IoStatus, begin, finish, steps, loadcells_polled, io_status_polled, loadcells_pass,
  doors_pass, event_sent,
}
use crk_io_board.Stream.Events.{keep, of_loadcells, item_events, loadcells_items}
use crk_io_board.Stream.Loadcells.{loadcell_events, waiting, session_hears}
use crk_io_board.Stream.Delivery.{catch_up, session_delivers}
use crk_io_board.Stream.Cleanup.{IsClosed, finish_restores}
use crk_io_board.Stream.Failure.{some_change, poll_loadcells_failure}

parse_request_lem_example :
    Explained
      (parts (codes "loadcells, doors"))
      (parts (codes "5.0,x"))
      (parse_request (codes "loadcells, doors") (codes "5.0,x"))
parse_request_lem_example = parse_request_lem (codes "loadcells, doors") (codes "5.0,x")

-- An exponent, underscores, spaces and the names are read; other texts are not.
python_float_test :
    (python_float (codes " 1e1 ")
      ≡ some (finite (record { plus = 5629499534213120; minus = 0; under = 562949953421312 })))
    × (python_float (codes "1_0.5")
        ≡ some (finite (record { plus = 5910974510923776; minus = 0; under = 562949953421312 })))
    × (python_float (codes "-Infinity") ≡ some (infinite true))
    × (python_float (codes "1e400") ≡ some (infinite false))
    × (python_float (codes "nan") ≡ some nan)
    × (python_float (codes "1__0") ≡ none)
    × (python_float (codes "1e") ≡ none)
    × (python_float (codes ".") ≡ none)
unfolding python_float binary64
python_float_test = (refl, refl, refl, refl, refl, refl, refl, refl)

abbrev given : FilterKwargs
given = record { alpha = some (ratio 3 10); q = none; r = none }

abbrev detector : LoadcellChangeDetector
detector = new_detector exponential (some (replicate 10 (ratio 5 1))) filtered_scope given

abbrev frame : Frame
frame = codes "EEEEEE" ∷ replicate 9 (codes "+00100")

abbrev timeout : IoBoardError
timeout = record { class = serial_communication_error; error_code = serial_timeout }

abbrev one_other {ℓ} : {A : Type ℓ} → Polling A
one_other = record { subscribers = 7 ∷ []; has_subscribers = true; queues = λ j. new_queue }

abbrev session : Session
session = record {
  loadcells_enabled = true;
  doors_enabled = true;
  loadcells_queue = 1;
  io_status_queue = 2;
  detector = detector;
  loadcells = one_other;
  io_status = one_other;
  event_queue = [];
  yielded = [];
}

abbrev frame_poll : Poll (List Text)
frame_poll = record { item = source_result frame 10; interval = 5; started = 8; now = 10 }

abbrev failed_poll : Poll (List Text)
failed_poll = record {
  item = source_error (io_board timeout) 16;
  interval = 5;
  started = 14;
  now = 16;
}

abbrev door_poll : Poll IoStatus
door_poll = record {
  item = source_result (closed, locked) 12;
  interval = 5;
  started = 11;
  now = 12;
}

abbrev happenings : List Step
happenings =
    loadcells_polled frame_poll
    ∷ io_status_polled door_poll
    ∷ loadcells_pass 11
    ∷ loadcells_polled failed_poll
    ∷ doors_pass
    ∷ event_sent
    ∷ loadcells_pass 17
    ∷ loadcells_polled frame_poll
    ∷ event_sent
    ∷ []

session_hears_example :
    loadcell_events (steps happenings (begin session))
      ++ item_events
          (steps happenings (begin session)).detector
          (waiting (steps happenings (begin session)))
    ≡ item_events detector (loadcells_items happenings)
session_hears_example = session_hears happenings session refl (refl, tt) (refl, tt)

session_delivers_example :
    keep of_loadcells
      (steps
        (catch_up 30 (steps happenings (begin session)))
        (steps happenings (begin session))).yielded
    ≡ item_events detector (loadcells_items happenings)
session_delivers_example = session_delivers happenings session 30 refl (refl, tt) (refl, tt)

finish_restores_example :
    IsClosed true 1 one_other (finish (steps happenings (begin session))).loadcells
    × IsClosed true 2 one_other (finish (steps happenings (begin session))).io_status
finish_restores_example = finish_restores happenings session refl refl

poll_loadcells_failure_example :
    ((poll_loadcells detector (raise (io_board timeout)) 20).0
      ≡ loadcell_uncertainty 20
          (0 ∷ 1 ∷ 2 ∷ 3 ∷ 4 ∷ 5 ∷ 6 ∷ 7 ∷ 8 ∷ 9 ∷ [])
          (io_board_failure timeout)
        ∷ stream_error loadcells_stream (Errors.value serial_timeout)
        ∷ [])
    × (some_change
          (poll_loadcells
            (poll_loadcells detector (raise (io_board timeout)) 20).1
            (ok (frame, 25))
            26).0
        ≡ false)
poll_loadcells_failure_example = poll_loadcells_failure detector timeout 20 frame 25 26
