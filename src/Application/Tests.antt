-- ===== src/Application/Tests.antt =====
-- The theorems on the application of src/main.py on a short run.
use crk_io_board.Base.{
  ℕ, ◌+◌, length, ◌≡◌, refl, true, false, ◌||◌, ◌++◌, not, some, List, [], ◌∷◌, Text, codes,
}
use crk_io_board.Errors.{other, other_error}
use crk_io_board.Commands.{opened as door_opened, closed, locked, unlocked, close_bolt}
use crk_io_board.Polling.{source_result, source_error, deliver}
use crk_io_board.Polling.Subscribers.{some_of}
use crk_io_board.Recording.Session.{Poll, frames_of}
use crk_io_board.ErrorState.{door_error, deadbolt_error, is_overdue}
use crk_io_board.ErrorState.Verdicts.{shows}
use crk_io_board.Stream.Session.{IoStatus}
use crk_io_board.Application.{
  Step, loadcells_polled, io_status_polled, recording_started, recording_pass, error_state_pass,
  deadbolt_controlled, client_connected, client_gone, loadcells_read, step, steps, shutdown,
  startup, new_application,
}
use crk_io_board.Application.Background.{Tasks}
use crk_io_board.Application.Runs.{run}
use crk_io_board.Application.Watching.{waiting, status_items}
use crk_io_board.Application.Health.{passes, observations, run-door_error, run-deadbolt_error}
use crk_io_board.Application.Shutdown.{IsStopped, run-shutdown}
use crk_io_board.Application.Delivery.{Reaches, run-poll}
use crk_io_board.Application.Recordings.{step_frames, run-recording}
use crk_io_board.Application.Ongoing.{unread}

abbrev server : Tasks
server = record { next = 7; live = 3 ∷ [] }

abbrev frame : ℕ → Poll (List Text)
frame t = record {
  item = source_result (codes "+00012" ∷ []) t;
  interval = 500;
  started = t;
  now = t + 9;
}

abbrev seen_closed : Poll IoStatus
seen_closed = record {
  item = source_result (closed, unlocked) 20;
  interval = 500;
  started = 20;
  now = 29;
}

abbrev seen_open : Poll IoStatus
seen_open = record {
  item = source_result (door_opened, locked) 40;
  interval = 500;
  started = 40;
  now = 49;
}

abbrev failed : Poll IoStatus
failed = record {
  item = source_error (other other_error) 60;
  interval = 500;
  started = 60;
  now = 69;
}

abbrev morning : List Step
morning =
    client_connected true true
    ∷ io_status_polled seen_closed
    ∷ loadcells_polled (frame 30)
    ∷ error_state_pass
    ∷ loadcells_read 0
    ∷ io_status_polled seen_open
    ∷ client_gone 0
    ∷ io_status_polled failed
    ∷ []

abbrev later : List Step
later =
    loadcells_polled (frame 70)
    ∷ recording_pass
    ∷ io_status_polled seen_closed
    ∷ client_connected false true
    ∷ loadcells_polled (frame 80)
    ∷ []

run-poll_example :
    let s = run server 180 5 morning in
    Reaches (frame 90) s.recording.polling
    × Reaches seen_open s.io_status
    × (s.recording.polling.has_subscribers ≡ some_of s.recording.polling.subscribers)
    × (s.io_status.has_subscribers ≡ true)
run-poll_example = run-poll server 180 5 morning (frame 90) seen_open

run-door_error_example :
    door_error 250 (steps (passes 2) (run server 180 5 morning)).error_state ≡ false
unfolding step door_error deliver startup new_application
run-door_error_example = run-door_error server 180 5 morning 250

run-deadbolt_error_example :
    let s = run server 180 5 morning in
    let s' = steps later (step (deadbolt_controlled close_bolt 65) s) in
    deadbolt_error 99 (steps (passes (length (waiting s'))) s').error_state ≡ (
      shows locked (observations (waiting s ++ status_items later))
      || not (is_overdue 5 99 (some 65)))
run-deadbolt_error_example =
    run-deadbolt_error server 180 5 morning later close_bolt 65 99
      (refl, (refl, (refl, (refl, (refl, tt)))))

run-shutdown_example : let s = run server 180 5 morning in IsStopped (3 ∷ []) s (shutdown s)
run-shutdown_example = run-shutdown server 180 5 morning

run-recording_example :
    let s = run server 180 5 morning in
    let r = (steps later (step (recording_started true) s)).recording in
    r.recordings ++ frames_of (unread r) ≡ frames_of (unread s.recording ++ step_frames later)
run-recording_example = run-recording server 180 5 morning later (tt, (tt, (tt, (tt, (tt, tt)))))
