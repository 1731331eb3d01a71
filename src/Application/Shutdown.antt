-- ===== src/Application/Shutdown.antt =====
-- The `finally` block of `lifespan` in src/main.py, after any run of the application.
use crk_io_board.Base.{ℕ, suc, ◌≡◌, refl, ap, ◌∙◌, arith, true, false, List, ◌∷◌}
use crk_io_board.Polling.{has, remove}
use crk_io_board.Application.{Application, Step, steps, shutdown, startup, new_application}
use crk_io_board.Application.Background.{Tasks, Worker, cancel}
use crk_io_board.Application.Services.{unsubscribed, same_number}
use crk_io_board.Application.Constants.{steps-constants}
use crk_io_board.Application.Runs.{run, made_other, started-IsSound, steps-IsSound}

-- No task of the services runs, and the queue of the tracking is closed; the recorded frames are
-- still there.
pub record IsStopped (before : List ℕ) (s s' : Application) : Type 0 where
  pub live : s'.tasks.live ≡ before
  pub loadcells : s'.loadcells_worker.running ≡ false
  pub io_status : s'.io_status_worker.running ≡ false
  pub recorder : s'.recording_worker.running ≡ false
  pub error_state : s'.error_worker.running ≡ false
  pub unwatched : has s.error_queue s'.io_status.subscribers ≡ false
  pub closed : (s'.io_status.queues s.error_queue).shut_down ≡ true
  pub kept : s'.recording ≡ s.recording

-- The tasks after the four are cancelled.
abbrev stopped : ℕ × ℕ × Tasks × Worker × Worker × Worker × Worker → List ℕ
stopped (door, bolt, tasks, loadcells, io_status, recording, error) =
    let left = cancel error.task (cancel recording.task tasks) in
    let none_left = cancel io_status.task (cancel loadcells.task left) in none_left.live

cancel_four :
    (n : ℕ) (js : List ℕ)
    → remove (suc n) (
        remove n (
          remove
            (suc (suc (suc n)))
            (remove (suc (suc n)) (suc (suc (suc n)) ∷ suc (suc n) ∷ suc n ∷ n ∷ js))))
      ≡ js
cancel_four n js = ground arith

-- Whatever has happened since the start-up, after the shutdown no task of the services runs, the
-- tasks of others go on, the queue of the tracking is closed and unsubscribed, and the recording is
-- as it was.
pub run-shutdown :
    (tasks : Tasks) (door_limit deadbolt_limit : ℕ) (xs : List Step)
    → let s = run tasks door_limit deadbolt_limit xs in IsStopped tasks.live s (shutdown s)
unfolding shutdown startup new_application
run-shutdown tasks door_limit deadbolt_limit xs =
    let s₀ = startup (new_application tasks door_limit deadbolt_limit) in
    let s = steps xs s₀ in
    let i = steps-IsSound xs s₀ (started-IsSound tasks door_limit deadbolt_limit) in
    let apart = made_other s.error_queue s.next_queue i.error_made in
    record {
      live = ap stopped (steps-constants xs s₀) ∙ cancel_four tasks.next tasks.live;
      loadcells = refl;
      io_status = refl;
      recorder = refl;
      error_state = refl;
      unwatched = unsubscribed s.error_queue s.io_status i.io_status;
      closed = rw (apart, same_number s.error_queue) refl;
      kept = refl;
    }
