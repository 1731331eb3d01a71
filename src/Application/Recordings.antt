-- ===== src/Application/Recordings.antt =====
-- The recording of src/services/recording.py in a run of the application of src/main.py.
use crk_io_board.Base.{
  ℕ, ◌≡◌, refl, sym, ap, ◌∙◌, true, List, [], ◌∷◌, ◌++◌, Text, get_elem?, append_nil,
}
use crk_io_board.Polling.{Item, get_nowait, next_item, subscribe}
use crk_io_board.Recording.{record_item, record_next, start_recording}
use crk_io_board.Recording.Session.{frames_of, has-add}
use crk_io_board.Stream.Session.{open_stream}
use crk_io_board.Application.{
  Application, Step, loadcells_polled, io_status_polled, recording_started, recording_stopped,
  recording_pass, error_state_pass, deadbolt_controlled, client_connected, client_gone,
  loadcells_read, io_status_read, step, steps, startup, new_application,
}
use crk_io_board.Application.Untouched.{open-IsUntouched}
use crk_io_board.Application.Soundness.{IsSound, apart-get_elem?}
use crk_io_board.Application.Runs.{step-IsSound, steps-IsSound, started-IsSound, run, made_other}
use crk_io_board.Application.Background.{Tasks}
use crk_io_board.Application.Ongoing.{
  unread, frame_of_step, IsOngoing, IsRunning, ongoing, IsOngoing-apart, polled-IsOngoing,
  item-IsOngoing, if_IsOngoing, gone-IsOngoing, read-IsOngoing, status_read-recording,
  watch-recording,
}

-- The step neither starts nor stops the recording.
abbrev pub Continues : Step → Type 0
Continues (recording_started clear) = ⊥
Continues recording_stopped = ⊥
Continues _ = Unit

step-IsOngoing :
    (x : Step) (later : List (Item (List Text))) (s : Application)
    → Continues x
    → IsSound s
    → IsRunning s.recording
    → IsOngoing (frame_of_step x ++ later) later s.recording (step x s).recording
unfolding step record_next get_nowait
step-IsOngoing (loadcells_polled x) later s c i r =
    polled-IsOngoing x later s.recording i.loadcells r
step-IsOngoing (io_status_polled x) later s c i r = ongoing later s.recording r
step-IsOngoing (recording_started clear) later s c i r = elim c [ ]
step-IsOngoing recording_stopped later s c i r = elim c [ ]
step-IsOngoing recording_pass later s c i r =
    let q = s.recording.polling.queues s.recording.queue in
    if_IsOngoing s.recording.recording_running later later s.recording s.recording
      (record_item (next_item q.items q.shut_down) s.recording)
      (item-IsOngoing q.items q.shut_down later s.recording refl r) (ongoing later s.recording r)
step-IsOngoing error_state_pass later s c i r =
    let q = s.io_status.queues s.error_queue in watch-recording q.items q.shut_down later s r
step-IsOngoing (deadbolt_controlled action time) later s c i r = ongoing later s.recording r
step-IsOngoing (client_connected loadcells doors) later s c i r =
    IsOngoing-apart later s.recording (open_stream loadcells s.next_queue s.recording.polling) r (
      open-IsUntouched s.recording.queue loadcells s.next_queue s.recording.polling
        (made_other s.recording.queue s.next_queue i.recorder_made))
step-IsOngoing (client_gone k) later s c i r =
    gone-IsOngoing k (get_elem? s.clients k) later s
      (apart-get_elem? s.recording.queue s.error_queue s.next_queue k s.clients i.apart) r
step-IsOngoing (loadcells_read k) later s c i r =
    read-IsOngoing (get_elem? s.clients k) later s
      (apart-get_elem? s.recording.queue s.error_queue s.next_queue k s.clients i.apart) r
step-IsOngoing (io_status_read k) later s c i r =
    status_read-recording (get_elem? s.clients k) later s r

abbrev pub AllContinue : List Step → Type 0
AllContinue [] = Unit
AllContinue (x ∷ xs) = Continues x × AllContinue xs

abbrev pub step_frames : List Step → List (Item (List Text))
step_frames [] = []
step_frames (x ∷ xs) = frame_of_step x ++ step_frames xs

steps-IsOngoing :
    (xs : List Step) (s : Application)
    → AllContinue xs
    → IsSound s
    → IsRunning s.recording
    → IsOngoing (step_frames xs) [] s.recording (steps xs s).recording
steps-IsOngoing [] s c i r = ongoing [] s.recording r
steps-IsOngoing (x ∷ xs) s (c, cs) i r =
    let one = step-IsOngoing x (step_frames xs) s c i r in
    let rest =
      steps-IsOngoing xs (step x s) cs (step-IsSound x s i)
        (record { running = one.running; member = one.member }) in
    record { running = rest.running; member = rest.member; same = rest.same ∙ one.same }

-- Whatever has happened since the start-up, when a recording is started anew and then neither started
-- nor stopped again, what it has recorded, and the frames that it has still to read, are together
-- the frames that were waiting for it at its start, followed by those polled since, in order and with
-- their times.
pub run-recording :
    (tasks : Tasks) (door_limit deadbolt_limit : ℕ) (xs ys : List Step)
    → AllContinue ys
    → let s = run tasks door_limit deadbolt_limit xs in
      let r = (steps ys (step (recording_started true) s)).recording in
      r.recordings ++ frames_of (unread r) ≡ frames_of (unread s.recording ++ step_frames ys)
unfolding step start_recording subscribe
run-recording tasks door_limit deadbolt_limit xs ys c =
    let s₀ = startup (new_application tasks door_limit deadbolt_limit) in
    let s = steps xs s₀ in
    let started = step (recording_started true) s in
    let i = steps-IsSound xs s₀ (started-IsSound tasks door_limit deadbolt_limit) in
    let r = (steps ys started).recording in
    let on = steps-IsOngoing ys started c (step-IsSound (recording_started true) s i) (record {
      running = refl;
      member = has-add s.recording.queue s.recording.polling.subscribers;
    }) in
    sym (ap (λ l. r.recordings ++ frames_of l) (append_nil (unread r))) ∙ on.same
