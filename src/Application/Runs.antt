-- ===== src/Application/Runs.antt =====
-- Every run of the application of src/main.py is sound: the steps keep what holds after its start-up.
use mathlib.Core.Path.{subst}
use crk_io_board.Base.{
  ℕ, ◌<◌, ◌≡◌, refl, sym, ap, ◌∙◌, arith, Bool, true, false, Option, none, some, List, [], ◌∷◌,
  ◌==◌, get_elem?, if◌then◌else◌, Text,
}
use crk_io_board.Polling.{new_queue, get_nowait, next_item, subscribe, deliver, Polling, has}
use crk_io_board.Recording.{Recording, start_recording, stop_recording, record_next}
use crk_io_board.Stream.Session.{close_stream, poll, IoStatus}
use crk_io_board.ErrorState.{ErrorState, set_deadbolt_action}
use crk_io_board.Application.Soundness.{
  IsRecorder, ClientApart, AllApart, IsSound, apart_later, apart_renewed, apart-get_elem?,
  apart-without, next-IsRecorder, watched, item_watched, item_others,
}
use crk_io_board.Application.Services.{
  IsServing, same_number, poll-IsServing, poll_shut, read-IsServing, read_shut, read_member,
  with_queue-IsServing, subscribe-IsServing, close-IsServing, open-IsServing,
}
use crk_io_board.Application.{
  Application, Client, Step, loadcells_polled, io_status_polled, recording_started,
  recording_stopped, recording_pass, error_state_pass, deadbolt_controlled, client_connected,
  client_gone, loadcells_read, io_status_read, step, steps, watch_item, connect, disconnect,
  loadcells_task, io_status_task, new_application, startup, with_loadcells, read_item,
}
use crk_io_board.Application.Background.{Tasks}
use crk_io_board.Application.Untouched.{close-IsUntouched, open-IsUntouched}

-- A made number is below the next, so it is another.
pub made_other : (q n : ℕ) → q < n → (q == n) ≡ false
made_other q n h = ground arith

connect-IsSound :
    (loadcells doors : Bool) (s : Application) → IsSound s → IsSound (connect loadcells doors s)
connect-IsSound loadcells doors s i =
    let n = s.next_queue in
    let recorder =
      open-IsUntouched s.recording.queue loadcells n s.recording.polling
        (made_other s.recording.queue n i.recorder_made) in
    let error =
      open-IsUntouched s.error_queue doors n s.io_status
        (made_other s.error_queue n i.error_made) in
    record {
      loadcells = open-IsServing loadcells n s.recording.polling i.loadcells;
      io_status = open-IsServing doors n s.io_status i.io_status;
      watching = error.member ∙ i.watching;
      recorder = ap (λ x. x.shut_down) recorder.queue ∙ i.recorder;
      error_made = ground (arith, i.error_made);
      recorder_made = ground (arith, i.recorder_made);
      apart = (
        (
          omega arith,
          omega arith,
          made_other s.recording.queue n i.recorder_made,
          made_other s.error_queue n i.error_made,
        ),
        apart_later s.recording.queue s.error_queue n s.clients i.apart,
      );
    }

disconnect-IsSound :
    (i : ℕ) (o : Option Client) (s : Application)
    → IsSound s
    → ClientApart s.recording.queue s.error_queue s.next_queue o
    → IsSound (disconnect i o s)
disconnect-IsSound i none s h a = h
disconnect-IsSound i (some c) s h (l, d, r, e) =
    let recorder =
      close-IsUntouched s.recording.queue c.loadcells_enabled c.loadcells_queue s.recording.polling
        r in
    let error = close-IsUntouched s.error_queue c.doors_enabled c.io_status_queue s.io_status e in
    record {
      loadcells =
          close-IsServing c.loadcells_enabled c.loadcells_queue s.recording.polling h.loadcells;
      io_status = close-IsServing c.doors_enabled c.io_status_queue s.io_status h.io_status;
      watching = error.member ∙ h.watching;
      recorder = ap (λ x. x.shut_down) recorder.queue ∙ h.recorder;
      error_made = h.error_made;
      recorder_made = h.recorder_made;
      apart = apart-without s.recording.queue s.error_queue s.next_queue i s.clients h.apart;
    }

enabled : (b : Bool) {s' s : Application} → IsSound s' → IsSound s → IsSound (if b then s' else s)
enabled true i j = i
enabled false i j = j

-- A step that changes the recording, the IO status and the tracking, but neither their queues nor the
-- clients.
changed-IsSound :
    (s : Application) (r : Recording (List Text)) (p : Polling IoStatus) (e : ErrorState)
    → IsSound s
    → IsRecorder s.recording.queue r
    → IsServing p
    → has s.error_queue p.subscribers ≡ true
    → IsSound (record s { recording = r; io_status = p; error_state = e })
changed-IsSound s r p e i rec serving watching = record {
  loadcells = rec.serving;
  io_status = serving;
  watching = watching;
  recorder = ap (λ q. (r.polling.queues q).shut_down) rec.same ∙ rec.open_queue;
  error_made = i.error_made;
  recorder_made = subst (λ q. q < s.next_queue) (sym rec.same) i.recorder_made;
  apart = subst (λ q. AllApart q s.error_queue s.next_queue s.clients) (sym rec.same) i.apart;
}

recorded-IsSound :
    (s : Application) (r : Recording (List Text))
    → IsSound s
    → IsRecorder s.recording.queue r
    → IsSound (record s { recording = r })
recorded-IsSound s r i rec =
    changed-IsSound s r s.io_status s.error_state i rec i.io_status i.watching

io_status-IsSound :
    (s : Application) (p : Polling IoStatus)
    → IsSound s
    → IsServing p
    → has s.error_queue p.subscribers ≡ true
    → IsSound (record s { io_status = p })
io_status-IsSound s p i serving watching =
    changed-IsSound s s.recording p s.error_state i
      (record { same = refl; serving = i.loadcells; open_queue = i.recorder }) serving watching

loadcells_task-IsSound :
    (o : Option Client) (s : Application) → IsSound s → IsSound (loadcells_task o s)
loadcells_task-IsSound none s h = h
loadcells_task-IsSound (some c) s h =
    enabled c.loadcells_enabled
      (recorded-IsSound s (with_loadcells (read_item c.loadcells_queue) s).recording h (record {
        same = refl;
        serving = read-IsServing c.loadcells_queue s.recording.polling h.loadcells;
        open_queue = read_shut s.recording.queue c.loadcells_queue s.recording.polling ∙ h.recorder;
      }))
      h

io_status_task-IsSound :
    (o : Option Client) (s : Application) → IsSound s → IsSound (io_status_task o s)
io_status_task-IsSound none s h = h
io_status_task-IsSound (some c) s h =
    enabled c.doors_enabled
      (io_status-IsSound s (read_item c.io_status_queue s.io_status) h
        (read-IsServing c.io_status_queue s.io_status h.io_status)
        (read_member s.error_queue c.io_status_queue s.io_status ∙ h.watching))
      h

stopped-IsSound : (s : Application) → IsSound s → IsSound (step recording_stopped s)
unfolding step stop_recording
stopped-IsSound s i = record {
  loadcells =
      with_queue-IsServing s.next_queue new_queue
        (close_stream true s.recording.queue s.recording.polling) (λ k. refl)
        (close-IsServing true s.recording.queue s.recording.polling i.loadcells);
  io_status = i.io_status;
  watching = i.watching;
  recorder = rw (same_number s.next_queue) refl;
  error_made = ground (arith, i.error_made);
  recorder_made = omega arith;
  apart = apart_renewed s.recording.queue s.error_queue s.next_queue s.clients i.apart;
}

pub step-IsSound : (x : Step) (s : Application) → IsSound s → IsSound (step x s)
unfolding step start_recording subscribe deliver get_nowait
step-IsSound (loadcells_polled x) s i =
    recorded-IsSound s (with_loadcells (poll x) s).recording i (record {
      same = refl;
      serving = poll-IsServing x s.recording.polling i.loadcells;
      open_queue = poll_shut s.recording.queue x s.recording.polling i.loadcells ∙ i.recorder;
    })
step-IsSound (io_status_polled x) s i =
    io_status-IsSound s (poll x s.io_status) i (poll-IsServing x s.io_status i.io_status) i.watching
step-IsSound (recording_started clear) s i =
    recorded-IsSound s (start_recording clear s.recording) i (record {
      same = refl;
      serving = subscribe-IsServing s.recording.queue s.recording.polling i.recorder i.loadcells;
      open_queue = i.recorder;
    })
step-IsSound recording_stopped s i = stopped-IsSound s i
step-IsSound recording_pass s i =
    recorded-IsSound s (record_next s.recording) i
      (next-IsRecorder s.recording i.loadcells i.recorder)
step-IsSound error_state_pass s i =
    let q = s.io_status.queues s.error_queue in
    watched s (watch_item (next_item q.items q.shut_down) s) i (item_watched q.items q.shut_down s)
      (item_others q.items q.shut_down s)
step-IsSound (deadbolt_controlled action time) s i =
    changed-IsSound s s.recording s.io_status (set_deadbolt_action action time s.error_state) i
      (record { same = refl; serving = i.loadcells; open_queue = i.recorder }) i.io_status
      i.watching
step-IsSound (client_connected loadcells doors) s i = connect-IsSound loadcells doors s i
step-IsSound (client_gone k) s i =
    disconnect-IsSound k (get_elem? s.clients k) s i
      (apart-get_elem? s.recording.queue s.error_queue s.next_queue k s.clients i.apart)
step-IsSound (loadcells_read k) s i = loadcells_task-IsSound (get_elem? s.clients k) s i
step-IsSound (io_status_read k) s i = io_status_task-IsSound (get_elem? s.clients k) s i

pub started-IsSound :
    (tasks : Tasks) (door_limit deadbolt_limit : ℕ)
    → IsSound (startup (new_application tasks door_limit deadbolt_limit))
unfolding startup new_application
started-IsSound tasks door_limit deadbolt_limit = record {
  loadcells = record { polling = record { awake = refl; distinct = tt }; live = tt };
  io_status = record {
    polling = record { awake = refl; distinct = (refl, tt) };
    live = (refl, tt);
  };
  watching = refl;
  recorder = refl;
  error_made = omega arith;
  recorder_made = omega arith;
  apart = tt;
}

pub steps-IsSound : (xs : List Step) (s : Application) → IsSound s → IsSound (steps xs s)
steps-IsSound [] s i = i
steps-IsSound (x ∷ xs) s i = steps-IsSound xs (step x s) (step-IsSound x s i)

-- The application after its start-up, with the settings of the health check, and then the steps.
abbrev pub run : Tasks → (door_limit deadbolt_limit : ℕ) → List Step → Application
run tasks door_limit deadbolt_limit xs =
    steps xs (startup (new_application tasks door_limit deadbolt_limit))
