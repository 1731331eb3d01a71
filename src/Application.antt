-- ===== src/Application.antt =====
-- The services that `lifespan` of src/main.py starts and stops, with what happens in between. The
-- application owns the polling services, the recording and the tracking of the door and the
-- deadbolt, each with a background task, and the streams of the clients that are connected. Between
-- two awaits nothing else runs, so a run of the application is a sequence of the steps below.
pub mod Background
pub mod Services
pub mod Untouched
pub mod Soundness
pub mod Runs
pub mod Watching
pub mod Constants
pub mod Health
pub mod Shutdown
pub mod Settings
pub mod Delivery
pub mod Ongoing
pub mod Recordings
mod Tests
use crk_io_board.Base.{
  ℕ, zero, suc, Bool, true, false, Option, none, some, List, [], ◌∷◌, Text, get_elem?,
  if◌then◌else◌,
}
use crk_io_board.Errors.{Result}
use crk_io_board.Commands.{DeadboltAction}
use crk_io_board.Polling.{Queue, new_queue, get_nowait, Polling, subscribe, unsubscribe}
use crk_io_board.Recording.{Recording, with_queue, start_recording, stop_recording, record_next}
use crk_io_board.Recording.Session.{Poll}
use crk_io_board.ErrorState.{ErrorState, new_error_state, set_deadbolt_action, observe_next}
use crk_io_board.Stream.Session.{IoStatus, poll, open_stream, close_stream}
use Background.{Tasks, Worker, new_worker, start, stop}

-- The streams that a client of /sse asked for, with their queues.
pub record Client : Type 0 where
  pub loadcells_enabled : Bool
  pub doors_enabled : Bool
  pub loadcells_queue : ℕ
  pub io_status_queue : ℕ

-- `app.state`. A queue that is made gets the number `next_queue`. The polling service of the
-- loadcells is that of the recording.
pub record Application : Type 0 where
  pub tasks : Tasks
  pub next_queue : ℕ
  pub recording : Recording (List Text)
  pub io_status : Polling IoStatus
  pub error_state : ErrorState
  pub error_queue : ℕ
  pub loadcells_worker : Worker
  pub io_status_worker : Worker
  pub recording_worker : Worker
  pub error_worker : Worker
  pub clients : List Client

abbrev new_polling {ℓ} : {A : Type ℓ} → Polling A
new_polling = record { subscribers = []; has_subscribers = false; queues = λ q. new_queue }

-- The services as they are made, with the settings of the health check.
unfoldable pub new_application : Tasks → (door_open_error deadbolt_apply_timeout : ℕ) → Application
new_application tasks door_open_error deadbolt_apply_timeout = record {
  tasks = tasks;
  next_queue = 2;
  recording = record {
    recordings = [];
    recording_running = false;
    queue = 0;
    polling = new_polling;
  };
  io_status = new_polling;
  error_state = new_error_state door_open_error deadbolt_apply_timeout;
  error_queue = 1;
  loadcells_worker = new_worker;
  io_status_worker = new_worker;
  recording_worker = new_worker;
  error_worker = new_worker;
  clients = [];
}

-- `start` and `stop` of PollingService and RecordingService
abbrev pub start_loadcells : Application → Application
start_loadcells s =
    let (t, w) = start s.tasks s.loadcells_worker in record s { tasks = t; loadcells_worker = w }

abbrev pub stop_loadcells : Application → Application
stop_loadcells s =
    let (t, w) = stop s.tasks s.loadcells_worker in record s { tasks = t; loadcells_worker = w }

abbrev pub start_io_status : Application → Application
start_io_status s =
    let (t, w) = start s.tasks s.io_status_worker in record s { tasks = t; io_status_worker = w }

abbrev pub stop_io_status : Application → Application
stop_io_status s =
    let (t, w) = stop s.tasks s.io_status_worker in record s { tasks = t; io_status_worker = w }

abbrev pub start_recorder : Application → Application
start_recorder s =
    let (t, w) = start s.tasks s.recording_worker in record s { tasks = t; recording_worker = w }

abbrev pub stop_recorder : Application → Application
stop_recorder s =
    let (t, w) = stop s.tasks s.recording_worker in record s { tasks = t; recording_worker = w }

-- ErrorStateManagementService.start, which subscribes, and `stop`, which takes a new queue.
abbrev pub start_error_state : Application → Application
start_error_state s =
    let (t, w) = start s.tasks s.error_worker in
    record s { tasks = t; error_worker = w; io_status = subscribe s.error_queue s.io_status }

abbrev pub stop_error_state : Application → Application
stop_error_state s =
    let (t, w) = stop s.tasks s.error_worker in
    record s {
      tasks = t;
      error_worker = w;
      next_queue = suc s.next_queue;
      error_queue = s.next_queue;
      io_status = with_queue s.next_queue new_queue (close_stream true s.error_queue s.io_status);
    }

-- `lifespan` up to its `yield`, and its `finally` block
unfoldable pub startup : Application → Application
unfolding start subscribe
startup s = start_error_state (start_recorder (start_io_status (start_loadcells s)))

unfoldable pub shutdown : Application → Application
unfolding stop unsubscribe
shutdown s = stop_io_status (stop_loadcells (stop_error_state (stop_recorder s)))

-- What happens while the application runs; a client is meant by its place among those connected.
pub data Step : Type 0 where
  loadcells_polled : Poll (List Text) → Step
  io_status_polled : Poll IoStatus → Step
  recording_started : Bool → Step
  recording_stopped recording_pass error_state_pass : Step
  deadbolt_controlled : DeadboltAction → ℕ → Step
  client_connected : (loadcells doors : Bool) → Step
  client_gone loadcells_read io_status_read : ℕ → Step

abbrev pub with_loadcells : (Polling (List Text) → Polling (List Text)) → Application → Application
with_loadcells f s = record s { recording = record s.recording { polling = f s.recording.polling } }

-- A pass of the loop of ErrorStateManagementService, or none of it while the queue is empty.
abbrev pub watch_item : Option (Result (IoStatus × ℕ) × Queue IoStatus) → Application → Application
watch_item none s = s
watch_item (some (r, q)) s = record s {
  error_state = observe_next r s.error_state;
  io_status = with_queue s.error_queue q s.io_status;
}

-- The task of a stream takes an item off its queue.
abbrev pub take_item {ℓ} :
    {A : Type ℓ} → ℕ → Option (Result (A × ℕ) × Queue A) → Polling A → Polling A
take_item q none p = p
take_item q (some (r, x)) p = with_queue q x p

abbrev pub read_item {ℓ} : {A : Type ℓ} → ℕ → Polling A → Polling A
unfolding get_nowait
read_item q p = take_item q (get_nowait (p.queues q)) p

abbrev pub connect : Bool → Bool → Application → Application
connect loadcells doors s =
    let n = s.next_queue in
    record s {
      next_queue = suc n;
      recording = record s.recording { polling = open_stream loadcells n s.recording.polling };
      io_status = open_stream doors n s.io_status;
      clients =
          record {
            loadcells_enabled = loadcells;
            doors_enabled = doors;
            loadcells_queue = n;
            io_status_queue = n;
          }
          ∷ s.clients;
    }

abbrev pub without : ℕ → List Client → List Client
without i [] = []
without zero (c ∷ cs) = cs
without (suc i) (c ∷ cs) = c ∷ without i cs

abbrev pub disconnect : ℕ → Option Client → Application → Application
disconnect i none s = s
disconnect i (some c) s = record s {
  recording = record s.recording {
    polling = close_stream c.loadcells_enabled c.loadcells_queue s.recording.polling;
  };
  io_status = close_stream c.doors_enabled c.io_status_queue s.io_status;
  clients = without i s.clients;
}

abbrev pub loadcells_task : Option Client → Application → Application
loadcells_task none s = s
loadcells_task (some c) s =
    if c.loadcells_enabled then with_loadcells (read_item c.loadcells_queue) s else s

abbrev pub io_status_task : Option Client → Application → Application
io_status_task none s = s
io_status_task (some c) s =
    if c.doors_enabled then record s { io_status = read_item c.io_status_queue s.io_status } else s

unfoldable pub step : Step → Application → Application
unfolding start_recording stop_recording record_next set_deadbolt_action get_nowait subscribe
    unsubscribe
step (loadcells_polled x) s = with_loadcells (poll x) s
step (io_status_polled x) s = record s { io_status = poll x s.io_status }
step (recording_started clear) s = record s { recording = start_recording clear s.recording }
step recording_stopped s = record s {
  recording = stop_recording s.next_queue s.recording;
  next_queue = suc s.next_queue;
}
step recording_pass s = record s { recording = record_next s.recording }
step error_state_pass s = watch_item (get_nowait (s.io_status.queues s.error_queue)) s
step (deadbolt_controlled action time) s = record s {
  error_state = set_deadbolt_action action time s.error_state;
}
step (client_connected loadcells doors) s = connect loadcells doors s
step (client_gone i) s = disconnect i (get_elem? s.clients i) s
step (loadcells_read i) s = loadcells_task (get_elem? s.clients i) s
step (io_status_read i) s = io_status_task (get_elem? s.clients i) s

abbrev pub steps : List Step → Application → Application
steps [] s = s
steps (x ∷ xs) s = steps xs (step x s)
