-- ===== src/Stream/Session.antt =====
-- `unified_event_generator` of src/api/v1/routers/sse.py, with the polling services that it subscribes
-- to. Nothing else runs between two awaits, so a session is a sequence of the steps below: polls of
-- the services, passes of the two tasks, and events that the generator yields.
use crk_io_board.Base.{
  ℕ, Bool, true, false, Option, none, some, List, [], ◌∷◌, ◌++◌, Text, if◌then◌else◌,
}
use crk_io_board.Errors.{Result}
use crk_io_board.Commands.{DoorState, DeadboltState}
use crk_io_board.Polling.{Queue, new_queue, get_nowait, Polling, subscribe, unsubscribe, deliver}
use crk_io_board.Recording.{with_queue}
use crk_io_board.Recording.Session.{Poll}
use crk_io_board.Detector.{LoadcellChangeDetector}
use crk_io_board.Stream.Tasks.{Event, poll_loadcells, poll_doors}

abbrev pub IoStatus : Type 0
IoStatus = DoorState × DeadboltState

pub record Session : Type 0 where
  pub loadcells_enabled : Bool
  pub doors_enabled : Bool
  pub loadcells_queue : ℕ
  pub io_status_queue : ℕ
  pub detector : LoadcellChangeDetector
  pub loadcells : Polling (List Text)
  pub io_status : Polling IoStatus
  pub event_queue : List Event
  pub yielded : List Event

-- `StreamQueue()` and `subscribe`, when the stream is enabled
abbrev pub open_stream {ℓ} : {A : Type ℓ} → Bool → ℕ → Polling A → Polling A
open_stream true q p = subscribe q (with_queue q new_queue p)
open_stream false q p = p

unfoldable pub begin : Session → Session
begin s = record s {
  loadcells = open_stream s.loadcells_enabled s.loadcells_queue s.loadcells;
  io_status = open_stream s.doors_enabled s.io_status_queue s.io_status;
  event_queue = [];
  yielded = [];
}

-- `unsubscribe` and `shutdown` in the `finally` block
abbrev shut {ℓ} : {A : Type ℓ} → ℕ → Polling A → Polling A
shut q p = with_queue q (record (p.queues q) { shut_down = true }) p

abbrev pub close_stream {ℓ} : {A : Type ℓ} → Bool → ℕ → Polling A → Polling A
close_stream true q p = shut q (unsubscribe q p)
close_stream false q p = p

unfoldable pub finish : Session → Session
finish s = record s {
  loadcells = close_stream s.loadcells_enabled s.loadcells_queue s.loadcells;
  io_status = close_stream s.doors_enabled s.io_status_queue s.io_status;
}

-- A pass of `poll_loadcells`, at a time: none of it while the queue is empty.
abbrev pub took_loadcells :
    ℕ → Option (Result (List Text × ℕ) × Queue (List Text)) → Session → Session
took_loadcells now none s = s
took_loadcells now (some (r, q)) s =
    let (events, d) = poll_loadcells s.detector r now in
    record s {
      detector = d;
      loadcells = with_queue s.loadcells_queue q s.loadcells;
      event_queue = s.event_queue ++ events;
    }

abbrev pub took_doors : Option (Result (IoStatus × ℕ) × Queue IoStatus) → Session → Session
took_doors none s = s
took_doors (some (r, q)) s = record s {
  io_status = with_queue s.io_status_queue q s.io_status;
  event_queue = s.event_queue ++ poll_doors r;
}

-- `event_queue.get()` and `yield`; on an empty queue the wait times out.
abbrev pub yield_from : List Event → Session → Session
yield_from [] s = s
yield_from (e ∷ es) s = record s { event_queue = es; yielded = s.yielded ++ e ∷ [] }

pub data Step : Type 0 where
  loadcells_polled : Poll (List Text) → Step
  io_status_polled : Poll IoStatus → Step
  loadcells_pass : ℕ → Step
  doors_pass : Step
  event_sent : Step

abbrev pub poll {ℓ} : {A : Type ℓ} → Poll A → Polling A → Polling A
poll x p = (deliver x.item x.interval x.started x.now p).0

unfoldable pub step : Step → Session → Session
unfolding get_nowait
step (loadcells_polled x) s = record s { loadcells = poll x s.loadcells }
step (io_status_polled x) s = record s { io_status = poll x s.io_status }
step (loadcells_pass now) s =
    if s.loadcells_enabled
    then took_loadcells now (get_nowait (s.loadcells.queues s.loadcells_queue)) s
    else s
step doors_pass s =
    if s.doors_enabled then took_doors (get_nowait (s.io_status.queues s.io_status_queue)) s else s
step event_sent s = yield_from s.event_queue s

abbrev pub steps : List Step → Session → Session
steps [] s = s
steps (x ∷ xs) s = steps xs (step x s)
