-- ===== src/Application/Constants.antt =====
-- What no step of the application of src/main.py changes.
use crk_io_board.Base.{
  ℕ, ◌≡◌, refl, ◌∙◌, Bool, true, false, Option, none, some, List, [], ◌∷◌, get_elem?, if◌then◌else◌,
}
use crk_io_board.Polling.{Item, source_result, source_error, get_nowait, next_item}
use crk_io_board.ErrorState.{observe, set_deadbolt_action}
use crk_io_board.Stream.Session.{IoStatus}
use crk_io_board.Application.{
  Application, Client, Step, loadcells_polled, io_status_polled, recording_started,
  recording_stopped, recording_pass, error_state_pass, deadbolt_controlled, client_connected,
  client_gone, loadcells_read, io_status_read, step, steps, watch_item, disconnect, loadcells_task,
  io_status_task,
}
use crk_io_board.Application.Background.{Tasks, Worker}

-- What the limits are, and which tasks run.
abbrev pub constants : Application → ℕ × ℕ × Tasks × Worker × Worker × Worker × Worker
constants s = (
  s.error_state.door_open_error, s.error_state.deadbolt_apply_timeout, s.tasks, s.loadcells_worker,
  s.io_status_worker, s.recording_worker, s.error_worker,
)

watch-constants :
    (is : List (Item IoStatus)) (b : Bool) (s : Application)
    → constants (watch_item (next_item is b) s) ≡ constants s
unfolding observe
watch-constants [] true s = refl
watch-constants [] false s = refl
watch-constants (source_result (door, bolt) t ∷ is) b s = refl
watch-constants (source_error e t ∷ is) b s = refl

gone-constants :
    (k : ℕ) (o : Option Client) (s : Application) → constants (disconnect k o s) ≡ constants s
gone-constants k none s = refl
gone-constants k (some c) s = refl

if_constants :
    (b : Bool) (s' s : Application)
    → constants s' ≡ constants s
    → constants (if b then s' else s) ≡ constants s
if_constants true s' s e = e
if_constants false s' s e = refl

loadcells_read-constants :
    (o : Option Client) (s : Application) → constants (loadcells_task o s) ≡ constants s
loadcells_read-constants none s = refl
loadcells_read-constants (some c) s = if_constants c.loadcells_enabled _ s refl

io_status_read-constants :
    (o : Option Client) (s : Application) → constants (io_status_task o s) ≡ constants s
io_status_read-constants none s = refl
io_status_read-constants (some c) s = if_constants c.doors_enabled _ s refl

step-constants : (x : Step) (s : Application) → constants (step x s) ≡ constants s
unfolding step set_deadbolt_action get_nowait
step-constants error_state_pass s =
    let q = s.io_status.queues s.error_queue in watch-constants q.items q.shut_down s
step-constants (client_gone k) s = gone-constants k (get_elem? s.clients k) s
step-constants (loadcells_read k) s = loadcells_read-constants (get_elem? s.clients k) s
step-constants (io_status_read k) s = io_status_read-constants (get_elem? s.clients k) s
step-constants (loadcells_polled x) s = refl
step-constants (io_status_polled x) s = refl
step-constants (recording_started clear) s = refl
step-constants recording_stopped s = refl
step-constants recording_pass s = refl
step-constants (deadbolt_controlled action time) s = refl
step-constants (client_connected loadcells doors) s = refl

pub steps-constants : (xs : List Step) (s : Application) → constants (steps xs s) ≡ constants s
steps-constants [] s = refl
steps-constants (x ∷ xs) s = steps-constants xs (step x s) ∙ step-constants x s
