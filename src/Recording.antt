-- ===== src/Recording.antt =====
-- `RecordingService` of src/services/recording.py, with the polling service that it subscribes to.
pub mod Session
mod Tests
use crk_io_board.Base.{ℕ, Bool, true, false, Option, none, some, List, [], ◌∷◌, ◌++◌, if◌then◌else◌}
use crk_io_board.Errors.{Result, ok, raise}
use crk_io_board.Polling.{
  Item, Queue, new_queue, set_at, get_nowait, Polling, subscribe, unsubscribe,
}

-- A recording keeps the data and its time.
pub record Recording {ℓ} (A : Type ℓ) : Type ℓ where
  pub recordings : List (A × ℕ)
  pub recording_running : Bool
  pub queue : ℕ
  pub polling : Polling A

unfoldable pub start_recording {ℓ} : {A : Type ℓ} → Bool → Recording A → Recording A
unfolding subscribe
start_recording clear r = record r {
  recordings = if clear then [] else r.recordings;
  recording_running = true;
  polling = subscribe r.queue r.polling;
}

abbrev shut {ℓ} : {A : Type ℓ} → Queue A → Queue A
shut q = record q { shut_down = true }

abbrev pub with_queue {ℓ} : {A : Type ℓ} → ℕ → Queue A → Polling A → Polling A
with_queue q x p = record p { queues = set_at q x p.queues }

-- The old queue is shut down, and a new one, `next`, takes its place.
unfoldable pub stop_recording {ℓ} : {A : Type ℓ} → ℕ → Recording A → Recording A
unfolding unsubscribe
stop_recording next r =
    let p = unsubscribe r.queue r.polling in
    record r {
      recording_running = false;
      queue = next;
      polling = with_queue next new_queue (with_queue r.queue (shut (p.queues r.queue)) p);
    }

-- retrieve_recording
abbrev pub retrieve_recording {ℓ} : {A : Type ℓ} → Recording A → List (A × ℕ)
retrieve_recording r = r.recordings

-- What the loop does with what it took off the queue: errors and the shutdown are skipped.
abbrev pub record_item {ℓ} :
    {A : Type ℓ} → Option (Result (A × ℕ) × Queue A) → Recording A → Recording A
record_item none r = r
record_item (some (ok entry, q)) r = record r {
  recordings = r.recordings ++ entry ∷ [];
  polling = with_queue r.queue q r.polling;
}
record_item (some (raise e, q)) r = record r { polling = with_queue r.queue q r.polling }

-- A pass of `_loop`, or none of it while the loop waits.
unfoldable pub record_next {ℓ} : {A : Type ℓ} → Recording A → Recording A
unfolding get_nowait
record_next r =
    if r.recording_running then record_item (get_nowait (r.polling.queues r.queue)) r else r
