-- ===== src/Application/Ongoing.antt =====
-- What a step leaves of the recording of src/services/recording.py, in a run of the application of
-- src/main.py.
use crk_io_board.Base.{
  ℕ, ◌≡◌, refl, sym, ap, ◌∙◌, Bool, true, false, Option, none, some, List, [], ◌∷◌, ◌++◌, Text,
  if◌then◌else◌, append_assoc,
}
use crk_io_board.Polling.{
  deliver, Item, source_result, source_error, Queue, next_item, has, Polling,
}
use crk_io_board.Polling.Broadcast.{deliver_items}
use crk_io_board.Recording.{Recording, record_item, with_queue}
use crk_io_board.Recording.Session.{Poll, frames_of}
use crk_io_board.Stream.Session.{poll, close_stream, IoStatus}
use crk_io_board.Application.{
  Application, Client, Step, loadcells_polled, watch_item, disconnect, loadcells_task,
  io_status_task, read_item, with_loadcells,
}
use crk_io_board.Application.Services.{IsServing, same_number}
use crk_io_board.Application.Untouched.{IsUntouched, read-IsUntouched, close-IsUntouched}
use crk_io_board.Application.Soundness.{ClientApart}

-- The items that the recording has still to read.
abbrev pub unread : Recording (List Text) → List (Item (List Text))
unread r = (r.polling.queues r.queue).items

-- What the polls of the loadcells hand over, in order.
abbrev pub frame_of_step : Step → List (Item (List Text))
frame_of_step (loadcells_polled x) = x.item ∷ []
frame_of_step _ = []

-- What the recording will hold when it has read what waits and what comes.
abbrev pub prospect : Recording (List Text) → List (Item (List Text)) → List (List Text × ℕ)
prospect r later = r.recordings ++ frames_of (unread r ++ later)

-- The recording runs in both, over the same queue, and comes to the same in the end.
pub record IsOngoing (later later' : List (Item (List Text))) (r r' : Recording (List Text))
    : Type 0 where
  pub running : r'.recording_running ≡ true
  pub member : has r'.queue r'.polling.subscribers ≡ true
  pub same : prospect r' later' ≡ prospect r later

pub record IsRunning (r : Recording (List Text)) : Type 0 where
  pub running : r.recording_running ≡ true
  pub member : has r.queue r.polling.subscribers ≡ true

pub ongoing :
    (later : List (Item (List Text))) (r : Recording (List Text))
    → IsRunning r
    → IsOngoing later later r r
ongoing later r i = record { running = i.running; member = i.member; same = refl }

-- A change of the polling service that leaves the queue untouched.
pub IsOngoing-apart :
    (later : List (Item (List Text))) (r : Recording (List Text)) (p : Polling (List Text))
    → IsRunning r
    → IsUntouched r.queue r.polling p
    → IsOngoing later later r (record r { polling = p })
IsOngoing-apart later r p i u = record {
  running = i.running;
  member = u.member ∙ i.member;
  same = ap (λ q. r.recordings ++ frames_of (q.items ++ later)) u.queue;
}

pub polled-IsOngoing :
    (x : Poll (List Text)) (later : List (Item (List Text))) (r : Recording (List Text))
    → IsServing r.polling
    → IsRunning r
    → IsOngoing (x.item ∷ later) later r (record r { polling = poll x r.polling })
unfolding deliver
polled-IsOngoing x later r s i = record {
  running = i.running;
  member = i.member;
  same =
      ap (λ l. r.recordings ++ frames_of (l ++ later))
        (deliver_items x.item x.interval x.started x.now r.polling s.live s.polling.distinct r.queue
          i.member)
      ∙ ap (λ l. r.recordings ++ frames_of l) (append_assoc (unread r) (x.item ∷ []) later);
}

pub left_unread :
    (q : Queue (List Text)) (r : Recording (List Text))
    → ((with_queue r.queue q r.polling).queues r.queue).items ≡ q.items
left_unread q r = rw (same_number r.queue) refl

-- A pass of the recording, over the items of its queue.
pub item-IsOngoing :
    (is : List (Item (List Text))) (b : Bool) (later : List (Item (List Text)))
    (r : Recording (List Text))
    → unread r ≡ is
    → IsRunning r
    → IsOngoing later later r (record_item (next_item is b) r)
item-IsOngoing is b later r e i = record {
  running = recorded_on is b;
  member = recorded_member is b;
  same = recorded_frames is b e;
}
  where
    recorded_on :
        (is : List (Item (List Text))) (b : Bool)
        → (record_item (next_item is b) r).recording_running ≡ true
    recorded_on [] true = i.running
    recorded_on [] false = i.running
    recorded_on (source_result a t ∷ is) b = i.running
    recorded_on (source_error x t ∷ is) b = i.running

    recorded_member :
        (is : List (Item (List Text))) (b : Bool)
        → let r' = record_item (next_item is b) r in has r'.queue r'.polling.subscribers ≡ true
    recorded_member [] true = i.member
    recorded_member [] false = i.member
    recorded_member (source_result a t ∷ is) b = i.member
    recorded_member (source_error x t ∷ is) b = i.member

    recorded_frames :
        (is : List (Item (List Text))) (b : Bool)
        → unread r ≡ is
        → prospect (record_item (next_item is b) r) later ≡ prospect r later
    recorded_frames [] true e =
        ap (λ l. r.recordings ++ frames_of (l ++ later)) (left_unread _ r ∙ sym e)
    recorded_frames [] false e = refl
    recorded_frames (source_result a t ∷ is) b e =
        ap (λ l. (r.recordings ++ (a, t) ∷ []) ++ frames_of (l ++ later)) (left_unread _ r)
        ∙ append_assoc r.recordings ((a, t) ∷ []) (frames_of (is ++ later))
        ∙ sym (ap (λ l. r.recordings ++ frames_of (l ++ later)) e)
    recorded_frames (source_error x t ∷ is) b e =
        ap (λ l. r.recordings ++ frames_of (l ++ later)) (left_unread _ r)
        ∙ sym (ap (λ l. r.recordings ++ frames_of (l ++ later)) e)

pub if_IsOngoing :
    (b : Bool) (later later' : List (Item (List Text))) (r s s' : Recording (List Text))
    → IsOngoing later later' r s'
    → IsOngoing later later' r s
    → IsOngoing later later' r (if b then s' else s)
if_IsOngoing true later later' r s s' i' i = i'
if_IsOngoing false later later' r s s' i' i = i

pub gone-IsOngoing :
    (k : ℕ) (o : Option Client) (later : List (Item (List Text))) (s : Application)
    → ClientApart s.recording.queue s.error_queue s.next_queue o
    → IsRunning s.recording
    → IsOngoing later later s.recording (disconnect k o s).recording
gone-IsOngoing k none later s a i = ongoing later s.recording i
gone-IsOngoing k (some c) later s (l, d, r, e) i =
    IsOngoing-apart later s.recording
      (close_stream c.loadcells_enabled c.loadcells_queue s.recording.polling) i
      (close-IsUntouched s.recording.queue c.loadcells_enabled c.loadcells_queue s.recording.polling
        r)

pub if_recording :
    (b : Bool) (later : List (Item (List Text))) (s s' : Application)
    → IsOngoing later later s.recording s'.recording
    → IsOngoing later later s.recording s.recording
    → IsOngoing later later s.recording (if b then s' else s).recording
if_recording true later s s' i' i = i'
if_recording false later s s' i' i = i

pub read-IsOngoing :
    (o : Option Client) (later : List (Item (List Text))) (s : Application)
    → ClientApart s.recording.queue s.error_queue s.next_queue o
    → IsRunning s.recording
    → IsOngoing later later s.recording (loadcells_task o s).recording
read-IsOngoing none later s a i = ongoing later s.recording i
read-IsOngoing (some c) later s (l, d, r, e) i =
    if_recording c.loadcells_enabled later s (with_loadcells (read_item c.loadcells_queue) s)
      (IsOngoing-apart later s.recording (read_item c.loadcells_queue s.recording.polling) i
        (read-IsUntouched s.recording.queue c.loadcells_queue s.recording.polling r))
      (ongoing later s.recording i)

pub status_read-recording :
    (o : Option Client) (later : List (Item (List Text))) (s : Application)
    → IsRunning s.recording
    → IsOngoing later later s.recording (io_status_task o s).recording
status_read-recording none later s i = ongoing later s.recording i
status_read-recording (some c) later s i =
    if_recording c.doors_enabled later s _ (ongoing later s.recording i)
      (ongoing later s.recording i)

pub watch-recording :
    (is : List (Item IoStatus)) (b : Bool) (later : List (Item (List Text))) (s : Application)
    → IsRunning s.recording
    → IsOngoing later later s.recording (watch_item (next_item is b) s).recording
watch-recording [] true later s i = ongoing later s.recording i
watch-recording [] false later s i = ongoing later s.recording i
watch-recording (x ∷ is) b later s i = ongoing later s.recording i
