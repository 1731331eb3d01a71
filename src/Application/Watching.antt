-- ===== src/Application/Watching.antt =====
-- The tracking of the door by src/services/error_state_mgmt.py in a run of the application of
-- src/main.py, which the health check asks.
use crk_io_board.Base.{
  ℕ, ◌≡◌, refl, sym, ap, ◌∙◌, Bool, true, false, Option, none, some, List, [], ◌∷◌, ◌++◌, get_elem?,
  if◌then◌else◌, append_assoc,
}
use crk_io_board.Commands.{DeadboltAction}
use crk_io_board.Polling.{Item, unwrap, Queue, get_nowait, next_item, set_at}
use crk_io_board.Polling.Broadcast.{deliver_items}
use crk_io_board.Recording.Session.{Poll}
use crk_io_board.ErrorState.{ErrorState, observe_next, observe, set_deadbolt_action}
use crk_io_board.Stream.Session.{IoStatus}
use crk_io_board.Application.{
  Application, Client, Step, loadcells_polled, io_status_polled, recording_started,
  recording_stopped, recording_pass, error_state_pass, deadbolt_controlled, client_connected,
  client_gone, loadcells_read, io_status_read, step, steps, watch_item, disconnect, loadcells_task,
  io_status_task, read_item, with_loadcells,
}
use crk_io_board.Application.Services.{same_number}
use crk_io_board.Application.Untouched.{read-IsUntouched, close-IsUntouched, open-IsUntouched}
use crk_io_board.Application.Soundness.{ClientApart, IsSound, apart-get_elem?}
use crk_io_board.Application.Runs.{step-IsSound, made_other}

-- What the polls of the IO status hand over, in order.
abbrev pub item_of : Step → List (Item IoStatus)
item_of (io_status_polled x) = x.item ∷ []
item_of _ = []

abbrev pub status_items : List Step → List (Item IoStatus)
status_items [] = []
status_items (x ∷ xs) = item_of x ++ status_items xs

-- The items that the tracking has still to read.
abbrev pub waiting : Application → List (Item IoStatus)
waiting s = (s.io_status.queues s.error_queue).items

-- What a view of the tracking will be when the tracking has read what waits and what comes, where the
-- view is one of what has still to be read, and of the state.
abbrev pub outlook {ℓ} :
    {B : Type ℓ} → (List (Item IoStatus) → ErrorState → B) → Application → List (Item IoStatus) → B
outlook view s later = view (waiting s ++ later) s.error_state

-- The view does not depend on how far the tracking has read.
abbrev pub IsView {ℓ} : {B : Type ℓ} → (List (Item IoStatus) → ErrorState → B) → Type ℓ
IsView view =
    (i : Item IoStatus) (is : List (Item IoStatus)) (e : ErrorState)
    → view (i ∷ is) e ≡ view is (observe_next (unwrap i) e)

abbrev pub control_of : Step → Option (DeadboltAction × ℕ)
control_of (deadbolt_controlled action time) = some (action, time)
control_of _ = none

-- A control of the deadbolt does not matter to the view.
abbrev pub IsSteadyAt {ℓ} :
    {B : Type ℓ} → (List (Item IoStatus) → ErrorState → B) → Option (DeadboltAction × ℕ) → Type ℓ
IsSteadyAt view none = Unit
IsSteadyAt view (some (action, time)) =
    (is : List (Item IoStatus)) (e : ErrorState)
    → view is (set_deadbolt_action action time e) ≡ view is e

abbrev pub IsSteady {ℓ} :
    {B : Type ℓ} → (List (Item IoStatus) → ErrorState → B) → List Step → Type ℓ
IsSteady view [] = Unit
IsSteady view (x ∷ xs) = IsSteadyAt view (control_of x) × IsSteady view xs

pub left_items :
    (q : Queue IoStatus) (s : Application)
    → (set_at s.error_queue q s.io_status.queues s.error_queue).items ≡ q.items
left_items q s = rw (same_number s.error_queue) refl

module _ {ℓ} {B : Type ℓ} (view : List (Item IoStatus) → ErrorState → B) where
  same_waiting :
      (is is' later : List (Item IoStatus)) (e : ErrorState)
      → is ≡ is'
      → view (is ++ later) e ≡ view (is' ++ later) e
  same_waiting is is' later e h = ap (λ l. view (l ++ later) e) h

  polled-outlook :
      (x : Poll IoStatus) (s : Application) (later : List (Item IoStatus))
      → IsSound s
      → outlook view (step (io_status_polled x) s) later ≡ outlook view s (x.item ∷ later)
  unfolding step
  polled-outlook x s later i =
      same_waiting _ (waiting s ++ x.item ∷ []) later s.error_state (
        deliver_items x.item x.interval x.started x.now s.io_status i.io_status.live
          i.io_status.polling.distinct s.error_queue i.watching)
      ∙ ap (λ l. view l s.error_state) (append_assoc (waiting s) (x.item ∷ []) later)

  -- A pass of the tracking, over the items of its queue.
  watched-outlook :
      (reads : IsView view) (is : List (Item IoStatus)) (b : Bool) (s : Application)
      (later : List (Item IoStatus))
      → waiting s ≡ is
      → outlook view (watch_item (next_item is b) s) later ≡ view (is ++ later) s.error_state
  unfolding observe
  watched-outlook reads [] true s later e = same_waiting _ [] later s.error_state (left_items _ s)
  watched-outlook reads [] false s later e = same_waiting _ [] later s.error_state e
  watched-outlook reads (i ∷ is) b s later e =
      same_waiting _ is later (observe_next (unwrap i) s.error_state) (left_items _ s)
      ∙ sym (reads i (is ++ later) s.error_state)

  gone-outlook :
      (k : ℕ) (o : Option Client) (s : Application) (later : List (Item IoStatus))
      → ClientApart s.recording.queue s.error_queue s.next_queue o
      → outlook view (disconnect k o s) later ≡ outlook view s later
  gone-outlook k none s later a = refl
  gone-outlook k (some c) s later (l, d, r, e) =
      let u = close-IsUntouched s.error_queue c.doors_enabled c.io_status_queue s.io_status e in
      same_waiting _ (waiting s) later _ (ap (λ q. q.items) u.queue)

  if_outlook :
      (b : Bool) (s' s : Application) (later : List (Item IoStatus))
      → outlook view s' later ≡ outlook view s later
      → outlook view (if b then s' else s) later ≡ outlook view s later
  if_outlook true s' s later e = e
  if_outlook false s' s later e = refl

  loadcells_read-outlook :
      (o : Option Client) (s : Application) (later : List (Item IoStatus))
      → outlook view (loadcells_task o s) later ≡ outlook view s later
  loadcells_read-outlook none s later = refl
  loadcells_read-outlook (some c) s later =
      if_outlook c.loadcells_enabled (with_loadcells (read_item c.loadcells_queue) s) s later refl

  io_status_read-outlook :
      (o : Option Client) (s : Application) (later : List (Item IoStatus))
      → ClientApart s.recording.queue s.error_queue s.next_queue o
      → outlook view (io_status_task o s) later ≡ outlook view s later
  io_status_read-outlook none s later a = refl
  io_status_read-outlook (some c) s later (l, d, r, e) =
      let u = read-IsUntouched s.error_queue c.io_status_queue s.io_status e in
      if_outlook c.doors_enabled (record s { io_status = read_item c.io_status_queue s.io_status })
        s later (same_waiting _ (waiting s) later _ (ap (λ q. q.items) u.queue))

  step-outlook :
      (reads : IsView view) (x : Step) (s : Application) (later : List (Item IoStatus))
      → IsSteadyAt view (control_of x)
      → IsSound s
      → outlook view (step x s) later ≡ outlook view s (item_of x ++ later)
  unfolding step set_deadbolt_action get_nowait
  step-outlook reads (loadcells_polled x) s later steady i = refl
  step-outlook reads (io_status_polled x) s later steady i = polled-outlook x s later i
  step-outlook reads (recording_started clear) s later steady i = refl
  step-outlook reads recording_stopped s later steady i = refl
  step-outlook reads recording_pass s later steady i = refl
  step-outlook reads error_state_pass s later steady i =
      watched-outlook reads (waiting s) (s.io_status.queues s.error_queue).shut_down s later refl
  step-outlook reads (deadbolt_controlled action time) s later steady i =
      steady (waiting s ++ later) s.error_state
  step-outlook reads (client_connected loadcells doors) s later steady i =
      let u =
        open-IsUntouched s.error_queue doors s.next_queue s.io_status
          (made_other s.error_queue s.next_queue i.error_made) in
      same_waiting _ (waiting s) later s.error_state (ap (λ q. q.items) u.queue)
  step-outlook reads (client_gone k) s later steady i =
      gone-outlook k (get_elem? s.clients k) s later
        (apart-get_elem? s.recording.queue s.error_queue s.next_queue k s.clients i.apart)
  step-outlook reads (loadcells_read k) s later steady i =
      loadcells_read-outlook (get_elem? s.clients k) s later
  step-outlook reads (io_status_read k) s later steady i =
      io_status_read-outlook (get_elem? s.clients k) s later
        (apart-get_elem? s.recording.queue s.error_queue s.next_queue k s.clients i.apart)

  pub steps-outlook :
      (reads : IsView view) (xs : List Step) (s : Application)
      → IsSteady view xs
      → IsSound s
      → outlook view (steps xs s) [] ≡ outlook view s (status_items xs)
  steps-outlook reads [] s steady i = refl
  steps-outlook reads (x ∷ xs) s steady i =
      steps-outlook reads xs (step x s) steady.1 (step-IsSound x s i)
      ∙ step-outlook reads x s (status_items xs) steady.0 i
