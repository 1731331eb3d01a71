-- ===== src/Stream/Loadcells.antt =====
-- The loadcell events of a session of src/api/v1/routers/sse.py, against the stream of events that
-- the polled items stand for.
use mathlib.Core.Path.{subst}
use crk_io_board.Polling.Live.{AllLive}
use crk_io_board.Base.{
  ℕ, ◌≡◌, refl, sym, ap, ◌∙◌, true, Option, none, some, List, [], ◌∷◌, ◌++◌, Text, append_assoc,
  append_nil, if◌then◌else◌, Bool-cases, inl, inr,
}
use crk_io_board.Errors.{Result}
use crk_io_board.Polling.{Item, Queue, unwrap, get_nowait}
use crk_io_board.Polling.Subscribers.{IsDistinct}
use crk_io_board.Recording.Session.{Poll}
use crk_io_board.Stream.Tasks.{Event, poll_loadcells, poll_doors}
use crk_io_board.Stream.Events.{
  of_loadcells, keep, keep_append, item_events, loadcells_items, kept_pass, dropped_doors,
}
use crk_io_board.Stream.Session.{
  Session, Step, loadcells_polled, io_status_polled, loadcells_pass, doors_pass, event_sent, step,
  steps, begin, took_loadcells, took_doors, yield_from, IoStatus,
}
use crk_io_board.Stream.Listening.{
  IsListening, polled, taken, taken-IsListening, taken_items, get-empty, get-first, listening_live,
  open-IsListening,
}

-- The loadcell events that are sent or queued.
abbrev pub loadcell_events : Session → List Event
loadcell_events s = keep of_loadcells (s.yielded ++ s.event_queue)

abbrev pub waiting : Session → List (Item (List Text))
waiting s = (s.loadcells.queues s.loadcells_queue).items

-- All that the client is to hear of the polled items and of those still to come.
abbrev outlook : Session → List (Item (List Text)) → List Event
outlook s later = loadcell_events s ++ item_events s.detector (waiting s ++ later)

abbrev Holds : Session → Session → List (Item (List Text)) → List (Item (List Text)) → Type 0
Holds s s' polls later =
    IsListening s'.loadcells_queue s'.loadcells
    × (s'.loadcells_enabled ≡ true)
    × (outlook s' later ≡ outlook s (polls ++ later))

-- New events at the end of the event queue.
queued :
    (s : Session) (es : List Event)
    → keep of_loadcells (s.yielded ++ (s.event_queue ++ es))
      ≡ loadcell_events s ++ keep of_loadcells es
queued s es =
    ap (keep of_loadcells) (sym (append_assoc s.yielded s.event_queue es))
    ∙ keep_append of_loadcells (s.yielded ++ s.event_queue) es

module _ (s : Session) (l : IsListening s.loadcells_queue s.loadcells)
    (on : s.loadcells_enabled ≡ true) (later : List (Item (List Text))) where
  polled-Holds : (x : Poll (List Text)) → Holds s (step (loadcells_polled x) s) (x.item ∷ []) later
  unfolding step
  polled-Holds x =
      let (l', e) = polled s.loadcells_queue x s.loadcells l in
      (
        l',
        on,
        ap (λ is. loadcell_events s ++ item_events s.detector (is ++ later)) e
            ∙ ap (λ is. loadcell_events s ++ item_events s.detector is)
                (append_assoc (waiting s) (x.item ∷ []) later),
      )

  -- The task takes the first item: its events go from what is waiting to what is queued.
  pass_first :
      (now : ℕ) (i : Item (List Text)) (is : List (Item (List Text)))
      → waiting s ≡ i ∷ is
      → let rest = record (s.loadcells.queues s.loadcells_queue) { items = is } in
        Holds s (took_loadcells now (some (unwrap i, rest)) s) [] later
  pass_first now i is e =
      let (kept, same) = kept_pass s.detector (unwrap i) now in
      let (es, d) = poll_loadcells s.detector (unwrap i) now in
      let left = ((taken s.loadcells_queue is s.loadcells).queues s.loadcells_queue).items in
      (
        taken-IsListening s.loadcells_queue is s.loadcells l,
        on,
        ap (λ k. k ++ item_events d (left ++ later)) (queued s es)
            ∙ ap (λ k. loadcell_events s ++ k ++ item_events d (left ++ later)) kept
            ∙ ap
                (λ d.
                  loadcell_events s
                  ++ (poll_loadcells s.detector (unwrap i) 0).0
                  ++ item_events d (left ++ later))
                same
            ∙ ap
                (λ is.
                  loadcell_events s
                  ++ (poll_loadcells s.detector (unwrap i) 0).0
                  ++ item_events (poll_loadcells s.detector (unwrap i) 0).1 (is ++ later))
                (taken_items s.loadcells_queue is s.loadcells)
            ∙ append_assoc (loadcell_events s) (poll_loadcells s.detector (unwrap i) 0).0
                (item_events (poll_loadcells s.detector (unwrap i) 0).1 (is ++ later))
            ∙ ap (λ is. loadcell_events s ++ item_events s.detector (is ++ later)) (sym e),
      )

  pass-Holds : (now : ℕ) → Holds s (step (loadcells_pass now) s) [] later
  unfolding step
  pass-Holds now =
      subst
        (λ b.
          Holds s
            (if b
              then took_loadcells now (get_nowait (s.loadcells.queues s.loadcells_queue)) s
              else s)
            [] later)
        (sym on) (take_from (waiting s) refl)
    where
      take_from :
          (is : List (Item (List Text)))
          → waiting s ≡ is
          → Holds s
              (took_loadcells now (get_nowait (s.loadcells.queues s.loadcells_queue)) s)
              []
              later
      take_from [] e =
          rw
            (get-empty (s.loadcells.queues s.loadcells_queue)
              (listening_live s.loadcells_queue s.loadcells l) e)
            (l, on, refl)
      take_from (i ∷ is) e =
          rw (get-first (s.loadcells.queues s.loadcells_queue) i is e) (pass_first now i is e)

  took_doors-Holds :
      (o : Option (Result (IoStatus × ℕ) × Queue IoStatus)) → Holds s (took_doors o s) [] later
  took_doors-Holds none = (l, on, refl)
  took_doors-Holds (some (r, q)) = (
    l,
    on,
    ap (λ k. k ++ item_events s.detector (waiting s ++ later))
        (queued s (poll_doors r)
          ∙ ap (λ k. loadcell_events s ++ k) (dropped_doors r)
          ∙ append_nil (loadcell_events s)),
  )

  doors-Holds : Holds s (step doors_pass s) [] later
  unfolding step
  doors-Holds = elim (Bool-cases s.doors_enabled) [
    | inl e ↦ subst (λ b. Holds s (if b then took else s) [] later) (sym e) (took_doors-Holds door)
    | inr e ↦ subst (λ b. Holds s (if b then took else s) [] later) (sym e) (l, on, refl)
  ]
    where
      door : Option (Result (IoStatus × ℕ) × Queue IoStatus)
      door = get_nowait (s.io_status.queues s.io_status_queue)

      took : Session
      took = took_doors door s

  sent-Holds : Holds s (step event_sent s) [] later
  unfolding step
  sent-Holds = yield_holds s.event_queue refl
    where
      yield_holds : (es : List Event) → s.event_queue ≡ es → Holds s (yield_from es s) [] later
      yield_holds [] e = (l, on, refl)
      yield_holds (x ∷ es) e = (
        l,
        on,
        ap (λ k. keep of_loadcells k ++ item_events s.detector (waiting s ++ later))
            (append_assoc s.yielded (x ∷ []) es ∙ ap (λ k. s.yielded ++ k) (sym e)),
      )

pub step-Holds :
    (x : Step) (s : Session) (later : List (Item (List Text)))
    → IsListening s.loadcells_queue s.loadcells
    → s.loadcells_enabled ≡ true
    → Holds s (step x s) (loadcells_items (x ∷ [])) later
unfolding step
step-Holds (loadcells_polled x) s later l on = polled-Holds s l on later x
step-Holds (io_status_polled x) s later l on = (l, on, refl)
step-Holds (loadcells_pass now) s later l on = pass-Holds s l on later now
step-Holds doors_pass s later l on = doors-Holds s l on later
step-Holds event_sent s later l on = sent-Holds s l on later

items_first :
    (x : Step) (xs : List Step)
    → loadcells_items (x ∷ []) ++ loadcells_items xs ≡ loadcells_items (x ∷ xs)
items_first (loadcells_polled x) xs = refl
items_first (io_status_polled x) xs = refl
items_first (loadcells_pass now) xs = refl
items_first doors_pass xs = refl
items_first event_sent xs = refl

steps_hold :
    (xs : List Step) (s : Session)
    → IsListening s.loadcells_queue s.loadcells
    → s.loadcells_enabled ≡ true
    → outlook (steps xs s) [] ≡ outlook s (loadcells_items xs)
steps_hold [] s l on = refl
steps_hold (x ∷ xs) s l on =
    let (l', on', e) = step-Holds x s (loadcells_items xs) l on in
    steps_hold xs (step x s) l' on' ∙ e ∙ ap (outlook s) (items_first x xs)

-- A client that asks for the loadcells hears of every poll: whatever the interleaving of polls,
-- passes of the two tasks and sends since the session began, the loadcell events sent and queued so
-- far, followed by those of the items that still wait, are the events of an uninterrupted
-- detector run over all items polled, in order; the time of a failure is left open.
pub session_hears :
    (xs : List Step) (s : Session)
    → s.loadcells_enabled ≡ true
    → AllLive s.loadcells.subscribers s.loadcells.queues
    → IsDistinct s.loadcells.subscribers
    → let s' = steps xs (begin s) in
      loadcell_events s' ++ item_events s'.detector (waiting s')
      ≡ item_events s.detector (loadcells_items xs)
unfolding begin
session_hears xs s on live distinct =
    let (l, e) =
      open-IsListening s.loadcells_enabled s.loadcells_queue s.loadcells on live distinct in
    ap (λ is. loadcell_events s' ++ item_events s'.detector is) (sym (append_nil (waiting s')))
    ∙ steps_hold xs (begin s) l on
    ∙ ap (λ is. item_events s.detector (is ++ loadcells_items xs)) e
  where
    s' : Session
    s' = steps xs (begin s)
