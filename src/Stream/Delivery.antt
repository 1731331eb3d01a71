-- ===== src/Stream/Delivery.antt =====
-- A session of src/api/v1/routers/sse.py whose tasks and generator go on running delivers what was
-- polled.
use crk_io_board.Polling.Live.{AllLive}
use crk_io_board.Base.{
  ℕ, zero, suc, ◌≡◌, refl, sym, ap, ◌∙◌, arith, true, List, [], ◌∷◌, ◌++◌, Text, length, replicate,
  append_nil, if◌then◌else◌,
}
use crk_io_board.Polling.{Item, get_nowait}
use crk_io_board.Polling.Subscribers.{IsDistinct}
use crk_io_board.Stream.Tasks.{Event}
use crk_io_board.Stream.Session.{
  Session, Step, loadcells_polled, io_status_polled, loadcells_pass, doors_pass, event_sent, step,
  steps, begin, took_loadcells, yield_from,
}
use crk_io_board.Stream.Events.{of_loadcells, keep, item_events, loadcells_items}
use crk_io_board.Stream.Listening.{IsListening, get-first, taken_items, open-IsListening}
use crk_io_board.Stream.Loadcells.{loadcell_events, waiting, step-Holds, session_hears}

steps-append : (xs ys : List Step) (s : Session) → steps (xs ++ ys) s ≡ steps ys (steps xs s)
steps-append [] ys s = refl
steps-append (x ∷ xs) ys s = steps-append xs ys (step x s)

items-append :
    (xs ys : List Step) → loadcells_items (xs ++ ys) ≡ loadcells_items xs ++ loadcells_items ys
items-append [] ys = refl
items-append (loadcells_polled x ∷ xs) ys = ap (λ l. x.item ∷ l) (items-append xs ys)
items-append (io_status_polled x ∷ xs) ys = items-append xs ys
items-append (loadcells_pass now ∷ xs) ys = items-append xs ys
items-append (doors_pass ∷ xs) ys = items-append xs ys
items-append (event_sent ∷ xs) ys = items-append xs ys

-- The session reads the loadcells, and its queue is subscribed.
abbrev IsReading : Session → Type 0
IsReading s = IsListening s.loadcells_queue s.loadcells × (s.loadcells_enabled ≡ true)

steps-IsReading : (xs : List Step) (s : Session) → IsReading s → IsReading (steps xs s)
steps-IsReading [] s r = r
steps-IsReading (x ∷ xs) s (l, on) =
    let (l', on', e) = step-Holds x s [] l on in steps-IsReading xs (step x s) (l', on')

pass_waiting :
    (now : ℕ) (i : Item (List Text)) (is : List (Item (List Text))) (s : Session)
    → s.loadcells_enabled ≡ true
    → waiting s ≡ i ∷ is
    → waiting (step (loadcells_pass now) s) ≡ is
unfolding step
pass_waiting now i is s on e =
    ap
      (λ b.
        waiting (
          if b
          then took_loadcells now (get_nowait (s.loadcells.queues s.loadcells_queue)) s
          else s))
      on
    ∙ ap (λ o. waiting (took_loadcells now o s))
        (get-first (s.loadcells.queues s.loadcells_queue) i is e)
    ∙ taken_items s.loadcells_queue is s.loadcells

-- As many passes as items wait leave none waiting.
abbrev passes : ℕ → ℕ → List Step
passes now n = replicate n (loadcells_pass now)

drained :
    (now n : ℕ) (is : List (Item (List Text))) (s : Session)
    → IsReading s
    → waiting s ≡ is
    → length is ≡ n
    → waiting (steps (passes now n) s) ≡ []
drained now zero [] s r e l = e
drained now zero (i ∷ is) s r e l = absurd (omega arith)
drained now (suc n) [] s r e l = absurd (omega arith)
drained now (suc n) (i ∷ is) s r e l =
    drained now n is (step (loadcells_pass now) s) (steps-IsReading (loadcells_pass now ∷ []) s r)
      (pass_waiting now i is s r.1 e) (omega arith)

-- As many sends as events are queued leave none queued, and do not touch the items.
abbrev sends : ℕ → List Step
sends n = replicate n event_sent

yield_queue :
    (es : List Event) (s : Session)
    → s.event_queue ≡ es
    → (e : Event) (rest : List Event) → es ≡ e ∷ rest
    → (yield_from es s).event_queue ≡ rest
yield_queue [] s h e rest c = cc
yield_queue (x ∷ es) s h e rest c = cc

yield_waiting : (es : List Event) (s : Session) → waiting (yield_from es s) ≡ waiting s
yield_waiting [] s = refl
yield_waiting (e ∷ es) s = refl

sent :
    (n : ℕ) (es : List Event) (s : Session)
    → s.event_queue ≡ es
    → length es ≡ n
    → ((steps (sends n) s).event_queue ≡ []) × (waiting (steps (sends n) s) ≡ waiting s)
unfolding step
sent zero [] s h l = (h, refl)
sent zero (e ∷ es) s h l = absurd (omega arith)
sent (suc n) [] s h l = absurd (omega arith)
sent (suc n) (e ∷ es) s h l =
    let (queue, same) =
      sent n es (step event_sent s) (yield_queue s.event_queue s refl e es h) (omega arith) in
    (queue, same ∙ yield_waiting s.event_queue s)

-- The steps in which the session catches up: a pass for every item that waits, and then a send for
-- every event that is queued.
abbrev pub catch_up : ℕ → Session → List Step
catch_up now s =
    let taken = passes now (length (waiting s)) in
    taken ++ sends (length (steps taken s).event_queue)

unpolled : (now n m : ℕ) → loadcells_items (passes now n ++ sends m) ≡ []
unpolled now zero zero = refl
unpolled now zero (suc m) = unpolled now zero m
unpolled now (suc n) m = unpolled now n m

-- Whatever has happened since the session began, once it has caught up, after as many passes as
-- items were waiting and as many sends as events were queued, the client has received the loadcell
-- events of every item polled since, in order, the time of a failure left open.
pub session_delivers :
    (xs : List Step) (s : Session) (now : ℕ)
    → s.loadcells_enabled ≡ true
    → AllLive s.loadcells.subscribers s.loadcells.queues
    → IsDistinct s.loadcells.subscribers
    → let s' = steps xs (begin s) in
      keep of_loadcells (steps (catch_up now s') s').yielded
      ≡ item_events s.detector (loadcells_items xs)
unfolding begin
session_delivers xs s now on live distinct =
    let (l, e) =
      open-IsListening s.loadcells_enabled s.loadcells_queue s.loadcells on live distinct in
    let s₁ = steps xs (begin s) in
    let n = length (waiting s₁) in
    let s₂ = steps (passes now n) s₁ in
    let m = length s₂.event_queue in
    let s₃ = steps (sends m) s₂ in
    let ys = passes now n ++ sends m in
    let idle : waiting s₂ ≡ [] =
      drained now n (waiting s₁) s₁ (steps-IsReading xs (begin s) (l, on)) refl refl in
    let (empty, same) = sent m s₂.event_queue s₂ refl refl in
    let split : steps ys s₁ ≡ s₃ = steps-append (passes now n) (sends m) s₁ in
    let whole : steps (xs ++ ys) (begin s) ≡ s₃ = steps-append xs ys (begin s) ∙ split in
    let heard = session_hears (xs ++ ys) s on live distinct in
    ap (λ t. keep of_loadcells t.yielded) split
    ∙ sym (ap (keep of_loadcells) (ap (λ q. s₃.yielded ++ q) empty ∙ append_nil s₃.yielded))
    ∙ sym (append_nil (loadcell_events s₃))
    ∙ sym (ap (λ is. loadcell_events s₃ ++ item_events s₃.detector is) (same ∙ idle))
    ∙ sym (ap (λ t. loadcell_events t ++ item_events t.detector (waiting t)) whole)
    ∙ heard
    ∙ ap (item_events s.detector) (
        items-append xs ys
        ∙ ap (λ l. loadcells_items xs ++ l) (unpolled now n m)
        ∙ append_nil (loadcells_items xs))
