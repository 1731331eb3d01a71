-- ===== src/Application/Soundness.antt =====
-- What holds of the application of src/main.py from its start-up to its shutdown, whatever happens.
use mathlib.Core.Path.{subst}
use crk_io_board.Base.{
  ℕ, zero, suc, ◌<◌, ◌≡◌, refl, sym, ap, ◌∙◌, arith, Bool, true, false, Option, none, some, List,
  [], ◌∷◌, Text, ◌==◌, get_elem?, if◌then◌else◌,
}
use crk_io_board.Polling.{Item, get_nowait, next_item, has}
use crk_io_board.Recording.{Recording, record_next, record_item}
use crk_io_board.Stream.Session.{IoStatus}
use crk_io_board.Application.{Application, Client, read_item, take_item, watch_item, without}
use crk_io_board.Application.Services.{IsServing, read-IsServing, read_shut, read_member}

-- The queues of a client are none of the services' own, and none of those to come.
abbrev pub ClientApart : (recorder error next : ℕ) → Option Client → Type 0
ClientApart r e n none = Unit
ClientApart r e n (some c) =
    (c.loadcells_queue < n)
    × (c.io_status_queue < n)
    × ((r == c.loadcells_queue) ≡ false)
    × ((e == c.io_status_queue) ≡ false)

abbrev pub AllApart : (recorder error next : ℕ) → List Client → Type 0
AllApart r e n [] = Unit
AllApart r e n (c ∷ cs) = ClientApart r e n (some c) × AllApart r e n cs

pub record IsSound (s : Application) : Type 0 where
  pub loadcells : IsServing s.recording.polling
  pub io_status : IsServing s.io_status
  pub watching : has s.error_queue s.io_status.subscribers ≡ true
  pub recorder : (s.recording.polling.queues s.recording.queue).shut_down ≡ false
  pub error_made : s.error_queue < s.next_queue
  pub recorder_made : s.recording.queue < s.next_queue
  pub apart : AllApart s.recording.queue s.error_queue s.next_queue s.clients

pub apart_later : (r e n : ℕ) (cs : List Client) → AllApart r e n cs → AllApart r e (suc n) cs
apart_later r e n [] a = tt
apart_later r e n (c ∷ cs) ((l, i, x, y), a) =
    ((omega arith, omega arith, x, y), apart_later r e n cs a)

-- A queue made now is not a client's.
pub apart_renewed : (r e n : ℕ) (cs : List Client) → AllApart r e n cs → AllApart n e (suc n) cs
apart_renewed r e n [] a = tt
apart_renewed r e n (c ∷ cs) ((l, i, x, y), a) =
    ((omega arith, omega arith, ground arith, y), apart_renewed r e n cs a)

pub apart-get_elem? :
    (r e n i : ℕ) (cs : List Client) → AllApart r e n cs → ClientApart r e n (get_elem? cs i)
apart-get_elem? r e n i [] a = tt
apart-get_elem? r e n zero (c ∷ cs) a = a.0
apart-get_elem? r e n (suc i) (c ∷ cs) a = apart-get_elem? r e n i cs a.1

pub apart-without :
    (r e n i : ℕ) (cs : List Client) → AllApart r e n cs → AllApart r e n (without i cs)
apart-without r e n i [] a = tt
apart-without r e n zero (c ∷ cs) a = a.1
apart-without r e n (suc i) (c ∷ cs) a = (a.0, apart-without r e n i cs a.1)

-- A pass of the recording reads its queue, and keeps the queue.
item_recorded :
    (is : List (Item (List Text))) (b : Bool) (r : Recording (List Text))
    → ((record_item (next_item is b) r).polling ≡ take_item r.queue (next_item is b) r.polling)
      × ((record_item (next_item is b) r).queue ≡ r.queue)
item_recorded [] true r = (refl, refl)
item_recorded [] false r = (refl, refl)
item_recorded (Item.source_result a t ∷ is) b r = (refl, refl)
item_recorded (Item.source_error e t ∷ is) b r = (refl, refl)

-- What the recording's part of `IsSound` asks for.
pub record IsRecorder (q : ℕ) (r : Recording (List Text)) : Type 0 where
  pub same : r.queue ≡ q
  pub serving : IsServing r.polling
  pub open_queue : (r.polling.queues q).shut_down ≡ false

recorded :
    (r r' : Recording (List Text))
    → IsServing r.polling
    → (r.polling.queues r.queue).shut_down ≡ false
    → r'.polling ≡ read_item r.queue r.polling
    → r'.queue ≡ r.queue
    → IsRecorder r.queue r'
recorded r r' s o p q = record {
  same = q;
  serving = subst IsServing (sym p) (read-IsServing r.queue r.polling s);
  open_queue = ap (λ x. (x.queues r.queue).shut_down) p ∙ read_shut r.queue r.queue r.polling ∙ o;
}

if_IsRecorder :
    (b : Bool) (q : ℕ) (r r' : Recording (List Text))
    → IsRecorder q r'
    → IsRecorder q r
    → IsRecorder q (if b then r' else r)
if_IsRecorder true q r r' i' i = i'
if_IsRecorder false q r r' i' i = i

pub next-IsRecorder :
    (r : Recording (List Text))
    → IsServing r.polling
    → (r.polling.queues r.queue).shut_down ≡ false
    → IsRecorder r.queue (record_next r)
unfolding record_next get_nowait
next-IsRecorder r s o =
    let x = r.polling.queues r.queue in
    let r' = record_item (next_item x.items x.shut_down) r in
    let (p, q) = item_recorded x.items x.shut_down r in
    if_IsRecorder r.recording_running r.queue r r' (recorded r r' s o p q)
      (record { same = refl; serving = s; open_queue = o })

-- A pass of the tracking reads its queue.
pub item_watched :
    (is : List (Item IoStatus)) (b : Bool) (s : Application)
    → (watch_item (next_item is b) s).io_status
      ≡ take_item s.error_queue (next_item is b) s.io_status
item_watched [] true s = refl
item_watched [] false s = refl
item_watched (i ∷ is) b s = refl

-- The rest of the application stays as it is.
abbrev pub others : Application → Recording (List Text) × ℕ × ℕ × List Client
others s = (s.recording, s.error_queue, s.next_queue, s.clients)

pub item_others :
    (is : List (Item IoStatus)) (b : Bool) (s : Application)
    → others (watch_item (next_item is b) s) ≡ others s
item_others [] true s = refl
item_others [] false s = refl
item_others (i ∷ is) b s = refl

pub watched :
    (s s' : Application)
    → IsSound s
    → s'.io_status ≡ read_item s.error_queue s.io_status
    → others s' ≡ others s
    → IsSound s'
watched s s' i p o = record {
  loadcells = subst (λ t. IsServing t.0.polling) (sym o) i.loadcells;
  io_status = subst IsServing (sym p) (read-IsServing s.error_queue s.io_status i.io_status);
  watching =
      ap (λ t. has t.1 s'.io_status.subscribers) o
      ∙ ap (λ p. has s.error_queue p.subscribers) p
      ∙ read_member s.error_queue s.error_queue s.io_status
      ∙ i.watching;
  recorder = subst (λ t. (t.0.polling.queues t.0.queue).shut_down ≡ false) (sym o) i.recorder;
  error_made = subst (λ t. t.1 < t.2) (sym o) i.error_made;
  recorder_made = subst (λ t. t.0.queue < t.2) (sym o) i.recorder_made;
  apart = subst (λ t. AllApart t.0.queue t.1 t.2 t.3) (sym o) i.apart;
}
