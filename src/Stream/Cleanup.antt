-- ===== src/Stream/Cleanup.antt =====
-- The `finally` block of `unified_event_generator` in src/api/v1/routers/sse.py, after any session.
use mathlib.Core.Path.{subst}
use crk_io_board.Base.{
  ℕ, ◌≡◌, refl, sym, ap, ◌∙◌, Bool, true, false, Option, none, some, List, [], ◌∷◌, Text, ==_iff,
  if◌then◌else◌,
}
use crk_io_board.Errors.{Result}
use crk_io_board.Polling.{
  Queue, Polling, has, add, remove, subscribe, unsubscribe, deliver, get_nowait,
}
use crk_io_board.Recording.Session.{has-add}
use crk_io_board.Stream.Session.{
  Session, Step, loadcells_polled, io_status_polled, loadcells_pass, doors_pass, event_sent, step,
  steps, begin, finish, took_loadcells, took_doors, yield_from, open_stream, close_stream, IoStatus,
}
use crk_io_board.Stream.Tasks.{Event}

-- What a session does not change: who is subscribed, and its own settings.
abbrev pub fixed : Session → List ℕ × List ℕ × (Bool × ℕ) × (Bool × ℕ)
fixed s = (
  s.loadcells.subscribers,
  s.io_status.subscribers,
  (s.loadcells_enabled, s.loadcells_queue),
  (s.doors_enabled, s.io_status_queue),
)

took_loadcells-fixed :
    (now : ℕ) (o : Option (Result (List Text × ℕ) × Queue (List Text))) (s : Session)
    → fixed (took_loadcells now o s) ≡ fixed s
took_loadcells-fixed now none s = refl
took_loadcells-fixed now (some (r, q)) s = refl

took_doors-fixed :
    (o : Option (Result (IoStatus × ℕ) × Queue IoStatus)) (s : Session)
    → fixed (took_doors o s) ≡ fixed s
took_doors-fixed none s = refl
took_doors-fixed (some (r, q)) s = refl

yield-fixed : (es : List Event) (s : Session) → fixed (yield_from es s) ≡ fixed s
yield-fixed [] s = refl
yield-fixed (e ∷ es) s = refl

if_fixed : (b : Bool) (s' s : Session) → fixed s' ≡ fixed s → fixed (if b then s' else s) ≡ fixed s
if_fixed true s' s e = e
if_fixed false s' s e = refl

step-fixed : (x : Step) (s : Session) → fixed (step x s) ≡ fixed s
unfolding step deliver
step-fixed (loadcells_polled x) s = refl
step-fixed (io_status_polled x) s = refl
step-fixed (loadcells_pass now) s =
    let o = get_nowait (s.loadcells.queues s.loadcells_queue) in
    if_fixed s.loadcells_enabled (took_loadcells now o s) s (took_loadcells-fixed now o s)
step-fixed doors_pass s =
    let o = get_nowait (s.io_status.queues s.io_status_queue) in
    if_fixed s.doors_enabled (took_doors o s) s (took_doors-fixed o s)
step-fixed event_sent s = yield-fixed s.event_queue s

pub steps-fixed : (xs : List Step) (s : Session) → fixed (steps xs s) ≡ fixed s
steps-fixed [] s = refl
steps-fixed (x ∷ xs) s = steps-fixed xs (step x s) ∙ step-fixed x s

remove-add : (q : ℕ) (js : List ℕ) → has q js ≡ false → remove q (add q js) ≡ js
remove-add q js h = rw (h, (==_iff q q).1 refl) refl

-- Whoever else is subscribed stays so; the queue of the stream is shut down, and no longer
-- subscribed.
abbrev pub IsClosed {ℓ} : {A : Type ℓ} → Bool → ℕ → Polling A → Polling A → Type 0
IsClosed b q p p' = (p'.subscribers ≡ p.subscribers) × (b ≡ true → (p'.queues q).shut_down ≡ true)

module _ {ℓ} {A : Type ℓ} where
  close_stream-IsClosed :
      (b : Bool) (q : ℕ) (p p' : Polling A)
      → has q p.subscribers ≡ false
      → p'.subscribers ≡ (open_stream b q p).subscribers
      → IsClosed b q p (close_stream b q p')
  unfolding subscribe unsubscribe
  close_stream-IsClosed false q p p' fresh e = (e, λ on. cc)
  close_stream-IsClosed true q p p' fresh e = (
    rw (e, has-add q p.subscribers) (remove-add q p.subscribers fresh),
    λ on. rw ((==_iff q q).1 refl) refl,
  )

  own-IsClosed :
      (b : Bool) (q : ℕ) (p p' : Polling A) (own : Bool × ℕ)
      → own ≡ (b, q)
      → has q p.subscribers ≡ false
      → p'.subscribers ≡ (open_stream b q p).subscribers
      → IsClosed b q p (close_stream own.0 own.1 p')
  own-IsClosed b q p p' own e fresh same =
      subst (λ own. IsClosed b q p (close_stream own.0 own.1 p')) (sym e)
        (close_stream-IsClosed b q p p' fresh same)

-- Whatever happened in a session, once it has finished the subscribers of both polling services are
-- those of before, and the queues of its streams are shut down: no client leaves a queue behind.
pub finish_restores :
    (xs : List Step) (s : Session)
    → has s.loadcells_queue s.loadcells.subscribers ≡ false
    → has s.io_status_queue s.io_status.subscribers ≡ false
    → let s' = finish (steps xs (begin s)) in
      IsClosed s.loadcells_enabled s.loadcells_queue s.loadcells s'.loadcells
      × IsClosed s.doors_enabled s.io_status_queue s.io_status s'.io_status
unfolding begin finish
finish_restores xs s fl fd =
    let s' = steps xs (begin s) in
    let e : fixed s' ≡ fixed (begin s) = steps-fixed xs (begin s) in
    (
      own-IsClosed s.loadcells_enabled s.loadcells_queue s.loadcells s'.loadcells
          (s'.loadcells_enabled, s'.loadcells_queue) (ap (λ t. t.2) e) fl (ap (λ t. t.0) e),
      own-IsClosed s.doors_enabled s.io_status_queue s.io_status s'.io_status
          (s'.doors_enabled, s'.io_status_queue) (ap (λ t. t.3) e) fd (ap (λ t. t.1) e),
    )
