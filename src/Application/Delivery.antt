-- ===== src/Application/Delivery.antt =====
-- What a poll hands to whom, at any moment of a run of the application of src/main.py.
use crk_io_board.Polling.Live.{pushed}
use crk_io_board.Base.{ℕ, ◌-◌, ◌≡◌, refl, ◌∙◌, true, List, [], ◌∷◌, Text, if◌then◌else◌}
use crk_io_board.Polling.{has, Polling, deliver}
use crk_io_board.Polling.Subscribers.{some_of}
use crk_io_board.Polling.Broadcast.{deliver_lem}
use crk_io_board.Recording.Session.{Poll}
use crk_io_board.Stream.Session.{IoStatus}
use crk_io_board.Application.{Step, steps, startup, new_application}
use crk_io_board.Application.Background.{Tasks}
use crk_io_board.Application.Services.{IsServing}
use crk_io_board.Application.Runs.{run, started-IsSound, steps-IsSound}

-- The poll appends its item to the queue of every subscriber, changes no other queue, and the loop
-- then sleeps for what is left of the interval.
abbrev pub Reaches {ℓ} : {A : Type ℓ} → Poll A → Polling A → Type ℓ
Reaches x p =
    let (p', pause) = deliver x.item x.interval x.started x.now p in
    ((j : ℕ)
      → p'.queues j ≡ (if has j p.subscribers then pushed x.item (p.queues j) else p.queues j))
    × (pause ≡ x.interval - (x.now - x.started))

reaches {ℓ} : {A : Type ℓ} (x : Poll A) (p : Polling A) → IsServing p → Reaches x p
reaches x p s =
    let (each, same, pause) =
      deliver_lem x.item x.interval x.started x.now p s.live s.polling.distinct in
    (each, pause)

has-some_of : (q : ℕ) (js : List ℕ) → has q js ≡ true → some_of js ≡ true
has-some_of q [] h = h
has-some_of q (j ∷ js) h = refl

-- Whatever has happened since the start-up, a poll of either service reaches every subscriber, the
-- loop of the loadcells is awake exactly when somebody is subscribed to them, and that of the IO
-- status never pauses.
pub run-poll :
    (tasks : Tasks) (door_limit deadbolt_limit : ℕ) (xs : List Step) (x : Poll (List Text))
    (y : Poll IoStatus)
    → let s = run tasks door_limit deadbolt_limit xs in
      Reaches x s.recording.polling
      × Reaches y s.io_status
      × (s.recording.polling.has_subscribers ≡ some_of s.recording.polling.subscribers)
      × (s.io_status.has_subscribers ≡ true)
run-poll tasks door_limit deadbolt_limit xs x y =
    let s₀ = startup (new_application tasks door_limit deadbolt_limit) in
    let s = steps xs s₀ in
    let i = steps-IsSound xs s₀ (started-IsSound tasks door_limit deadbolt_limit) in
    (
      reaches x s.recording.polling i.loadcells,
      reaches y s.io_status i.io_status,
      i.loadcells.polling.awake,
      i.io_status.polling.awake ∙ has-some_of s.error_queue s.io_status.subscribers i.watching,
    )
