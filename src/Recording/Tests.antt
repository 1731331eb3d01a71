-- ===== src/Recording/Tests.antt =====
-- The theorems on src/services/recording.py and src/services/polling on a short session.
use crk_io_board.Polling.Live.{pushed}
use crk_io_board.Base.{ℕ, ◌≡◌, refl, true, false, List, [], ◌∷◌, if◌then◌else◌}
use crk_io_board.Errors.{other, other_error}
use crk_io_board.Polling.{source_result, source_error, Polling, new_queue, has, deliver}
use crk_io_board.Polling.Subscribers.{
  IsPolling, Event, subscribed, unsubscribed, delivered, history, history-IsPolling,
}
use crk_io_board.Polling.Broadcast.{deliver_lem}
use crk_io_board.Recording.{Recording}
use crk_io_board.Recording.Session.{Poll, session_of, session_records}

abbrev idle : Polling ℕ
idle = record { subscribers = []; has_subscribers = false; queues = λ j. new_queue }

idle-IsPolling : IsPolling idle
idle-IsPolling = record { awake = refl; distinct = tt }

abbrev events : List (Event ℕ)
events = subscribed 4 ∷ subscribed 7 ∷ delivered (source_result 12 3) 500 0 9 ∷ unsubscribed 4 ∷ []

history-IsPolling_test : IsPolling (history events idle)
history-IsPolling_test = history-IsPolling events idle idle-IsPolling

abbrev two : Polling ℕ
two = record { subscribers = 4 ∷ 7 ∷ []; has_subscribers = true; queues = λ j. new_queue }

deliver_lem_test :
    let (p', pause) = deliver (source_result 12 3) 500 0 9 two in
    ((j : ℕ)
      → p'.queues j
        ≡ (if has j (4 ∷ 7 ∷ []) then pushed (source_result 12 3) new_queue else new_queue))
    × (p'.subscribers ≡ 4 ∷ 7 ∷ [])
    × (pause ≡ 491)
deliver_lem_test =
    deliver_lem (source_result 12 3) 500 0 9 two (refl, (refl, tt)) (refl, (refl, tt))

abbrev polls : List (Poll ℕ)
polls =
    record { item = source_result 12 3; interval = 500; started = 0; now = 9 }
    ∷ record { item = source_error (other other_error) 4; interval = 500; started = 500; now = 509 }
    ∷ record { item = source_result 15 8; interval = 500; started = 1000; now = 1009 }
    ∷ []

abbrev recorder : Recording ℕ
recorder = record { recordings = (1, 1) ∷ []; recording_running = false; queue = 9; polling = two }

session_records_test : (session_of polls recorder).recordings ≡ (12, 3) ∷ (15, 8) ∷ []
session_records_test =
    session_records polls recorder refl (refl, (refl, (refl, tt))) (refl, (refl, tt))
