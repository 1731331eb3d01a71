-- ===== src/Application/Background.antt =====
-- The background task of a service of src/services: `start` creates it, and `stop` cancels it and
-- waits for its end. The event loop knows its tasks by number.
use crk_io_board.Base.{ℕ, suc, Bool, true, false, Option, none, some, List, ◌∷◌}
use crk_io_board.Polling.{remove}

pub record Tasks : Type 0 where
  pub next : ℕ
  pub live : List ℕ

-- `_running` and the task
pub record Worker : Type 0 where
  pub running : Bool
  pub task : Option ℕ

abbrev pub new_worker : Worker
new_worker = record { running = false; task = none }

-- The loop of a service leaves only by the cancellation, since it catches every other exception.
unfoldable pub start : Tasks → Worker → Tasks × Worker
start t w = (
  record t { next = suc t.next; live = t.next ∷ t.live },
  record w { running = true; task = some t.next },
)

abbrev pub cancel : Option ℕ → Tasks → Tasks
cancel none t = t
cancel (some k) t = record t { live = remove k t.live }

unfoldable pub stop : Tasks → Worker → Tasks × Worker
stop t w = (cancel w.task t, record w { running = false })
