-- ===== src/Polling.antt =====
-- src/services/polling: what a data source hands over, the queues of the subscribers, and
-- `PollingService`. A queue is a number, and the store says what each queue holds. Between two
-- awaits nothing else runs, so a history of the service is a sequence of the operations below.
pub mod Subscribers
pub mod Live
pub mod Broadcast
use crk_io_board.Base.{
  ℕ, zero, suc, ◌+◌, ◌-◌, ◌≡◌, Bool, true, false, ◌||◌, not, Option, none, some, List, [], ◌∷◌,
  ◌++◌, length, ◌==◌, if◌then◌else◌,
}
use crk_io_board.Errors.{Result, ok, raise, Raised, other, queue_shut_down}

-- DataSourceResult and DataSourceError, with their timestamps
pub data Item {ℓ} (A : Type ℓ) : Type ℓ where
  source_result : A → ℕ → Item A
  source_error : Raised → ℕ → Item A

-- The `fetch` of LoadCellsDataSource and IOStatusDataSource: whatever the command raises is handed over.
abbrev pub source_fetch {ℓ} : {A : Type ℓ} → Result A → ℕ → Item A
source_fetch (ok a) now = source_result a now
source_fetch (raise e) now = source_error e now

-- StreamQueue
pub record Queue {ℓ} (A : Type ℓ) : Type ℓ where
  pub items : List (Item A)
  pub shut_down : Bool

abbrev pub new_queue {ℓ} : {A : Type ℓ} → Queue A
new_queue = record { items = []; shut_down = false }

-- `item.data, item.timestamp`, or the error raised again
abbrev pub unwrap {ℓ} : {A : Type ℓ} → Item A → Result (A × ℕ)
unwrap (source_result a t) = ok (a, t)
unwrap (source_error e t) = raise e

abbrev pub next_item {ℓ} : {A : Type ℓ} → List (Item A) → Bool → Option (Result (A × ℕ) × Queue A)
next_item [] true = some (raise (other queue_shut_down), record { items = []; shut_down = true })
next_item [] false = none
next_item (i ∷ is) b = some (unwrap i, record { items = is; shut_down = b })

-- StreamQueue.get_nowait, which `get` waits for: none while the queue is empty.
unfoldable pub get_nowait {ℓ} : {A : Type ℓ} → Queue A → Option (Result (A × ℕ) × Queue A)
get_nowait q = next_item q.items q.shut_down

-- `queue.put(item)` of an unbounded queue, which never waits; none stands for QueueShutDown.
unfoldable pub put_item {ℓ} : {A : Type ℓ} → Item A → Queue A → Option (Queue A)
put_item i q = if q.shut_down then none else some (record q { items = q.items ++ i ∷ [] })

abbrev pub Store {ℓ} : Type ℓ → Type ℓ
Store A = ℕ → Queue A

abbrev pub set_at {ℓ} : {A : Type ℓ} → ℕ → Queue A → Store A → Store A
set_at q x queues j = if j == q then x else queues j

pub record Polling {ℓ} (A : Type ℓ) : Type ℓ where
  pub subscribers : List ℕ
  pub has_subscribers : Bool
  pub queues : Store A

-- `q in subscribers`, `add` and `remove` of the set
abbrev pub has : ℕ → List ℕ → Bool
has q [] = false
has q (j ∷ js) = q == j || has q js

abbrev pub add : ℕ → List ℕ → List ℕ
add q js = if has q js then js else q ∷ js

abbrev pub remove : ℕ → List ℕ → List ℕ
remove q [] = []
remove q (j ∷ js) = if q == j then js else j ∷ remove q js

unfoldable pub subscribe {ℓ} : {A : Type ℓ} → ℕ → Polling A → Polling A
subscribe q p =
    let js = add q p.subscribers in
    record p {
      subscribers = js;
      has_subscribers = if length js == 1 then true else p.has_subscribers;
    }

unfoldable pub unsubscribe {ℓ} : {A : Type ℓ} → ℕ → Polling A → Polling A
unsubscribe q p =
    if has q p.subscribers
    then (let js = remove q p.subscribers in
        record p {
          subscribers = js;
          has_subscribers = if length js == 0 then false else p.has_subscribers;
        })
    else p

abbrev pub put_at {ℓ} : {A : Type ℓ} → ℕ → Option (Queue A) → Store A → Option (Store A)
put_at q none queues = none
put_at q (some x) queues = some (set_at q x queues)

-- The broadcast: the queues in turn, up to the first that is shut down.
unfoldable pub broadcast {ℓ} : {A : Type ℓ} → Item A → List ℕ → Store A → Store A × Bool
unfolding put_item
broadcast i [] queues = (queues, true)
broadcast i (q ∷ qs) queues = elim (put_at q (put_item i (queues q)) queues) [
  | none ↦ (queues, false)
  | some queues' ↦ broadcast i qs queues'
]

-- A pass of `_loop` from the end of the fetch, over the subscribers of that moment: the time to
-- sleep is what is left of the interval, or all of it when the broadcast raised.
unfoldable pub deliver {ℓ} : {A : Type ℓ} → Item A → ℕ → ℕ → ℕ → Polling A → Polling A × ℕ
unfolding broadcast
deliver i interval started now p =
    let (queues, whole) = broadcast i p.subscribers p.queues in
    (record p { queues = queues }, if whole then interval - (now - started) else interval)
