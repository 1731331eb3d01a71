-- ===== src/Polling/Subscribers.antt =====
-- The event that wakes the loop of `PollingService` in src/services/polling/polling_service.py, and
-- the set of subscribers, over histories.
use crk_io_board.Base.{
  ℕ, ◌≡◌, refl, Bool, true, false, List, [], ◌∷◌, arith, length, ◌==◌, if◌then◌else◌, Bool-cases,
  inl, inr,
}
use crk_io_board.Polling.{Item, Polling, has, add, remove, subscribe, unsubscribe, deliver}

abbrev pub IsDistinct : List ℕ → Type 0
IsDistinct [] = Unit
IsDistinct (j ∷ js) = (has j js ≡ false) × IsDistinct js

abbrev pub some_of : List ℕ → Bool
some_of [] = false
some_of (j ∷ js) = true

-- The loop runs exactly when somebody is subscribed, and nobody is subscribed twice.
pub record IsPolling {ℓ} {A : Type ℓ} (p : Polling A) : Type 0 where
  pub awake : p.has_subscribers ≡ some_of p.subscribers
  pub distinct : IsDistinct p.subscribers

has-remove : (q j : ℕ) (js : List ℕ) → has j js ≡ false → has j (remove q js) ≡ false
has-remove q j [] h = refl
has-remove q j (k ∷ js) h = ground (arith, has-remove q j js)

pub remove-IsDistinct : (q : ℕ) (js : List ℕ) → IsDistinct js → IsDistinct (remove q js)
remove-IsDistinct q [] h = tt
remove-IsDistinct q (j ∷ js) (n, h) = elim (Bool-cases (q == j)) [
  | inl e ↦ rw e h
  | inr e ↦ rw e (has-remove q j js n, remove-IsDistinct q js h)
]

pub add-IsDistinct : (q : ℕ) (js : List ℕ) → IsDistinct js → IsDistinct (add q js)
add-IsDistinct q js h = elim (Bool-cases (has q js)) [ inl e ↦ rw e h | inr e ↦ rw e (e, h) ]

awake_add :
    (q : ℕ) (js : List ℕ) (b : Bool)
    → b ≡ some_of js
    → (if length (add q js) == 1 then true else b) ≡ some_of (add q js)
awake_add q [] b h = refl
awake_add q (j ∷ js) b h = elim (Bool-cases (has q (j ∷ js))) [
  | inl e ↦ rw (e, h) (ground arith)
  | inr e ↦ rw (e, h) (ground arith)
]

awake_for : (js : List ℕ) (b : Bool) → b ≡ true → (if length js == 0 then false else b) ≡ some_of js
awake_for [] b h = refl
awake_for (j ∷ js) b h = ground arith

awake_remove :
    (q : ℕ) (js : List ℕ) (b : Bool)
    → b ≡ some_of js
    → has q js ≡ true
    → (if length (remove q js) == 0 then false else b) ≡ some_of (remove q js)
awake_remove q [] b h m = cc
awake_remove q (j ∷ js) b h m = awake_for (remove q (j ∷ js)) b h

-- What happens to the service.
pub data Event {ℓ} (A : Type ℓ) : Type ℓ where
  subscribed : ℕ → Event A
  unsubscribed : ℕ → Event A
  delivered : Item A → (interval started now : ℕ) → Event A

abbrev pub step {ℓ} : {A : Type ℓ} → Event A → Polling A → Polling A
step (subscribed q) p = subscribe q p
step (unsubscribed q) p = unsubscribe q p
step (delivered i interval started now) p = (deliver i interval started now p).0

abbrev pub history {ℓ} : {A : Type ℓ} → List (Event A) → Polling A → Polling A
history [] p = p
history (e ∷ es) p = history es (step e p)

module _ {ℓ} {A : Type ℓ} where
  pub subscribe-IsPolling : (q : ℕ) (p : Polling A) → IsPolling p → IsPolling (subscribe q p)
  unfolding subscribe
  subscribe-IsPolling q p i = record {
    awake = awake_add q p.subscribers p.has_subscribers i.awake;
    distinct = add-IsDistinct q p.subscribers i.distinct;
  }

  pub unsubscribe-IsPolling : (q : ℕ) (p : Polling A) → IsPolling p → IsPolling (unsubscribe q p)
  unfolding unsubscribe
  unsubscribe-IsPolling q p i = elim (Bool-cases (has q p.subscribers)) [
    | inl e ↦ rw e (record {
      awake = awake_remove q p.subscribers p.has_subscribers i.awake e;
      distinct = remove-IsDistinct q p.subscribers i.distinct;
    })
    | inr e ↦ rw e i
  ]

  step-IsPolling : (e : Event A) (p : Polling A) → IsPolling p → IsPolling (step e p)
  unfolding deliver
  step-IsPolling (subscribed q) p i = subscribe-IsPolling q p i
  step-IsPolling (unsubscribed q) p i = unsubscribe-IsPolling q p i
  step-IsPolling (delivered x interval started now) p i = record {
    awake = i.awake;
    distinct = i.distinct;
  }

  -- Over any history of subscriptions and polls, the loop is awake exactly when the set of
  -- subscribers is not empty, and the set has no queue twice.
  pub history-IsPolling :
      (es : List (Event A)) (p : Polling A) → IsPolling p → IsPolling (history es p)
  history-IsPolling [] p i = i
  history-IsPolling (e ∷ es) p i = history-IsPolling es (step e p) (step-IsPolling e p i)
