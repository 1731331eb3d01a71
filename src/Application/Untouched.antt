-- ===== src/Application/Untouched.antt =====
-- A polling service of src/services/polling in the application of src/main.py: what a step
-- leaves of the other queues.
use crk_io_board.Base.{
  ℕ, ◌≡◌, refl, ◌∙◌, arith, Bool, true, false, List, [], ◌∷◌, ◌==◌, Bool-cases, inl, inr,
}
use crk_io_board.Polling.{
  Item, Queue, new_queue, get_nowait, next_item, has, add, remove, Polling, subscribe, unsubscribe,
}
use crk_io_board.Recording.{with_queue}
use crk_io_board.Stream.Session.{open_stream, close_stream}
use crk_io_board.Application.{read_item, take_item}

has-add_other : (j q : ℕ) (js : List ℕ) → (j == q) ≡ false → has j (add q js) ≡ has j js
has-add_other j q js h = elim (Bool-cases (has q js)) [ inl e ↦ rw e refl | inr e ↦ rw (e, h) refl ]

has-remove_other : (j q : ℕ) (js : List ℕ) → (j == q) ≡ false → has j (remove q js) ≡ has j js
has-remove_other j q [] h = refl
has-remove_other j q (k ∷ js) h = ground (arith, has-remove_other j q js)

-- Another queue: whether it is subscribed, and what it holds.
pub record IsUntouched {ℓ} {A : Type ℓ} (j : ℕ) (p p' : Polling A) : Type ℓ where
  pub member : has j p'.subscribers ≡ has j p.subscribers
  pub queue : p'.queues j ≡ p.queues j

module _ {ℓ} {A : Type ℓ} where
  untouched : (j : ℕ) (p : Polling A) → IsUntouched j p p
  untouched j p = record { member = refl; queue = refl }

  pub with_queue-IsUntouched :
      (j q : ℕ) (x : Queue A) (p : Polling A)
      → (j == q) ≡ false
      → IsUntouched j p (with_queue q x p)
  with_queue-IsUntouched j q x p h = record { member = refl; queue = rw h refl }

  pub subscribe-IsUntouched :
      (j q : ℕ) (p : Polling A) → (j == q) ≡ false → IsUntouched j p (subscribe q p)
  unfolding subscribe
  subscribe-IsUntouched j q p h = record {
    member = has-add_other j q p.subscribers h;
    queue = refl;
  }

  unsubscribe-IsUntouched :
      (j q : ℕ) (p : Polling A) → (j == q) ≡ false → IsUntouched j p (unsubscribe q p)
  unfolding unsubscribe
  unsubscribe-IsUntouched j q p h = elim (Bool-cases (has q p.subscribers)) [
    | inl e ↦ rw e (record { member = has-remove_other j q p.subscribers h; queue = refl })
    | inr e ↦ rw e (untouched j p)
  ]

  pub close-IsUntouched :
      (j : ℕ) (b : Bool) (q : ℕ) (p : Polling A)
      → (j == q) ≡ false
      → IsUntouched j p (close_stream b q p)
  close-IsUntouched j false q p h = untouched j p
  close-IsUntouched j true q p h =
      let u = unsubscribe-IsUntouched j q p h in record { member = u.member; queue = rw h u.queue }

  pub open-IsUntouched :
      (j : ℕ) (b : Bool) (q : ℕ) (p : Polling A)
      → (j == q) ≡ false
      → IsUntouched j p (open_stream b q p)
  open-IsUntouched j false q p h = untouched j p
  open-IsUntouched j true q p h =
      let u = subscribe-IsUntouched j q (with_queue q new_queue p) h in
      record { member = u.member; queue = u.queue ∙ rw h refl }

  next-IsUntouched :
      (j : ℕ) (is : List (Item A)) (b : Bool) (q : ℕ) (p : Polling A)
      → (j == q) ≡ false
      → IsUntouched j p (take_item q (next_item is b) p)
  next-IsUntouched j [] true q p h = with_queue-IsUntouched j q _ p h
  next-IsUntouched j [] false q p h = untouched j p
  next-IsUntouched j (i ∷ is) b q p h = with_queue-IsUntouched j q _ p h

  pub read-IsUntouched :
      (j q : ℕ) (p : Polling A) → (j == q) ≡ false → IsUntouched j p (read_item q p)
  unfolding get_nowait
  read-IsUntouched j q p h = next-IsUntouched j (p.queues q).items (p.queues q).shut_down q p h
