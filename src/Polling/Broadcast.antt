-- ===== src/Polling/Broadcast.antt =====
-- What a poll of src/services/polling/polling_service.py puts into which queue.
use crk_io_board.Base.{
  ℕ, ◌-◌, ◌≡◌, refl, ◌∙◌, sym, ap, true, false, ◌||◌, none, some, List, [], ◌∷◌, ◌++◌, ◌==◌, ==_iff,
  if◌then◌else◌, Bool-cases, inl, inr,
}
use crk_io_board.Polling.{Item, Queue, Store, set_at, put_item, has, Polling, broadcast, deliver}
use crk_io_board.Polling.Subscribers.{IsDistinct}
use crk_io_board.Polling.Live.{AllLive, pushed, set_live, live_if, pushed_shut}

module _ {ℓ} {A : Type ℓ} where
  put-live : (i : Item A) (q : Queue A) → q.shut_down ≡ false → put_item i q ≡ some (pushed i q)
  unfolding put_item
  put-live i q h = ap (λ b. if b then none else some (pushed i q)) h

  pushed_at :
      (i : Item A) (q j : ℕ) (qs : List ℕ) (queues : Store A)
      → has q qs ≡ false
      → (if has j qs
          then pushed i (set_at q (pushed i (queues q)) queues j)
          else set_at q (pushed i (queues q)) queues j)
        ≡ (if j == q || has j qs then pushed i (queues j) else queues j)
  pushed_at i q j qs queues fresh = elim (Bool-cases (j == q)) [
    | inl e ↦
        let at : j ≡ q = (==_iff j q).0 e in
        rw (e, ap (λ x. has x qs) at ∙ fresh) (ap (λ x. pushed i (queues x)) (sym at))
    | inr e ↦ rw e refl
  ]

  broadcast-live :
      (i : Item A) (qs : List ℕ) (queues : Store A)
      → AllLive qs queues
      → IsDistinct qs
      → ((broadcast i qs queues).1 ≡ true)
        × ((j : ℕ)
            → (broadcast i qs queues).0 j ≡ (if has j qs then pushed i (queues j) else queues j))
  unfolding broadcast
  broadcast-live i [] queues live distinct = (refl, λ j. refl)
  broadcast-live i (q ∷ qs) queues (lq, live) (fresh, distinct) =
      let queues' : Store A = set_at q (pushed i (queues q)) queues in
      let (whole, each) =
        broadcast-live i qs queues' (set_live q (pushed i (queues q)) qs queues (λ k. k) live)
          distinct in
      rw (put-live i (queues q) lq, broadcast)
        (whole, λ j. each j ∙ pushed_at i q j qs queues fresh)

  -- With live queues, a poll appends what was fetched once to the queue of every subscriber, and
  -- changes no other queue; the loop then sleeps for what is left of the interval.
  pub deliver_lem :
      (i : Item A) (interval started now : ℕ) (p : Polling A)
      → AllLive p.subscribers p.queues
      → IsDistinct p.subscribers
      → let (p', pause) = deliver i interval started now p in
        ((j : ℕ)
          → p'.queues j ≡ (if has j p.subscribers then pushed i (p.queues j) else p.queues j))
        × (p'.subscribers ≡ p.subscribers)
        × (pause ≡ interval - (now - started))
  unfolding deliver
  deliver_lem i interval started now p live distinct =
      let (whole, each) = broadcast-live i p.subscribers p.queues live distinct in
      (each, refl, ap (λ b. if b then interval - (now - started) else interval) whole)

  module _ (i : Item A) (interval started now : ℕ) (p : Polling A)
      (live : AllLive p.subscribers p.queues) (distinct : IsDistinct p.subscribers) where
    -- No queue is shut down by it, or opened again.
    pub deliver_shut :
        (j : ℕ) → ((deliver i interval started now p).0.queues j).shut_down ≡ (p.queues j).shut_down
    deliver_shut j =
        ap (λ y. y.shut_down) ((deliver_lem i interval started now p live distinct).0 j)
        ∙ pushed_shut i (has j p.subscribers) (p.queues j)

    pub deliver-AllLive : AllLive p.subscribers (deliver i interval started now p).0.queues
    deliver-AllLive =
        live_if p.subscribers p.queues (deliver i interval started now p).0.queues deliver_shut live

    pub deliver_items :
        (q : ℕ)
        → has q p.subscribers ≡ true
        → ((deliver i interval started now p).0.queues q).items ≡ (p.queues q).items ++ i ∷ []
    deliver_items q member =
        ap (λ y. y.items) ((deliver_lem i interval started now p live distinct).0 q)
        ∙ ap (λ b. (if b then pushed i (p.queues q) else p.queues q).items) member
