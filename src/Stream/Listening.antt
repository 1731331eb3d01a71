-- ===== src/Stream/Listening.antt =====
-- The queue of a stream of src/api/v1/routers/sse.py while it is subscribed: what a poll of
-- src/services/polling/polling_service.py and a read do to it.
use crk_io_board.Polling.Live.{set_live, add_live, AllLive}
use crk_io_board.Base.{
  ℕ, ◌≡◌, refl, sym, ap, ◌∙◌, Bool, true, false, none, some, List, [], ◌∷◌, ◌++◌, ◌||◌, ◌==◌,
  ==_iff, Bool-cases, inl, inr,
}
use crk_io_board.Polling.{
  Item, Queue, Store, set_at, get_nowait, unwrap, has, Polling, subscribe, new_queue, deliver,
}
use crk_io_board.Polling.Subscribers.{IsDistinct, add-IsDistinct}
use crk_io_board.Polling.Broadcast.{deliver-AllLive, deliver_items}
use crk_io_board.Recording.{with_queue}
use crk_io_board.Recording.Session.{Poll, has-add}
use crk_io_board.Stream.Session.{poll, open_stream}

-- The queue is subscribed, and the polls reach everybody.
pub record IsListening {ℓ} {A : Type ℓ} (q : ℕ) (p : Polling A) : Type 0 where
  pub member : has q p.subscribers ≡ true
  pub live : AllLive p.subscribers p.queues
  pub distinct : IsDistinct p.subscribers

module _ {ℓ} {A : Type ℓ} where
  live_member :
      (q : ℕ) (js : List ℕ) (queues : Store A)
      → has q js ≡ true
      → AllLive js queues
      → (queues q).shut_down ≡ false
  live_member q [] queues m h = cc
  live_member q (j ∷ js) queues m (hj, h) = elim (Bool-cases (q == j)) [
    | inl e ↦ ap (λ j. (queues j).shut_down) ((==_iff q j).0 e) ∙ hj
    | inr e ↦ live_member q js queues (ap (λ b. b || has q js) (sym e) ∙ m) h
  ]

  pub listening_live : (q : ℕ) (p : Polling A) → IsListening q p → (p.queues q).shut_down ≡ false
  listening_live q p l = live_member q p.subscribers p.queues l.member l.live

  -- A poll appends its item to the queue, which goes on listening.
  pub polled :
      (q : ℕ) (x : Poll A) (p : Polling A)
      → IsListening q p
      → IsListening q (poll x p) × (((poll x p).queues q).items ≡ (p.queues q).items ++ x.item ∷ [])
  unfolding deliver
  polled q x p l = (
    record {
      member = l.member;
      live = deliver-AllLive x.item x.interval x.started x.now p l.live l.distinct;
      distinct = l.distinct;
    },
    deliver_items x.item x.interval x.started x.now p l.live l.distinct q l.member,
  )

  -- The service after a read that leaves these items in the queue.
  abbrev pub taken : ℕ → List (Item A) → Polling A → Polling A
  taken q is p = with_queue q (record (p.queues q) { items = is }) p

  pub taken-IsListening :
      (q : ℕ) (is : List (Item A)) (p : Polling A) → IsListening q p → IsListening q (taken q is p)
  taken-IsListening q is p l = record {
    member = l.member;
    live = set_live q (record (p.queues q) { items = is }) p.subscribers p.queues (λ k. k) l.live;
    distinct = l.distinct;
  }

  pub taken_items :
      (q : ℕ) (is : List (Item A)) (p : Polling A) → ((taken q is p).queues q).items ≡ is
  taken_items q is p = rw ((==_iff q q).1 refl) refl

  -- A live queue without items makes the reader wait; otherwise it hands over the first item.
  pub get-empty : (x : Queue A) → x.shut_down ≡ false → x.items ≡ [] → get_nowait x ≡ none
  unfolding get_nowait
  get-empty x live e = rw (e, live) refl

  pub get-first :
      (x : Queue A) (i : Item A) (is : List (Item A))
      → x.items ≡ i ∷ is
      → get_nowait x ≡ some (unwrap i, record x { items = is })
  unfolding get_nowait
  get-first x i is e = rw e refl

  -- A stream that is opened listens, to a queue that is empty.
  pub open-IsListening :
      (b : Bool) (q : ℕ) (p : Polling A)
      → b ≡ true
      → AllLive p.subscribers p.queues
      → IsDistinct p.subscribers
      → IsListening q (open_stream b q p) × (((open_stream b q p).queues q).items ≡ [])
  unfolding subscribe
  open-IsListening false q p on live distinct = cc
  open-IsListening true q p on live distinct = (
    record {
      member = has-add q p.subscribers;
      live =
          add_live q p.subscribers (set_at q new_queue p.queues) (rw ((==_iff q q).1 refl) refl)
            (set_live q new_queue p.subscribers p.queues (λ k. refl) live);
      distinct = add-IsDistinct q p.subscribers distinct;
    },
    rw ((==_iff q q).1 refl) refl,
  )
