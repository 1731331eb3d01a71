-- ===== src/Application/Services.antt =====
-- A polling service of src/services/polling in the application of src/main.py: what keeps its
-- broadcasts whole.
use crk_io_board.Polling.Live.{AllLive, set_live, set_unsubscribed, add_live, remove_live}
use crk_io_board.Base.{
  ℕ, ◌≡◌, refl, sym, ap, ◌∙◌, Bool, true, false, List, [], ◌∷◌, ◌==◌, ==_iff, Bool-cases, inl, inr,
}
use crk_io_board.Polling.{
  Item, Queue, new_queue, get_nowait, next_item, has, remove, Polling, subscribe, unsubscribe,
  deliver,
}
use crk_io_board.Polling.Subscribers.{
  IsDistinct, IsPolling, subscribe-IsPolling, unsubscribe-IsPolling,
}
use crk_io_board.Polling.Broadcast.{deliver-AllLive, deliver_shut}
use crk_io_board.Recording.{with_queue}
use crk_io_board.Recording.Session.{Poll}
use crk_io_board.Stream.Session.{poll, open_stream, close_stream}
use crk_io_board.Application.{read_item, take_item}

-- Nobody is subscribed twice, the loop is awake exactly when somebody is subscribed, and every
-- subscribed queue takes items.
pub record IsServing {ℓ} {A : Type ℓ} (p : Polling A) : Type 0 where
  pub polling : IsPolling p
  pub live : AllLive p.subscribers p.queues

pub same_number : (q : ℕ) → (q == q) ≡ true
same_number q = (==_iff q q).1 refl

has-remove_self : (q : ℕ) (js : List ℕ) → IsDistinct js → has q (remove q js) ≡ false
has-remove_self q [] d = refl
has-remove_self q (k ∷ js) (fresh, d) = elim (Bool-cases (q == k)) [
  | inl e ↦ rw e (ap (λ k. has k js) ((==_iff q k).0 e) ∙ fresh)
  | inr e ↦ rw (e, e) (has-remove_self q js d)
]

module _ {ℓ} {A : Type ℓ} where
  pub with_queue-IsServing :
      (q : ℕ) (x : Queue A) (p : Polling A)
      → ((p.queues q).shut_down ≡ false → x.shut_down ≡ false)
      → IsServing p
      → IsServing (with_queue q x p)
  with_queue-IsServing q x p k s = record {
    polling = record { awake = s.polling.awake; distinct = s.polling.distinct };
    live = set_live q x p.subscribers p.queues k s.live;
  }

  pub subscribe-IsServing :
      (q : ℕ) (p : Polling A)
      → (p.queues q).shut_down ≡ false
      → IsServing p
      → IsServing (subscribe q p)
  unfolding subscribe
  subscribe-IsServing q p k s = record {
    polling = subscribe-IsPolling q p s.polling;
    live = add_live q p.subscribers p.queues k s.live;
  }

  pub poll-IsServing : (x : Poll A) (p : Polling A) → IsServing p → IsServing (poll x p)
  unfolding deliver
  poll-IsServing x p s = record {
    polling = record { awake = s.polling.awake; distinct = s.polling.distinct };
    live = deliver-AllLive x.item x.interval x.started x.now p s.live s.polling.distinct;
  }

  -- A poll and a read leave every mark of a shutdown as it is.
  pub poll_shut :
      (j : ℕ) (x : Poll A) (p : Polling A)
      → IsServing p
      → ((poll x p).queues j).shut_down ≡ (p.queues j).shut_down
  poll_shut j x p s = deliver_shut x.item x.interval x.started x.now p s.live s.polling.distinct j

  set_shut :
      (j q : ℕ) (x : Queue A) (p : Polling A)
      → x.shut_down ≡ (p.queues q).shut_down
      → ((with_queue q x p).queues j).shut_down ≡ (p.queues j).shut_down
  set_shut j q x p k = elim (Bool-cases (j == q)) [
    | inl e ↦ rw e (k ∙ ap (λ i. (p.queues i).shut_down) (sym ((==_iff j q).0 e)))
    | inr e ↦ rw e refl
  ]

  next_shut :
      (j : ℕ) (is : List (Item A)) (b : Bool) (q : ℕ) (p : Polling A)
      → (p.queues q).shut_down ≡ b
      → ((take_item q (next_item is b) p).queues j).shut_down ≡ (p.queues j).shut_down
  next_shut j [] true q p e = set_shut j q _ p (sym e)
  next_shut j [] false q p e = refl
  next_shut j (i ∷ is) b q p e = set_shut j q _ p (sym e)

  pub read_shut :
      (j q : ℕ) (p : Polling A) → ((read_item q p).queues j).shut_down ≡ (p.queues j).shut_down
  unfolding get_nowait
  read_shut j q p = next_shut j (p.queues q).items (p.queues q).shut_down q p refl

  next_member :
      (j : ℕ) (is : List (Item A)) (b : Bool) (q : ℕ) (p : Polling A)
      → has j (take_item q (next_item is b) p).subscribers ≡ has j p.subscribers
  next_member j [] true q p = refl
  next_member j [] false q p = refl
  next_member j (i ∷ is) b q p = refl

  pub read_member :
      (j q : ℕ) (p : Polling A) → has j (read_item q p).subscribers ≡ has j p.subscribers
  unfolding get_nowait
  read_member j q p = next_member j (p.queues q).items (p.queues q).shut_down q p

  pub unsubscribed :
      (q : ℕ) (p : Polling A) → IsServing p → has q (unsubscribe q p).subscribers ≡ false
  unfolding unsubscribe
  unsubscribed q p s = elim (Bool-cases (has q p.subscribers)) [
    | inl e ↦ rw e (has-remove_self q p.subscribers s.polling.distinct)
    | inr e ↦ rw e e
  ]

  unsubscribe-IsServing : (q : ℕ) (p : Polling A) → IsServing p → IsServing (unsubscribe q p)
  unfolding unsubscribe
  unsubscribe-IsServing q p s = record {
    polling = unsubscribe-IsPolling q p s.polling;
    live = left_live;
  }
    where
      left_live : AllLive (unsubscribe q p).subscribers (unsubscribe q p).queues
      left_live = elim (Bool-cases (has q p.subscribers)) [
        | inl e ↦ rw (e, unsubscribe) (remove_live q p.subscribers p.queues s.live)
        | inr e ↦ rw (e, unsubscribe) s.live
      ]

  pub close-IsServing :
      (b : Bool) (q : ℕ) (p : Polling A) → IsServing p → IsServing (close_stream b q p)
  close-IsServing false q p s = s
  close-IsServing true q p s =
      let p' = unsubscribe q p in
      let s' = unsubscribe-IsServing q p s in
      record {
        polling = record { awake = s'.polling.awake; distinct = s'.polling.distinct };
        live =
            set_unsubscribed q (record (p'.queues q) { shut_down = true }) p'.subscribers p'.queues
              (unsubscribed q p s) s'.live;
      }

  pub open-IsServing :
      (b : Bool) (q : ℕ) (p : Polling A) → IsServing p → IsServing (open_stream b q p)
  open-IsServing false q p s = s
  open-IsServing true q p s =
      subscribe-IsServing q (with_queue q new_queue p) (rw (same_number q) refl)
        (with_queue-IsServing q new_queue p (λ k. refl) s)

  -- A read takes an item off, and leaves the mark of a queue that is shut down.
  next-IsServing :
      (is : List (Item A)) (b : Bool) (q : ℕ) (p : Polling A)
      → (p.queues q).shut_down ≡ b
      → IsServing p
      → IsServing (take_item q (next_item is b) p)
  next-IsServing [] true q p e s = with_queue-IsServing q _ p (λ k. absurd (cc)) s
  next-IsServing [] false q p e s = s
  next-IsServing (i ∷ is) b q p e s = with_queue-IsServing q _ p (λ k. sym e ∙ k) s

  pub read-IsServing : (q : ℕ) (p : Polling A) → IsServing p → IsServing (read_item q p)
  unfolding get_nowait
  read-IsServing q p s = next-IsServing (p.queues q).items (p.queues q).shut_down q p refl s
