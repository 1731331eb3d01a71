-- ===== src/Recording/Session.antt =====
-- A recording session of src/services/recording.py, from `start_recording` through the polls of
-- src/services/polling/polling_service.py to the loop that fills the list.
use crk_io_board.Polling.Live.{AllLive}
use crk_io_board.Base.{
  ℕ, zero, suc, ◌≡◌, refl, ◌∙◌, sym, ap, true, some, List, [], ◌∷◌, ◌++◌, arith, ==_iff,
  if◌then◌else◌, Bool-cases, inl, inr, length, append_assoc, append_nil,
}
use crk_io_board.Errors.{ok, raise}
use crk_io_board.Polling.{
  Item, source_result, source_error, Queue, set_at, get_nowait, unwrap, next_item, has, add,
  Polling, subscribe, deliver,
}
use crk_io_board.Polling.Subscribers.{IsDistinct, add-IsDistinct}
use crk_io_board.Polling.Broadcast.{deliver-AllLive, deliver_items}
use crk_io_board.Recording.{Recording, start_recording, record_next, record_item}

-- A poll: what was fetched, and its times.
pub record Poll {ℓ} (A : Type ℓ) : Type ℓ where
  pub item : Item A
  pub interval : ℕ
  pub started : ℕ
  pub now : ℕ

abbrev pub poll_all {ℓ} : {A : Type ℓ} → List (Poll A) → Polling A → Polling A
poll_all [] p = p
poll_all (x ∷ xs) p = poll_all xs (deliver x.item x.interval x.started x.now p).0

abbrev pub items_of {ℓ} : {A : Type ℓ} → List (Poll A) → List (Item A)
items_of [] = []
items_of (x ∷ xs) = x.item ∷ items_of xs

-- The frames among the items, with their times.
abbrev pub frames_of {ℓ} : {A : Type ℓ} → List (Item A) → List (A × ℕ)
frames_of [] = []
frames_of (source_result a t ∷ is) = (a, t) ∷ frames_of is
frames_of (source_error e t ∷ is) = frames_of is

-- `n` passes of the recording loop
abbrev pub record_many {ℓ} : {A : Type ℓ} → ℕ → Recording A → Recording A
record_many zero r = r
record_many (suc n) r = record_many n (record_next r)

pub has-add : (q : ℕ) (js : List ℕ) → has q (add q js) ≡ true
has-add q js = elim (Bool-cases (has q js)) [
  | inl e ↦ rw e e
  | inr e ↦ rw (e, (==_iff q q).1 refl) refl
]

module _ {ℓ} {A : Type ℓ} where
  -- A subscriber's queue holds every fetched item, in order.
  pub poll_all-queue :
      (q : ℕ) (xs : List (Poll A)) (p : Polling A)
      → has q p.subscribers ≡ true
      → AllLive p.subscribers p.queues
      → IsDistinct p.subscribers
      → ((poll_all xs p).queues q).items ≡ (p.queues q).items ++ items_of xs
  unfolding deliver
  poll_all-queue q [] p member live distinct = sym (append_nil (p.queues q).items)
  poll_all-queue q (x ∷ xs) p member live distinct =
      let p' : Polling A = (deliver x.item x.interval x.started x.now p).0 in
      poll_all-queue q xs p' member
        (deliver-AllLive x.item x.interval x.started x.now p live distinct) distinct
      ∙ ap (λ l. l ++ items_of xs)
          (deliver_items x.item x.interval x.started x.now p live distinct q member)
      ∙ append_assoc (p.queues q).items (x.item ∷ []) (items_of xs)

  abbrev rest_of : Recording A → List (Item A) → Queue A
  rest_of r is = record { items = is; shut_down = (r.polling.queues r.queue).shut_down }

  next_recorded :
      (i : Item A) (is : List (Item A)) (r : Recording A)
      → (r.polling.queues r.queue).items ≡ i ∷ is
      → r.recording_running ≡ true
      → record_next r ≡ record_item (some (unwrap i, rest_of r is)) r
  unfolding record_next get_nowait
  next_recorded i is r e run =
      ap (λ b. if b then record_item (get_nowait (r.polling.queues r.queue)) r else r) run
      ∙ ap (λ l. record_item (next_item l (r.polling.queues r.queue).shut_down) r) e

  left_over :
      (r : Recording A) (q : Queue A) → (set_at r.queue q r.polling.queues r.queue).items ≡ q.items
  left_over r q = rw ((==_iff r.queue r.queue).1 refl) refl

  record_many-all :
      (n : ℕ) (is : List (Item A)) (r : Recording A)
      → (r.polling.queues r.queue).items ≡ is
      → length is ≡ n
      → r.recording_running ≡ true
      → (record_many n r).recordings ≡ r.recordings ++ frames_of is
  record_many-all zero [] r e l run = sym (append_nil r.recordings)
  record_many-all zero (i ∷ is) r e l run = absurd (omega arith)
  record_many-all (suc n) [] r e l run = absurd (omega arith)
  record_many-all (suc n) (source_result a t ∷ is) r e l run =
      let r' : Recording A = record_item (some (ok (a, t), rest_of r is)) r in
      ap (λ x. (record_many n x).recordings) (next_recorded (source_result a t) is r e run)
      ∙ record_many-all n is r' (left_over r (rest_of r is)) (omega arith) run
      ∙ append_assoc r.recordings ((a, t) ∷ []) (frames_of is)
  record_many-all (suc n) (source_error x t ∷ is) r e l run =
      let r' : Recording A = record_item (some (raise x, rest_of r is)) r in
      ap (λ x. (record_many n x).recordings) (next_recorded (source_error x t) is r e run)
      ∙ record_many-all n is r' (left_over r (rest_of r is)) (omega arith) run

  length-items_of : (xs : List (Poll A)) → length (items_of xs) ≡ length xs
  length-items_of [] = refl
  length-items_of (x ∷ xs) = ap suc (length-items_of xs)

  abbrev pub session_of : List (Poll A) → Recording A → Recording A
  session_of xs r =
      let s = start_recording true r in
      record_many (length xs) (record s { polling = poll_all xs s.polling })

  -- A recording that starts with its queue empty and all queues live holds, once the loop has caught
  -- up, exactly the frames that were polled since, in order and with their times; failed polls leave
  -- no entry.
  pub session_records :
      (xs : List (Poll A)) (r : Recording A)
      → (r.polling.queues r.queue).items ≡ []
      → AllLive (add r.queue r.polling.subscribers) r.polling.queues
      → IsDistinct r.polling.subscribers
      → (session_of xs r).recordings ≡ frames_of (items_of xs)
  unfolding start_recording subscribe
  session_records xs r e live distinct =
      let s : Recording A = start_recording true r in
      record_many-all (length xs) (items_of xs) (record s { polling = poll_all xs s.polling })
        (poll_all-queue r.queue xs s.polling (has-add r.queue r.polling.subscribers) live
            (add-IsDistinct r.queue r.polling.subscribers distinct)
          ∙ ap (λ l. l ++ items_of xs) e)
        (length-items_of xs) refl
