-- ===== src/Polling/Live.antt =====
-- The queues of src/services/polling that are not shut down.
use crk_io_board.Base.{
  ℕ, ◌≡◌, refl, ◌∙◌, sym, ap, true, false, Bool, List, [], ◌∷◌, ◌++◌, ◌==◌, ==_iff, if◌then◌else◌,
  Bool-cases, inl, inr, arith,
}
use crk_io_board.Polling.{Item, Queue, Store, set_at, has, add, remove}

module _ {ℓ} {A : Type ℓ} where
  abbrev pub pushed : Item A → Queue A → Queue A
  pushed i q = record q { items = q.items ++ i ∷ [] }

  -- None of the queues is shut down.
  abbrev pub AllLive : List ℕ → Store A → Type 0
  AllLive [] queues = Unit
  AllLive (q ∷ qs) queues = ((queues q).shut_down ≡ false) × AllLive qs queues

  pub live_if :
      (qs : List ℕ) (queues queues' : Store A)
      → ((j : ℕ) → (queues' j).shut_down ≡ (queues j).shut_down)
      → AllLive qs queues
      → AllLive qs queues'
  live_if [] queues queues' same h = tt
  live_if (q ∷ qs) queues queues' same (hq, h) = (same q ∙ hq, live_if qs queues queues' same h)

  pub pushed_shut :
      (i : Item A) (b : Bool) (q : Queue A) → (if b then pushed i q else q).shut_down ≡ q.shut_down
  pushed_shut i true q = refl
  pushed_shut i false q = refl

  pub set_live :
      (q : ℕ) (x : Queue A) (js : List ℕ) (queues : Store A)
      → ((queues q).shut_down ≡ false → x.shut_down ≡ false)
      → AllLive js queues
      → AllLive js (set_at q x queues)
  set_live q x [] queues k h = tt
  set_live q x (j ∷ js) queues k (hj, h) = (
    elim (Bool-cases (j == q)) [
      | inl e ↦ rw e (k (ap (λ i. (queues i).shut_down) (sym ((==_iff j q).0 e)) ∙ hj))
      | inr e ↦ rw e hj
    ],
    set_live q x js queues k h,
  )

  pub set_unsubscribed :
      (q : ℕ) (x : Queue A) (js : List ℕ) (queues : Store A)
      → has q js ≡ false
      → AllLive js queues
      → AllLive js (set_at q x queues)
  set_unsubscribed q x [] queues n h = tt
  set_unsubscribed q x (j ∷ js) queues n (hj, h) =
      let apart : (j == q) ≡ false = ground arith in
      (rw apart hj, set_unsubscribed q x js queues (ground arith) h)

  pub add_live :
      (q : ℕ) (js : List ℕ) (queues : Store A)
      → (queues q).shut_down ≡ false
      → AllLive js queues
      → AllLive (add q js) queues
  add_live q js queues k h = elim (Bool-cases (has q js)) [ inl e ↦ rw e h | inr e ↦ rw e (k, h) ]

  pub remove_live :
      (q : ℕ) (js : List ℕ) (queues : Store A) → AllLive js queues → AllLive (remove q js) queues
  remove_live q [] queues h = tt
  remove_live q (j ∷ js) queues (hj, h) = elim (Bool-cases (q == j)) [
    | inl e ↦ rw e h
    | inr e ↦ rw e (hj, remove_live q js queues h)
  ]
