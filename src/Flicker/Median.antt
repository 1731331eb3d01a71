-- ===== src/Flicker/Median.antt =====
-- Bounds of the median of tools/loadcell_diag.py.
use crk_io_board.Base.{
  ℕ, zero, suc, ◌/◌, ◌<◌, ◌≡◌, refl, ap, ◌∙◌, List, [], ◌∷◌, arith, leb, length, get_or, Bool-cases,
  inl, inr,
}
use crk_io_board.Flicker.{insert, sorted, median}

module _ (P : ℕ → Type 0) where
  abbrev pub All : List ℕ → Type 0
  All [] = Unit
  All (v ∷ vs) = P v × All vs

  insert-All : (v : ℕ) (vs : List ℕ) → P v → All vs → All (insert v vs)
  insert-All v [] p h = (p, tt)
  insert-All v (w ∷ ws) p (q, h) = elim (Bool-cases (leb v w)) [
    | inl e ↦ rw e (p, (q, h))
    | inr e ↦ rw e (q, insert-All v ws p h)
  ]

  sorted-All : (vs : List ℕ) → All vs → All (sorted vs)
  sorted-All [] h = tt
  sorted-All (v ∷ vs) (p, h) = insert-All v (sorted vs) p (sorted-All vs h)

  get_or-All : (vs : List ℕ) (k : ℕ) → All vs → k < length vs → P (get_or vs k 0)
  get_or-All [] k h l = absurd (omega arith)
  get_or-All (v ∷ vs) zero (p, h) l = p
  get_or-All (v ∷ vs) (suc k) (p, h) l = get_or-All vs k h (omega arith)

length-insert : (v : ℕ) (vs : List ℕ) → length (insert v vs) ≡ suc (length vs)
length-insert v [] = refl
length-insert v (w ∷ ws) = elim (Bool-cases (leb v w)) [
  | inl e ↦ rw e refl
  | inr e ↦ rw e (ap suc (length-insert v ws))
]

length-sorted : (vs : List ℕ) → length (sorted vs) ≡ length vs
length-sorted [] = refl
length-sorted (v ∷ vs) = length-insert v (sorted vs) ∙ ap suc (length-sorted vs)

middle_inside : (n : ℕ) → suc n / 2 < suc n
middle_inside n = omega arith

-- What holds of every value of a list that is not empty holds of its median.
pub median-All : (P : ℕ → Type 0) (v : ℕ) (vs : List ℕ) → All P (v ∷ vs) → P (median (v ∷ vs))
unfolding median
median-All P v vs h =
    get_or-All P (sorted (v ∷ vs)) (length (v ∷ vs) / 2) (sorted-All P (v ∷ vs) h)
      (omega (arith, length-sorted (v ∷ vs), middle_inside (length vs)))
