-- ===== src/Diagnosis/Statistics/Roots.antt =====
-- The square root that `statistics.pstdev` takes for tools/post_move_diag.py, on exact fractions.
use native.Mathlib.Omega.{div_any}
use crk_io_board.Base.{
  ℕ, zero, suc, ◌+◌, ◌*◌, ◌/◌, ◌≤◌, ◌<◌, true, false, leb, leb→le, ◌==◌, ==_iff, if◌then◌else◌,
  Bool-cases, inl, inr, arith,
}

abbrev next_root : ℕ → ℕ → ℕ
next_root r n = if leb ((2 * r + 1) * (2 * r + 1)) n then 2 * r + 1 else 2 * r

-- The root of n, from the root of n / 4; as many rounds as n suffice.
abbrev pub root_in : ℕ → ℕ → ℕ
root_in zero n = 0
root_in (suc rounds) n = elim (n == 0) [ true ↦ 0 | false ↦ next_root (root_in rounds (n / 4)) n ]

unfoldable pub root : ℕ → ℕ
root n = root_in n n

next_root_lem :
    (r n : ℕ)
    → r * r ≤ n / 4
    → n / 4 < (r + 1) * (r + 1)
    → (next_root r n * next_root r n ≤ n) × (n < (next_root r n + 1) * (next_root r n + 1))
next_root_lem r n low high = elim (Bool-cases (leb ((2 * r + 1) * (2 * r + 1)) n)) [
  | inl e ↦ rw e (leb→le _ _ e, omega (arith, div_any n 4))
  | inr e ↦ rw e (omega (arith, div_any n 4), ground arith)
]

root_in_lem :
    (rounds n : ℕ)
    → n ≤ rounds
    → (root_in rounds n * root_in rounds n ≤ n)
      × (n < (root_in rounds n + 1) * (root_in rounds n + 1))
root_in_lem zero n h = (omega arith, omega arith)
root_in_lem (suc rounds) n h = elim (Bool-cases (n == 0)) [
  | inl e ↦ rw (root_in, e) (omega arith, omega (arith, (==_iff n 0).0 e))
  | inr e ↦
      let (low, high) = root_in_lem rounds (n / 4) (ground arith) in
      rw (root_in, e) (next_root_lem (root_in rounds (n / 4)) n low high)
]

-- `root n` is the largest number whose square is at most n.
pub root_lem : (n : ℕ) → (root n * root n ≤ n) × (n < (root n + 1) * (root n + 1))
unfolding root
root_lem n = root_in_lem n n (omega arith)

-- The number nearest to the root of a / b: half of what 4 * a / b has for its root, rounded up.
unfoldable pub nearest_root : ℕ → ℕ → ℕ
unfolding root
nearest_root a b = (root (4 * a / b) + 1) / 2
