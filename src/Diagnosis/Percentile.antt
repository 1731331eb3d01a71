-- ===== src/Diagnosis/Percentile.antt =====
-- `percentile` of tools/post_move_diag.py, for the fraction n / d.
pub mod Share
use crk_io_board.Base.{
  ℕ, ◌+◌, ◌-◌, ◌*◌, ◌/◌, Option, List, [], ◌∷◌, leb, length, get_elem?, if◌then◌else◌,
}
use crk_io_board.Numbers.{ℚ, leb_ℚ}

abbrev pub insert : ℚ → List ℚ → List ℚ
insert v [] = v ∷ []
insert v (w ∷ ws) = if leb_ℚ v w then v ∷ w ∷ ws else w ∷ insert v ws

-- `sorted(values)`
abbrev pub sorted : List ℚ → List ℚ
sorted [] = []
sorted (v ∷ vs) = insert v (sorted vs)

-- `math.ceil(fraction * count) - 1`, kept from 0 to count - 1
abbrev pub rank : ℕ → ℕ → ℕ → ℕ
rank n d count =
    let index = (n * count + d - 1) / d - 1 in if leb (count - 1) index then count - 1 else index

unfoldable pub percentile : ℕ → ℕ → List ℚ → Option ℚ
percentile n d values = get_elem? (sorted values) (rank n d (length values))
