-- ===== src/Flicker/Turned.antt =====
-- Two frames of tools/loadcell_diag.py that are the same one, with its signs turned or not.
use crk_io_board.Base.{
  ℕ, ◌*◌, ◌≤◌, ◌<◌, ◌≡◌, refl, Bool, true, false, none, some, List, [], ◌∷◌, arith, leb, ltb,
  lt→ltb, leb→le, le→leb, if◌then◌else◌, Bool-cases, inl, inr, ◌⊎◌,
}
use crk_io_board.Base.Int.{ℤ, pos, negsuc, neg_ℤ, abs_ℤ, ◌+ℤ◌, ◌-ℤ◌}
use crk_io_board.Flicker.{Frame, keep_pair, pairs_of, median, err_same, err_neg, flipped, xor}
use crk_io_board.Flicker.Median.{All, median-All}

-- A frame as it is, or with all its signs turned.
abbrev pub turned_value : Bool → ℤ → ℤ
turned_value true v = neg_ℤ v
turned_value false v = v

abbrev pub turn : Frame → Bool → Frame
turn [] b = []
turn (none ∷ f) b = none ∷ turn f b
turn (some v ∷ f) b = some (turned_value b v) ∷ turn f b

-- Some reading is large enough.
abbrev pub IsSignificant : ℕ → Frame → Type 0
IsSignificant least [] = ⊥
IsSignificant least (none ∷ f) = IsSignificant least f
IsSignificant least (some v ∷ f) = (least ≤ abs_ℤ v) ⊎ IsSignificant least f

-- The second reading of a pair is the first one, or its negation.
abbrev pub PairIs : Bool → ℕ → ℤ × ℤ → Type 0
PairIs s least (a, b) = (least ≤ abs_ℤ a) × (b ≡ turned_value s a)

abbrev pub AllPairs : Bool → ℕ → List (ℤ × ℤ) → Type 0
AllPairs s least [] = Unit
AllPairs s least (p ∷ ps) = PairIs s least p × AllPairs s least ps

abs-turned : (b : Bool) (v : ℤ) → abs_ℤ (turned_value b v) ≡ abs_ℤ v
abs-turned true (pos n) = ground arith
abs-turned true (negsuc n) = ground arith
abs-turned false v = refl

turned_twice : (x y : Bool) (v : ℤ) → turned_value y v ≡ turned_value (xor x y) (turned_value x v)
turned_twice true true (pos n) = ground arith
turned_twice true true (negsuc n) = ground arith
turned_twice true false (pos n) = ground arith
turned_twice true false (negsuc n) = ground arith
turned_twice false y v = refl

same_and_opposite :
    (a : ℤ)
    → (abs_ℤ (a -ℤ a) ≡ 0)
      × (abs_ℤ (a +ℤ a) ≡ 2 * abs_ℤ a)
      × (abs_ℤ (neg_ℤ a +ℤ a) ≡ 0)
      × (abs_ℤ (neg_ℤ a -ℤ a) ≡ 2 * abs_ℤ a)
unfolding ◌+ℤ◌ ◌-ℤ◌
same_and_opposite (pos n) = (ground arith, ground arith, ground arith, ground arith)
same_and_opposite (negsuc n) = (ground arith, ground arith, ground arith, ground arith)

abbrev pub IsZero : ℕ → Type 0
IsZero n = n ≡ 0

abbrev pub IsLarge : ℕ → ℕ → Type 0
IsLarge least n = 2 * least ≤ n

-- Of the two errors, the one that the pairs follow is 0, and the other large.
pair_errors :
    (s : Bool) (least : ℕ) (a b : ℤ)
    → PairIs s least (a, b)
    → (IsZero (if s then abs_ℤ (b +ℤ a) else abs_ℤ (b -ℤ a)))
      × (IsLarge least (if s then abs_ℤ (b -ℤ a) else abs_ℤ (b +ℤ a)))
pair_errors true least a b (h, e) =
    let (x, y, z, w) = same_and_opposite a in rw e (z, omega (arith, w))
pair_errors false least a b (h, e) =
    let (x, y, z, w) = same_and_opposite a in rw e (x, omega (arith, y))

errors-All :
    (s : Bool) (least : ℕ) (ps : List (ℤ × ℤ))
    → AllPairs s least ps
    → All IsZero (if s then err_neg ps else err_same ps)
      × All (IsLarge least) (if s then err_same ps else err_neg ps)
errors-All true least [] h = (tt, tt)
errors-All false least [] h = (tt, tt)
errors-All true least ((a, b) ∷ ps) (p, h) =
    let (z, l) = pair_errors true least a b p in
    let (zs, ls) = errors-All true least ps h in ((z, zs), (l, ls))
errors-All false least ((a, b) ∷ ps) (p, h) =
    let (z, l) = pair_errors false least a b p in
    let (zs, ls) = errors-All false least ps h in ((z, zs), (l, ls))

pub not_below : (m n : ℕ) → n ≤ m → ltb m n ≡ false
not_below m n h = ground arith

flipped_is :
    (s : Bool) (least : ℕ) (p : ℤ × ℤ) (ps : List (ℤ × ℤ))
    → 0 < least
    → AllPairs s least (p ∷ ps)
    → flipped (p ∷ ps) ≡ s
flipped_is true least (a, b) ps hl h =
    let (zs, ls) = errors-All true least ((a, b) ∷ ps) h in
    let low = median-All IsZero (abs_ℤ (b +ℤ a)) (err_neg ps) zs in
    let high = median-All (IsLarge least) (abs_ℤ (b -ℤ a)) (err_same ps) ls in
    lt→ltb _ _ (omega (arith, low, high))
flipped_is false least (a, b) ps hl h =
    let (zs, ls) = errors-All false least ((a, b) ∷ ps) h in
    let low = median-All IsZero (abs_ℤ (b -ℤ a)) (err_same ps) zs in
    not_below (median (abs_ℤ (b +ℤ a) ∷ err_neg ps)) (median (abs_ℤ (b -ℤ a) ∷ err_same ps))
      (omega (arith, low))

kept :
    (least : ℕ) (x y : Bool) (v : ℤ) (ps : List (ℤ × ℤ))
    → AllPairs (xor x y) least ps
    → AllPairs
        (xor x y)
        least
        (keep_pair least (some (turned_value x v)) (some (turned_value y v)) ps)
kept least x y v ps h = elim (Bool-cases (leb least (abs_ℤ v))) [
  | inl e ↦
      rw (abs-turned x v, abs-turned y v, e)
        ((rw (abs-turned x v) (leb→le _ _ e), turned_twice x y v), h)
  | inr e ↦ rw (abs-turned x v, abs-turned y v, e) h
]

pub all_pairs :
    (least : ℕ) (x y : Bool) (f : Frame)
    → AllPairs (xor x y) least (pairs_of least (turn f x) (turn f y))
unfolding pairs_of
all_pairs least x y [] = tt
all_pairs least x y (none ∷ f) = all_pairs least x y f
all_pairs least x y (some v ∷ f) = kept least x y v _ (all_pairs least x y f)

abbrev pub IsNonempty : List (ℤ × ℤ) → Type 0
IsNonempty [] = ⊥
IsNonempty (p ∷ ps) = Unit

kept_some :
    (least : ℕ) (x y : Bool) (v : ℤ) (ps : List (ℤ × ℤ))
    → IsNonempty ps
    → IsNonempty (keep_pair least (some (turned_value x v)) (some (turned_value y v)) ps)
kept_some least x y v [] h = elim h [ ]
kept_some least x y v (p ∷ ps) h = elim (Bool-cases (leb least (abs_ℤ v))) [
  | inl e ↦ rw (abs-turned x v, abs-turned y v, e) tt
  | inr e ↦ rw (abs-turned x v, abs-turned y v, e) tt
]

pub some_pair :
    (least : ℕ) (x y : Bool) (f : Frame)
    → IsSignificant least f
    → IsNonempty (pairs_of least (turn f x) (turn f y))
unfolding pairs_of
some_pair least x y [] h = elim h [ ]
some_pair least x y (none ∷ f) h = some_pair least x y f h
some_pair least x y (some v ∷ f) (inl h) = rw (abs-turned x v, le→leb _ _ h) tt
some_pair least x y (some v ∷ f) (inr h) = kept_some least x y v _ (some_pair least x y f h)

pub flipped_some :
    (s : Bool) (least : ℕ) (ps : List (ℤ × ℤ))
    → 0 < least
    → IsNonempty ps
    → AllPairs s least ps
    → flipped ps ≡ s
flipped_some s least [] hl n h = elim n [ ]
flipped_some s least (p ∷ ps) hl n h = flipped_is s least p ps hl h
