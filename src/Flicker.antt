-- ===== src/Flicker.antt =====
-- tools/loadcell_diag.py: the analysis of readings whose sign flickers. A series holds the frames of
-- a capture; a value counts units of 1/100000 g, as do the tolerance and the least magnitude. What
-- is only printed (means, deviations, correlations) is left out.
pub mod Median
pub mod Turned
pub mod Inversion
pub mod Recovery
mod Tests
use mathlib.Core.Option
use crk_io_board.Base.{
  ℕ, zero, suc, ◌+◌, ◌-◌, ◌*◌, ◌/◌, Bool, true, false, ◌&&◌, ◌||◌, not, Option, none, some, List,
  [], ◌∷◌, ◌++◌, Text, leb, ltb, ◌==◌, length, get_or, map, if◌then◌else◌,
}
use crk_io_board.Base.Int.{ℤ, pos, neg_ℤ, abs_ℤ, ◌+ℤ◌, ◌-ℤ◌, pos_part, neg_part, ltb_ℤ}
use crk_io_board.Readings.{parse_value}

abbrev pub Frame : Type 0
Frame = List (Option ℤ)

-- A row of load_series
abbrev pub frame_of : List Text → Frame
frame_of row = map parse_value row

-- `sum(flags)`
abbrev pub count : List Bool → ℕ
count [] = 0
count (b ∷ bs) = let rest = count bs in if b then suc rest else rest

-- [1] A change of sign at the same magnitude, between two readings that follow each other.
abbrev distance : ℕ → ℕ → ℕ
distance a b = a - b + (b - a)

abbrev opposite : ℤ → ℤ → Bool
opposite a b = (ltb_ℤ a (pos 0) && ltb_ℤ (pos 0) b) || (ltb_ℤ (pos 0) a && ltb_ℤ b (pos 0))

abbrev pub is_flip : ℕ → ℕ → Option ℤ → Option ℤ → Bool
is_flip tol least (some a) (some b) =
    leb (distance (abs_ℤ a) (abs_ℤ b)) tol && leb least (abs_ℤ a) && opposite a b
is_flip tol least _ _ = false

-- The samples at which a channel flips, from the sample `i`.
unfoldable pub flips_from : ℕ → ℕ → ℕ → Option ℤ → List (Option ℤ) → List ℕ
flips_from tol least i a [] = []
flips_from tol least i a (b ∷ bs) =
    let rest = flips_from tol least (suc i) b bs in if is_flip tol least a b then i ∷ rest else rest

abbrev pub gaps : List ℕ → List ℕ
gaps [] = []
gaps (i ∷ []) = []
gaps (i ∷ j ∷ js) = (j - i) ∷ gaps (j ∷ js)

-- [2] How many of the pairs mirror each other, and how many pairs there are.
abbrev mirror_pair : ℕ → ℕ → Option ℤ → Option ℤ → ℕ × ℕ → ℕ × ℕ
mirror_pair tol least (some a) (some b) (mirrored, both) =
    if leb least (abs_ℤ a)
    then (if leb (abs_ℤ (a +ℤ b)) tol then suc mirrored else mirrored, suc both)
    else (mirrored, both)
mirror_pair tol least _ _ n = n

unfoldable pub mirrors : ℕ → ℕ → List (Option ℤ) → List (Option ℤ) → ℕ × ℕ
mirrors tol least (a ∷ as') (b ∷ bs) = mirror_pair tol least a b (mirrors tol least as' bs)
mirrors tol least _ _ = (0, 0)

-- [4] The pairs of two frames in which one reading is large enough.
abbrev keep_pair : ℕ → Option ℤ → Option ℤ → List (ℤ × ℤ) → List (ℤ × ℤ)
keep_pair least (some a) (some b) pairs =
    if leb least (abs_ℤ a) || leb least (abs_ℤ b) then (a, b) ∷ pairs else pairs
keep_pair least _ _ pairs = pairs

unfoldable pub pairs_of : ℕ → Frame → Frame → List (ℤ × ℤ)
pairs_of least (a ∷ as') (b ∷ bs) = keep_pair least a b (pairs_of least as' bs)
pairs_of least _ _ = []

abbrev insert : ℕ → List ℕ → List ℕ
insert v [] = v ∷ []
insert v (w ∷ ws) = if leb v w then v ∷ w ∷ ws else w ∷ insert v ws

abbrev pub sorted : List ℕ → List ℕ
sorted [] = []
sorted (v ∷ vs) = insert v (sorted vs)

-- `ys[len(ys) // 2]` of the sorted list, which is not empty
unfoldable pub median : List ℕ → ℕ
median vs = get_or (sorted vs) (length vs / 2) 0

abbrev pub err_same : List (ℤ × ℤ) → List ℕ
err_same [] = []
err_same ((a, b) ∷ pairs) = abs_ℤ (b -ℤ a) ∷ err_same pairs

abbrev pub err_neg : List (ℤ × ℤ) → List ℕ
err_neg [] = []
err_neg ((a, b) ∷ pairs) = abs_ℤ (b +ℤ a) ∷ err_neg pairs

abbrev pub flipped : List (ℤ × ℤ) → Bool
flipped [] = false
flipped (p ∷ pairs) = ltb (median (err_neg (p ∷ pairs))) (median (err_same (p ∷ pairs)))

unfoldable pub flips_between : ℕ → Frame → Frame → Bool
unfolding pairs_of median
flips_between least before now = flipped (pairs_of least before now)

-- flip_rel, behind the first frame
unfoldable pub flip_rel : ℕ → Frame → List Frame → List Bool
unfolding flips_between
flip_rel least before [] = []
flip_rel least before (now ∷ later) = flips_between least before now ∷ flip_rel least now later

abbrev pub xor : Bool → Bool → Bool
xor true b = not b
xor false b = b

abbrev pub accumulate : Bool → List Bool → List Bool
accumulate state [] = []
accumulate state (f ∷ fs) = xor state f ∷ accumulate (xor state f) fs

-- The direction of the majority is the right one.
abbrev pub by_majority : List Bool → List Bool
by_majority flags = if ltb (length flags) (2 * count flags) then map not flags else flags

unfoldable pub inverted : ℕ → List Frame → List Bool
unfolding flip_rel
inverted least [] = []
inverted least (f ∷ fs) = by_majority (false ∷ accumulate false (flip_rel least f fs))

-- The lengths of the runs of inverted frames, behind a run of that length so far.
abbrev close_run : ℕ → List ℕ → List ℕ
close_run zero bursts = bursts
close_run (suc run) bursts = suc run ∷ bursts

unfoldable pub bursts_from : ℕ → List Bool → List ℕ
bursts_from run [] = close_run run []
bursts_from run (true ∷ flags) = bursts_from (suc run) flags
bursts_from run (false ∷ flags) = close_run run (bursts_from 0 flags)

-- A channel of the capture, as in load_series.
abbrev pub channel_of : ℕ → List Frame → List (Option ℤ)
channel_of ch [] = []
channel_of ch (f ∷ fs) = get_or f ch none ∷ channel_of ch fs

-- `fixed`: the readings of a channel, with those of the inverted frames turned back.
unfoldable pub fixed : List Bool → List (Option ℤ) → List ℤ
fixed (b ∷ bs) (some v ∷ vs) = (if b then neg_ℤ v else v) ∷ fixed bs vs
fixed (b ∷ bs) (none ∷ vs) = fixed bs vs
fixed _ _ = []
