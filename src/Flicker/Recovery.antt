-- ===== src/Flicker/Recovery.antt =====
-- The recovery of inverted frames in tools/loadcell_diag.py.
use crk_io_board.Base.{
  ℕ, zero, suc, ◌*◌, ◌<◌, ◌≡◌, refl, ap, ◌∙◌, Bool, true, false, none, some, List, [], ◌∷◌, arith,
  length, map, replicate, get_or, if◌then◌else◌,
}
use crk_io_board.Base.Int.{ℤ, pos, negsuc, neg_ℤ}
use crk_io_board.Flicker.{Frame, count, inverted, channel_of, fixed}
use crk_io_board.Flicker.Turned.{turn, turned_value, IsSignificant}
use crk_io_board.Flicker.Inversion.{inverted_lem}

turned-get_or :
    (b : Bool) (f : Frame) (ch : ℕ) (v : ℤ)
    → get_or f ch none ≡ some v
    → get_or (turn f b) ch none ≡ some (turned_value b v)
turned-get_or b [] ch v h = cc
turned-get_or b (none ∷ f) zero v h = cc
turned-get_or b (some w ∷ f) zero v h =
    ap (λ o. elim o [ none ↦ none | some w ↦ some (turned_value b w) ]) h
turned-get_or b (none ∷ f) (suc ch) v h = turned-get_or b f ch v h
turned-get_or b (some w ∷ f) (suc ch) v h = turned-get_or b f ch v h

turned_back : (b : Bool) (v : ℤ) → (if b then neg_ℤ (turned_value b v) else turned_value b v) ≡ v
turned_back true (pos n) = ground arith
turned_back true (negsuc n) = ground arith
turned_back false v = refl

fixed-turn :
    (f : Frame) (ch : ℕ) (v : ℤ) (os : List Bool)
    → get_or f ch none ≡ some v
    → fixed os (channel_of ch (map (turn f) os)) ≡ replicate (length os) v
unfolding fixed
fixed-turn f ch v [] h = refl
fixed-turn f ch v (b ∷ os) h =
    rw (turned-get_or b f ch v h, turned_back b v) (ap (λ l. v ∷ l) (fixed-turn f ch v os h))

-- When the frames of a capture are one frame with a large enough reading, some of them, fewer than
-- half, with all signs inverted, the test marks exactly those as inverted, whatever their order, and
-- the recovery gives back, in every channel with a reading, that reading in each of the frames.
pub recovered_lem :
    (least : ℕ) (f : Frame) (os : List Bool) (ch : ℕ) (v : ℤ)
    → 0 < least
    → IsSignificant least f
    → 2 * count os < length os
    → get_or f ch none ≡ some v
    → let capture = map (turn f) os in
      (inverted least capture ≡ os)
      × (fixed (inverted least capture) (channel_of ch capture) ≡ replicate (length os) v)
recovered_lem least f os ch v hl s h reading =
    let marked = inverted_lem least f os hl s h in
    (
      marked,
      ap (λ bs. fixed bs (channel_of ch (map (turn f) os))) marked ∙ fixed-turn f ch v os reading,
    )
