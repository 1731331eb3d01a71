-- ===== src/Flicker/Tests.antt =====
-- The theorems on tools/loadcell_diag.py at a concrete capture.
use crk_io_board.Base.{
  ◌≡◌, refl, true, false, none, some, List, [], ◌∷◌, Bool, arith, inl, map, replicate,
}
use crk_io_board.Base.Int.{pos, negsuc}
use crk_io_board.Flicker.{Frame, inverted, bursts_from, channel_of, fixed}
use crk_io_board.Flicker.Turned.{turn}
use crk_io_board.Flicker.Inversion.{inverted_lem}
use crk_io_board.Flicker.Recovery.{recovered_lem}

abbrev frame : Frame
frame = some (pos 12000000) ∷ none ∷ some (negsuc 299999) ∷ []

abbrev pattern_of_five : List Bool
pattern_of_five = true ∷ false ∷ false ∷ true ∷ false ∷ []

inverted_lem_test : inverted 500000 (map (turn frame) pattern_of_five) ≡ pattern_of_five
inverted_lem_test =
    inverted_lem 500000 frame pattern_of_five (omega arith) (inl (omega arith)) (omega arith)

recovered_lem_example :
    let capture = map (turn frame) pattern_of_five in
    (inverted 500000 capture ≡ pattern_of_five)
    × (fixed (inverted 500000 capture) (channel_of 2 capture) ≡ replicate 5 (negsuc 299999))
recovered_lem_example =
    recovered_lem 500000 frame pattern_of_five 2 (negsuc 299999) (omega arith) (inl (omega arith))
      (omega arith) refl

two_bursts : bursts_from 0 (true ∷ true ∷ false ∷ true ∷ []) ≡ 2 ∷ 1 ∷ []
unfolding bursts_from
two_bursts = refl
