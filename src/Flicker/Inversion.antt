-- ===== src/Flicker/Inversion.antt =====
-- The test of tools/loadcell_diag.py for frames whose signs are all inverted.
use crk_io_board.Base.{
  ℕ, suc, ◌+◌, ◌*◌, ◌<◌, ◌≡◌, refl, ap, ◌∙◌, Bool, true, false, not, List, [], ◌∷◌, arith, lt→ltb,
  length, map,
}
use crk_io_board.Flicker.{
  Frame, count, pairs_of, flips_between, flip_rel, xor, accumulate, by_majority, inverted,
}
use crk_io_board.Flicker.Turned.{turn, IsSignificant, some_pair, all_pairs, flipped_some, not_below}

module _ (least : ℕ) (positive : 0 < least) (f : Frame) (significant : IsSignificant least f) where
  -- Between two frames that are the same one, turned or not, a flip is found when one is turned.
  between : (x y : Bool) → flips_between least (turn f x) (turn f y) ≡ xor x y
  unfolding flips_between
  between x y =
      flipped_some (xor x y) least (pairs_of least (turn f x) (turn f y)) positive
        (some_pair least x y f significant) (all_pairs least x y f)

  xor_step : (c o b : Bool) → xor c (xor o b) ≡ xor (xor c o) b
  xor_step true true true = refl
  xor_step true true false = refl
  xor_step true false b = refl
  xor_step false o b = refl

  xor_keeps : (c o b : Bool) → xor (xor (xor c o) b) b ≡ xor c o
  xor_keeps true true true = refl
  xor_keeps true true false = refl
  xor_keeps true false true = refl
  xor_keeps true false false = refl
  xor_keeps false true true = refl
  xor_keeps false true false = refl
  xor_keeps false false true = refl
  xor_keeps false false false = refl

  -- The accumulated flips are the pattern, or its complement.
  accumulated :
      (c o : Bool) (os : List Bool)
      → accumulate c (flip_rel least (turn f o) (map (turn f) os)) ≡ map (xor (xor c o)) os
  unfolding flip_rel
  accumulated c o [] = refl
  accumulated c o (b ∷ os) =
      rw (between o b, xor_step c o b)
        (ap (λ l. xor (xor c o) b ∷ l)
          (accumulated (xor (xor c o) b) b os ∙ ap (λ s. map (xor s) os) (xor_keeps c o b)))

count-complement : (bs : List Bool) → count (map not bs) + count bs ≡ length bs
count-complement [] = refl
count-complement (true ∷ bs) = omega (arith, count-complement bs)
count-complement (false ∷ bs) = omega (arith, count-complement bs)

length-map : (bs : List Bool) → length (map not bs) ≡ length bs
length-map [] = refl
length-map (b ∷ bs) = ap suc (length-map bs)

twice_not : (bs : List Bool) → map not (map not bs) ≡ bs
twice_not [] = refl
twice_not (true ∷ bs) = ap (λ l. true ∷ l) (twice_not bs)
twice_not (false ∷ bs) = ap (λ l. false ∷ l) (twice_not bs)

map_same : (bs : List Bool) → map (xor false) bs ≡ bs
map_same [] = refl
map_same (b ∷ bs) = ap (λ l. b ∷ l) (map_same bs)

by_majority-minority : (bs : List Bool) → 2 * count bs < length bs → by_majority bs ≡ bs
by_majority-minority bs h = rw (not_below (length bs) (2 * count bs) (omega arith)) refl

by_majority-complement : (bs : List Bool) → 2 * count bs < length bs → by_majority (map not bs) ≡ bs
by_majority-complement bs h =
    rw
      (lt→ltb (length (map not bs)) (2 * count (map not bs))
        (omega (arith, count-complement bs, length-map bs)))
      (twice_not bs)

-- When the frames of a capture are one frame with a large enough reading, some of them, fewer than
-- half, with all signs inverted, the test marks exactly those as inverted, whatever their order.
pub inverted_lem :
    (least : ℕ) (f : Frame) (os : List Bool)
    → 0 < least
    → IsSignificant least f
    → 2 * count os < length os
    → inverted least (map (turn f) os) ≡ os
unfolding inverted
inverted_lem least f [] hl s h = refl
inverted_lem least f (false ∷ os) hl s h =
    ap (λ l. by_majority (false ∷ l)) (accumulated least hl f s false false os ∙ map_same os)
    ∙ by_majority-minority (false ∷ os) h
inverted_lem least f (true ∷ os) hl s h =
    ap (λ l. by_majority (false ∷ l)) (accumulated least hl f s false true os)
    ∙ by_majority-complement (true ∷ os) h
