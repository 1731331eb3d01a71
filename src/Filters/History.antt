-- ===== src/Filters/History.antt =====
-- Errors and resets in the filters of src/io_board/filters.py.
use crk_io_board.Base.{
  ◌≡◌, refl, Option, none, some, List, [], ◌∷◌, Text, inl, inr, Option-cases, ◌∙◌,
}
use crk_io_board.Numbers.{ℚ}
use crk_io_board.Filters.{
  LoadcellFilter, no_filter, smoothing, estimating, KalmanFilter, filter, numeric,
  filter_exponential, filter_kalman, FilterMethod, unfiltered, exponential, kalman, FilterKwargs,
  create_filter, reset, estimate, smoothed,
}

-- The filter after the readings of a channel.
abbrev pub filter_all : LoadcellFilter → List Text → LoadcellFilter
filter_all f [] = f
filter_all f (v ∷ vs) = filter_all (filter f v).1 vs

-- A reading that is no number is handed on as it is, and does not touch the filter.
pub filter-error : (f : LoadcellFilter) (v : Text) → numeric v ≡ none → filter f v ≡ ((v, none), f)
unfolding filter filter_exponential filter_kalman
filter-error no_filter v h = rw h refl
filter-error (smoothing f) v h = rw h refl
filter-error (estimating f) v h = rw h refl

estimate-number :
    (f : KalmanFilter) (n : ℚ) (o : Option ℚ) → (m : ℚ) × ((estimate f n o).x ≡ some m)
estimate-number f n none = (n, refl)
estimate-number f n (some x) = (_, refl)

-- A reading that is a number is filtered to a number.
pub filter-number :
    (f : LoadcellFilter) (v : Text) (n : ℚ)
    → numeric v ≡ some n
    → (m : ℚ) × ((filter f v).0.1 ≡ some m)
unfolding filter filter_exponential filter_kalman
filter-number no_filter v n h = (n, h)
filter-number (smoothing f) v n h = (smoothed f n f.previous, rw h refl)
filter-number (estimating f) v n h = let (m, e) = estimate-number f n f.x in (m, rw h e)

reset-estimate :
    (f : KalmanFilter) (n : ℚ) (o : Option ℚ)
    → reset (estimating (estimate f n o)) ≡ reset (estimating f)
unfolding reset
reset-estimate f n none = refl
reset-estimate f n _ = refl

pub reset-filter : (f : LoadcellFilter) (v : Text) → reset (filter f v).1 ≡ reset f
unfolding filter filter_exponential filter_kalman reset
reset-filter no_filter v = refl
reset-filter (smoothing f) v = elim (Option-cases (numeric v)) [
  | inl e ↦ rw e refl
  | inr (n, e) ↦ rw e refl
]
reset-filter (estimating f) v = elim (Option-cases (numeric v)) [
  | inl e ↦ rw e refl
  | inr (n, e) ↦ rw e (reset-estimate f n f.x)
]

pub reset-filter_all : (f : LoadcellFilter) (vs : List Text) → reset (filter_all f vs) ≡ reset f
reset-filter_all f [] = refl
reset-filter_all f (v ∷ vs) = reset-filter_all (filter f v).1 vs ∙ reset-filter f v

pub reset-create :
    (method : FilterMethod) (kwargs : FilterKwargs)
    → reset (create_filter method kwargs) ≡ create_filter method kwargs
unfolding reset create_filter
reset-create unfiltered kwargs = refl
reset-create exponential kwargs = refl
reset-create kalman kwargs = refl

-- `reset` brings a filter back to the state in which `create_filter` made it, whatever it has read.
pub reset_lem :
    (method : FilterMethod) (kwargs : FilterKwargs) (vs : List Text)
    → reset (filter_all (create_filter method kwargs) vs) ≡ create_filter method kwargs
reset_lem method kwargs vs =
    reset-filter_all (create_filter method kwargs) vs ∙ reset-create method kwargs
