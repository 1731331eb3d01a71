-- ===== src/Stream/Tasks.antt =====
-- The two polling tasks of src/api/v1/routers/sse.py, `make_poll_loadcells` and `make_poll_doors`: what a
-- pass of each makes of the item that it took off its queue. A time stays a number (the ISO texts
-- are left out), an error event keeps its code, and a failure event keeps the exception.
use crk_io_board.Base.{
  ℕ, ◌+◌, ◌*◌, Bool, true, ◌&&◌, Option, List, [], ◌∷◌, ◌++◌, Text, codes, get_elem?, ◌==◌,
  if◌then◌else◌, map,
}
use crk_io_board.Errors.{Result, ok, raise, Raised, io_board, other, IoBoardError}
use crk_io_board.Errors
use crk_io_board.Numbers.{ℚ}
use crk_io_board.Commands.{DoorState, DeadboltState}
use crk_io_board.Filters.{FilterMethod, ThresholdScope}
use crk_io_board.Detector.{
  LoadcellChangeDetector, Change, Processed, process, detect_uncertainties, reset,
}

pub data StreamName : Type 0 where
  loadcells_stream doors_stream : StreamName

-- `reason` and `details` of a LoadcellUncertaintyEvent
pub data Reason : Type 0 where
  error_state : List (Option Text) → Reason
  io_board_failure : IoBoardError → Reason

-- LoadcellUpdateEvent, LoadcellChangeEvent, LoadcellUncertaintyEvent, DoorUpdateEvent, `error`
pub data Event : Type 0 where
  loadcell_update : ℕ → (raw_values filtered_values : List Text) → FilterMethod → Event
  loadcell_change : ℕ → List Change → (threshold : List ℚ) → ThresholdScope → Event
  loadcell_uncertainty : ℕ → (affected_indices : List ℕ) → Reason → Event
  door_update : ℕ → DoorState → DeadboltState → Event
  stream_error : StreamName → Text → Event

-- `a == b` on numbers
abbrev same_number : ℚ → ℚ → Bool
same_number a b = a.plus * b.under + b.minus * a.under == b.plus * a.under + a.minus * b.under

abbrev all_same : ℚ → List ℚ → Bool
all_same t [] = true
all_same t (u ∷ us) = same_number t u && all_same t us

-- The first threshold alone when all are the same.
abbrev shown_threshold : List ℚ → List ℚ
shown_threshold [] = []
shown_threshold (t ∷ ts) = if all_same t ts then t ∷ [] else t ∷ ts

-- `[raw_values[i] for i in uncertain_indices]`
abbrev values_at : List Text → List ℕ → List (Option Text)
values_at raws [] = []
values_at raws (i ∷ is) = get_elem? raws i ∷ values_at raws is

abbrev pub change_event : ℕ → LoadcellChangeDetector → List Change → List Event
change_event t d [] = []
change_event t d (c ∷ cs) =
    loadcell_change t (c ∷ cs) (shown_threshold (map (λ c. c.threshold) d.channels))
      d.threshold_scope
    ∷ []

abbrev pub uncertainty_event : ℕ → List Text → List ℕ → List Event
uncertainty_event t raws [] = []
uncertainty_event t raws (i ∷ is) =
    loadcell_uncertainty t (i ∷ is) (error_state (values_at raws (i ∷ is))) ∷ []

-- The events of a frame that the detector processed, in the order in which they are queued.
abbrev pub frame_events : ℕ → List Text → LoadcellChangeDetector → Processed → List Event
frame_events t raws d p =
    loadcell_update t raws p.filtered_strings d.filter_method ∷ change_event t d p.changes
    ++ uncertainty_event t raws (detect_uncertainties raws p.filtered_numerics)

-- `except IOBoardError` and `except Exception` of poll_loadcells
abbrev pub on_error : ℕ → Raised → LoadcellChangeDetector → List Event × LoadcellChangeDetector
on_error now (io_board e) d = (
  loadcell_uncertainty now (0 ∷ 1 ∷ 2 ∷ 3 ∷ 4 ∷ 5 ∷ 6 ∷ 7 ∷ 8 ∷ 9 ∷ []) (io_board_failure e)
      ∷ stream_error loadcells_stream (Errors.value e.error_code)
      ∷ [],
  reset d,
)
on_error now (other e) d = (stream_error loadcells_stream (codes "E9002") ∷ [], d)

abbrev pub on_frame :
    ℕ
    → ℕ
    → List Text
    → LoadcellChangeDetector
    → Result (Processed × LoadcellChangeDetector)
    → List Event × LoadcellChangeDetector
on_frame now t raws d (ok (p, d')) = (frame_events t raws d' p, d')
on_frame now t raws d (raise e) = on_error now e d

-- The body of the loop of poll_loadcells, on the outcome of `loadcells_queue.get()`.
unfoldable pub poll_loadcells :
    LoadcellChangeDetector → Result (List Text × ℕ) → ℕ → List Event × LoadcellChangeDetector
poll_loadcells d (ok (raws, t)) now = on_frame now t raws d (process d raws)
poll_loadcells d (raise e) now = on_error now e d

-- The body of the loop of poll_doors.
abbrev door_error_code : Raised → Text
door_error_code (io_board e) = Errors.value e.error_code
door_error_code (other e) = codes "E9003"

unfoldable pub poll_doors : Result ((DoorState × DeadboltState) × ℕ) → List Event
poll_doors (ok ((door, deadbolt), t)) = door_update t door deadbolt ∷ []
poll_doors (raise e) = stream_error doors_stream (door_error_code e) ∷ []
