-- ===== src/Detector/Tests.antt =====
-- The theorems on src/io_board/events.py at concrete frames.
use crk_io_board.Base.{ℕ, ◌≡◌, refl, none, some, [], ◌∷◌, Text, codes, replicate, get_elem?}
use crk_io_board.Errors.{ok}
use crk_io_board.Numbers.{ratio}
use crk_io_board.Filters.{FilterKwargs, kalman, raw_scope, filtered_scope, exponential}
use crk_io_board.Detector.{
  Channel, LoadcellChangeDetector, Processed, new_detector, process, detect_uncertainties, reset,
}
use crk_io_board.Detector.Changes.{process_lem, IsProcessed}
use crk_io_board.Detector.History.{
  Frame, reports, abstract_reports, process_all, reports-refines, reset_history,
}

abbrev given : FilterKwargs
given = record { alpha = some (ratio 3 10); q = none; r = none }

abbrev quiet_frame : Frame
quiet_frame = replicate 10 (codes "+00100")

abbrev moved_frame : Frame
moved_frame = codes "+00150" ∷ codes "EEEEEE" ∷ replicate 8 (codes "+00100")

abbrev detector : LoadcellChangeDetector
detector = new_detector exponential (some (replicate 10 (ratio 5 1))) raw_scope given

process_lem_example :
    (p : Processed) × (d' : LoadcellChangeDetector) × (process detector moved_frame ≡ ok (p, d'))
    × ((k : ℕ) (c : Channel) (raw : Text)
        → get_elem? detector.channels k ≡ some c
        → get_elem? moved_frame k ≡ some raw
        → IsProcessed raw_scope k c raw p.changes
            (detect_uncertainties moved_frame p.filtered_numerics)
            d'.channels)
unfolding new_detector
process_lem_example = process_lem detector moved_frame refl

reports-refines_example :
    reports detector (quiet_frame ∷ moved_frame ∷ [])
    ≡ abstract_reports
        (replicate 10 (ratio 5 1))
        (replicate 10 none)
        (quiet_frame ∷ moved_frame ∷ [])
unfolding new_detector
reports-refines_example =
    reports-refines exponential given (replicate 10 (ratio 5 1)) (quiet_frame ∷ moved_frame ∷ [])
      refl (refl, (refl, tt))

reset_history_example :
    reset (
      process_all
        (new_detector kalman (some (replicate 10 (ratio 5 1))) filtered_scope given)
        (moved_frame ∷ []))
    ≡ new_detector kalman (some (replicate 10 (ratio 5 1))) filtered_scope given
reset_history_example =
    reset_history kalman given filtered_scope (replicate 10 (ratio 5 1)) (moved_frame ∷ []) refl
      (refl, tt)
