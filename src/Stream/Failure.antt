-- ===== src/Stream/Failure.antt =====
-- A failure of the IO board in the loadcell stream of src/api/v1/routers/sse.py.
use crk_io_board.Base.{
  ℕ, suc, ◌≡◌, refl, Bool, true, false, Option, none, some, List, [], ◌∷◌, Text, map, ◌||◌, length,
  ◌==◌, Bool-cases, inl, inr,
}
use crk_io_board.Errors.{Result, ok, raise, io_board, IoBoardError, other}
use crk_io_board.Errors
use crk_io_board.Filters.{ThresholdScope, raw_scope, filtered_scope}
use crk_io_board.Detector.{
  Channel, LoadcellChangeDetector, process, process_from, reset, reset_channel, exceeds, of_scope,
  detect_uncertainties,
}
use crk_io_board.Numbers.{ℚ}
use crk_io_board.Stream.Tasks.{
  Event, loadcell_change, loadcell_uncertainty, stream_error, io_board_failure, loadcells_stream,
  poll_loadcells, on_frame, uncertainty_event,
}

abbrev pub is_change : Event → Bool
is_change (loadcell_change t cs ts scope) = true
is_change _ = false

abbrev pub some_change : List Event → Bool
some_change [] = false
some_change (e ∷ es) = is_change e || some_change es

unseen : (t : ℚ) (n : Option ℚ) → exceeds t n none ≡ false
unseen t none = refl
unseen t (some n) = refl

scope_unseen :
    (scope : ThresholdScope) {A : Type 0} → of_scope {A = Option A} scope none none ≡ none
scope_unseen raw_scope = refl
scope_unseen filtered_scope = refl

-- A detector that has been reset has nothing to compare with.
reset_changes :
    (scope : ThresholdScope) (i : ℕ) (cs : List Channel) (raws : List Text)
    → (process_from scope i (map reset_channel cs) raws).0.changes ≡ []
unfolding process_from
reset_changes scope i [] raws = refl
reset_changes scope i (c ∷ cs) [] = refl
reset_changes scope i (c ∷ cs) (raw ∷ raws) =
    rw (scope_unseen scope, unseen, reset_changes scope (suc i) cs raws) refl

no_change :
    (t : ℕ) (raws : List Text) (d : LoadcellChangeDetector) (is : List ℕ)
    → some_change (uncertainty_event t raws is) ≡ false
no_change t raws d [] = refl
no_change t raws d (i ∷ is) = refl

unchanged :
    (later t : ℕ) (raws : List Text) (d : LoadcellChangeDetector)
    → some_change (on_frame later t raws (reset d) (process (reset d) raws)).0 ≡ false
unfolding process reset
unchanged later t raws d = elim (Bool-cases (length raws == 10)) [
  | inl e ↦
      rw (e, reset_changes d.threshold_scope 0 d.channels raws)
        (no_change t raws d (
          detect_uncertainties raws
            (process_from d.threshold_scope 0 (map reset_channel d.channels)
              raws).0.filtered_numerics))
  | inr e ↦ rw e refl
]

-- A failure of the IO board that reaches the stream is reported as an uncertainty of all ten
-- loadcells and an error with its code; and the frame after it, whatever it shows, is reported
-- without any change event, since the readings of before the failure are forgotten.
pub poll_loadcells_failure :
    (d : LoadcellChangeDetector) (e : IoBoardError) (now : ℕ) (raws : List Text) (t later : ℕ)
    → let (events, d') = poll_loadcells d (raise (io_board e)) now in
      (events
        ≡ loadcell_uncertainty now (0 ∷ 1 ∷ 2 ∷ 3 ∷ 4 ∷ 5 ∷ 6 ∷ 7 ∷ 8 ∷ 9 ∷ []) (io_board_failure e)
          ∷ stream_error loadcells_stream (Errors.value e.error_code)
          ∷ [])
      × (some_change (poll_loadcells d' (ok (raws, t)) later).0 ≡ false)
unfolding poll_loadcells
poll_loadcells_failure d e now raws t later = (refl, unchanged later t raws d)
