-- ===== src/Stream/Events.antt =====
-- The events that the tasks of src/api/v1/routers/sse.py make of the polled items, stream by stream.
use crk_io_board.Base.{
  ℕ, ◌≡◌, refl, ap, Bool, true, false, List, [], ◌∷◌, ◌++◌, Text, if◌then◌else◌, Bool-cases, inl,
  inr,
}
use crk_io_board.Errors.{Result, ok, raise, Raised, io_board, other}
use crk_io_board.Polling.{Item, unwrap}
use crk_io_board.Detector.{LoadcellChangeDetector, Change, Processed, process, detect_uncertainties}
use crk_io_board.Stream.Tasks.{
  Event, loadcell_update, loadcell_change, loadcell_uncertainty, door_update, stream_error,
  io_board_failure, loadcells_stream, doors_stream, poll_loadcells, poll_doors, change_event,
  uncertainty_event, on_frame, on_error,
}
use crk_io_board.Stream.Session.{Step, loadcells_polled, IoStatus}

-- The events of the loadcell stream, among those that the two tasks share a queue for.
abbrev pub of_loadcells : Event → Bool
of_loadcells (loadcell_update t raws shown m) = true
of_loadcells (loadcell_change t cs ts scope) = true
of_loadcells (loadcell_uncertainty t is r) = true
of_loadcells (door_update t door deadbolt) = false
of_loadcells (stream_error loadcells_stream code) = true
of_loadcells (stream_error doors_stream code) = false

-- A failure is stamped when it is handled, not when it was polled: its time is left open.
abbrev pub untimed : Event → Event
untimed (loadcell_uncertainty t is (io_board_failure e)) =
    loadcell_uncertainty 0 is (io_board_failure e)
untimed e = e

abbrev pub keep : (Event → Bool) → List Event → List Event
keep p [] = []
keep p (e ∷ es) = if p e then untimed e ∷ keep p es else keep p es

-- The stream of events that the items stand for, from a state of the detector.
abbrev pub item_events : LoadcellChangeDetector → List (Item (List Text)) → List Event
item_events d [] = []
item_events d (i ∷ is) = let (es, d') = poll_loadcells d (unwrap i) 0 in es ++ item_events d' is

abbrev pub loadcells_items : List Step → List (Item (List Text))
loadcells_items [] = []
loadcells_items (loadcells_polled x ∷ xs) = x.item ∷ loadcells_items xs
loadcells_items (_ ∷ xs) = loadcells_items xs

pub keep_append :
    (p : Event → Bool) (xs ys : List Event) → keep p (xs ++ ys) ≡ keep p xs ++ keep p ys
keep_append p [] ys = refl
keep_append p (x ∷ xs) ys = elim (Bool-cases (p x)) [
  | inl e ↦ rw e (ap (λ l. untimed x ∷ l) (keep_append p xs ys))
  | inr e ↦ rw e (keep_append p xs ys)
]

kept_frame :
    (t : ℕ) (raws : List Text) (d : LoadcellChangeDetector) (cs : List Change) (is : List ℕ)
    → keep of_loadcells (change_event t d cs ++ uncertainty_event t raws is)
      ≡ change_event t d cs ++ uncertainty_event t raws is
kept_frame t raws d [] [] = refl
kept_frame t raws d [] (i ∷ is) = refl
kept_frame t raws d (c ∷ cs) [] = refl
kept_frame t raws d (c ∷ cs) (i ∷ is) = refl

kept_error :
    (now : ℕ) (e : Raised) (d : LoadcellChangeDetector)
    → (keep of_loadcells (on_error now e d).0 ≡ (on_error 0 e d).0)
      × ((on_error now e d).1 ≡ (on_error 0 e d).1)
kept_error now (io_board e) d = (refl, refl)
kept_error now (other e) d = (refl, refl)

-- A pass makes loadcell events only, the same ones at any time, but for the time of a failure.
pub kept_pass :
    (d : LoadcellChangeDetector) (r : Result (List Text × ℕ)) (now : ℕ)
    → (keep of_loadcells (poll_loadcells d r now).0 ≡ (poll_loadcells d r 0).0)
      × ((poll_loadcells d r now).1 ≡ (poll_loadcells d r 0).1)
unfolding poll_loadcells
kept_pass d (raise e) now = kept_error now e d
kept_pass d (ok (raws, t)) now = handled (process d raws)
  where
    handled :
        (out : Result (Processed × LoadcellChangeDetector))
        → (keep of_loadcells (on_frame now t raws d out).0 ≡ (on_frame 0 t raws d out).0)
          × ((on_frame now t raws d out).1 ≡ (on_frame 0 t raws d out).1)
    handled (raise e) = kept_error now e d
    handled (ok (p, d')) = (
      ap (λ l. loadcell_update t raws p.filtered_strings d'.filter_method ∷ l)
          (kept_frame t raws d' p.changes (detect_uncertainties raws p.filtered_numerics)),
      refl,
    )

pub dropped_doors : (r : Result (IoStatus × ℕ)) → keep of_loadcells (poll_doors r) ≡ []
unfolding poll_doors
dropped_doors (ok ((door, deadbolt), t)) = refl
dropped_doors (raise (io_board e)) = refl
dropped_doors (raise (other e)) = refl
