-- ===== src/Detector/History.antt =====
-- The detector of src/io_board/events.py over the frames of a stream: in the raw scope it refines
-- the comparison of each frame with the one before, and `reset` forgets all of them.
use crk_io_board.Base.{
  ℕ, suc, ◌≡◌, refl, ap, ◌∙◌, arith, Option, none, some, List, [], ◌∷◌, ◌++◌, Text, length,
  replicate, map, ==_iff,
}
use crk_io_board.Numbers.{ℚ}
use crk_io_board.Filters.{FilterMethod, FilterKwargs, ThresholdScope, raw_scope, numeric}
use crk_io_board.Filters.History.{reset-filter, reset-create}
use crk_io_board.Errors.{Result, ok, raise}
use crk_io_board.Detector.{
  Channel, LoadcellChangeDetector, Change, Processed, report, new_channel, new_detector,
  process_from, process, reset, reset_channel,
}

abbrev pub Frame : Type 0
Frame = List Text

abbrev pub AllTens : List Frame → Type 0
AllTens [] = Unit
AllTens (f ∷ fs) = (length f ≡ 10) × AllTens fs

-- The detector after `process`; it is unchanged when `process` raises.
abbrev pub next :
    LoadcellChangeDetector → Result (Processed × LoadcellChangeDetector) → LoadcellChangeDetector
next d (ok (p, d')) = d'
next d (raise e) = d

abbrev pub changes_of : Result (Processed × LoadcellChangeDetector) → List Change
changes_of (ok (p, d')) = p.changes
changes_of (raise e) = []

-- The changes that each frame of a stream reports, and the detector after all of them.
abbrev pub reports : LoadcellChangeDetector → List Frame → List (List Change)
reports d [] = []
reports d (f ∷ fs) = let out = process d f in changes_of out ∷ reports (next d out) fs

abbrev pub process_all : LoadcellChangeDetector → List Frame → LoadcellChangeDetector
process_all d [] = d
process_all d (f ∷ fs) = process_all (next d (process d f)) fs

-- The abstract detector: its state is the numbers of the frame before.
abbrev pub compare_frames : ℕ → List ℚ → List (Option ℚ) → List (Option ℚ) → List Change
compare_frames i (t ∷ ts) (o ∷ before) (n ∷ now) =
    report i t n o ++ compare_frames (suc i) ts before now
compare_frames i _ _ _ = []

abbrev pub abstract_reports : List ℚ → List (Option ℚ) → List Frame → List (List Change)
abstract_reports ts before [] = []
abstract_reports ts before (f ∷ fs) =
    compare_frames 0 ts before (map numeric f) ∷ abstract_reports ts (map numeric f) fs

-- What the abstract detector sees of the channels.
abbrev thresholds : List Channel → List ℚ
thresholds cs = map (λ c. c.threshold) cs

abbrev before : List Channel → List (Option ℚ)
before cs = map (λ c. c.previous_raw) cs

pass_changes :
    (i : ℕ) (cs : List Channel) (f : Frame)
    → (process_from raw_scope i cs f).0.changes
      ≡ compare_frames i (thresholds cs) (before cs) (map numeric f)
unfolding process_from
pass_changes i [] f = refl
pass_changes i (c ∷ cs) [] = refl
pass_changes i (c ∷ cs) (raw ∷ f) =
    ap (λ l. report i c.threshold (numeric raw) c.previous_raw ++ l) (pass_changes (suc i) cs f)

pass_thresholds :
    (scope : ThresholdScope) (i : ℕ) (cs : List Channel) (f : Frame)
    → length f ≡ length cs
    → thresholds (process_from scope i cs f).1 ≡ thresholds cs
unfolding process_from
pass_thresholds scope i [] f h = refl
pass_thresholds scope i (c ∷ cs) [] h = absurd (omega arith)
pass_thresholds scope i (c ∷ cs) (raw ∷ f) h =
    ap (λ l. c.threshold ∷ l) (pass_thresholds scope (suc i) cs f (omega arith))

pass_before :
    (scope : ThresholdScope) (i : ℕ) (cs : List Channel) (f : Frame)
    → length f ≡ length cs
    → before (process_from scope i cs f).1 ≡ map numeric f
unfolding process_from
pass_before scope i [] [] h = refl
pass_before scope i [] (raw ∷ f) h = absurd (omega arith)
pass_before scope i (c ∷ cs) [] h = absurd (omega arith)
pass_before scope i (c ∷ cs) (raw ∷ f) h =
    ap (λ l. numeric raw ∷ l) (pass_before scope (suc i) cs f (omega arith))

pass_length :
    (scope : ThresholdScope) (i : ℕ) (cs : List Channel) (f : Frame)
    → length f ≡ length cs
    → length (process_from scope i cs f).1 ≡ length cs
unfolding process_from
pass_length scope i [] f h = refl
pass_length scope i (c ∷ cs) [] h = absurd (omega arith)
pass_length scope i (c ∷ cs) (raw ∷ f) h =
    omega (arith, pass_length scope (suc i) cs f (omega arith))

abbrev with_channels : FilterMethod → ThresholdScope → List Channel → LoadcellChangeDetector
with_channels method scope cs = record {
  filter_method = method;
  threshold_scope = scope;
  channels = cs;
}

process_ten :
    (method : FilterMethod) (scope : ThresholdScope) (cs : List Channel) (f : Frame)
    → length f ≡ 10
    → process (with_channels method scope cs) f
      ≡ ok ((process_from scope 0 cs f).0, with_channels method scope (process_from scope 0 cs f).1)
unfolding process
process_ten method scope cs f h = rw ((==_iff (length f) 10).1 h) refl

refines :
    (method : FilterMethod) (cs : List Channel) (fs : List Frame)
    → length cs ≡ 10
    → AllTens fs
    → reports (with_channels method raw_scope cs) fs
      ≡ abstract_reports (thresholds cs) (before cs) fs
refines method cs [] h tens = refl
refines method cs (f ∷ fs) h (ten, tens) =
    let (p, cs') = process_from raw_scope 0 cs f in
    let same : length f ≡ length cs = omega arith in
    rw (process_ten method raw_scope cs f ten, pass_changes 0 cs f)
      (ap (λ l. compare_frames 0 (thresholds cs) (before cs) (map numeric f) ∷ l)
        (refines method cs' fs (omega (arith, pass_length raw_scope 0 cs f same)) tens
          ∙ rw (pass_thresholds raw_scope 0 cs f same, pass_before raw_scope 0 cs f same) refl))

new_channels :
    (method : FilterMethod) (kwargs : FilterKwargs) (ts : List ℚ)
    → let cs = map (new_channel method kwargs) ts in
      (length cs ≡ length ts) × (thresholds cs ≡ ts) × (before cs ≡ replicate (length ts) none)
new_channels method kwargs [] = (refl, refl, refl)
new_channels method kwargs (t ∷ ts) =
    let (l, h, b) = new_channels method kwargs ts in
    (ap suc l, ap (λ l. t ∷ l) h, ap (λ l. none ∷ l) b)

-- In the raw scope, the changes that a new detector reports over frames of ten readings are those
-- of an abstract detector that keeps only the frame before: whatever the filter is and has read,
-- each frame is compared with the one before, channel by channel.
pub reports-refines :
    (method : FilterMethod) (kwargs : FilterKwargs) (ts : List ℚ) (fs : List Frame)
    → length ts ≡ 10
    → AllTens fs
    → reports (new_detector method (some ts) raw_scope kwargs) fs
      ≡ abstract_reports ts (replicate 10 none) fs
unfolding new_detector
reports-refines method kwargs ts fs h tens =
    let (l, ht, hb) = new_channels method kwargs ts in
    refines method (map (new_channel method kwargs) ts) fs (l ∙ h) tens ∙ rw (ht, hb, h) refl

reset-pass :
    (scope : ThresholdScope) (i : ℕ) (cs : List Channel) (f : Frame)
    → length f ≡ length cs
    → map reset_channel (process_from scope i cs f).1 ≡ map reset_channel cs
unfolding process_from
reset-pass scope i [] f h = refl
reset-pass scope i (c ∷ cs) [] h = absurd (omega arith)
reset-pass scope i (c ∷ cs) (raw ∷ f) h =
    rw (reset-filter c.filtering raw)
      (ap (λ l. reset_channel c ∷ l) (reset-pass scope (suc i) cs f (omega arith)))

reset_new :
    (method : FilterMethod) (kwargs : FilterKwargs) (ts : List ℚ)
    → let cs = map (new_channel method kwargs) ts in map reset_channel cs ≡ cs
reset_new method kwargs [] = refl
reset_new method kwargs (t ∷ ts) =
    rw (reset-create method kwargs)
      (ap (λ l. new_channel method kwargs t ∷ l) (reset_new method kwargs ts))

reset-process_all :
    (method : FilterMethod) (scope : ThresholdScope) (cs : List Channel) (fs : List Frame)
    → length cs ≡ 10
    → AllTens fs
    → reset (process_all (with_channels method scope cs) fs)
      ≡ with_channels method scope (map reset_channel cs)
unfolding reset
reset-process_all method scope cs [] h tens = refl
reset-process_all method scope cs (f ∷ fs) h (ten, tens) =
    let same : length f ≡ length cs = omega arith in
    ap (λ out. reset (process_all (next (with_channels method scope cs) out) fs))
      (process_ten method scope cs f ten)
    ∙ reset-process_all method scope (process_from scope 0 cs f).1 fs
        (omega (arith, pass_length scope 0 cs f same)) tens
    ∙ ap (with_channels method scope) (reset-pass scope 0 cs f same)

-- `reset` brings the detector back to the state in which it was made, whatever frames of ten
-- readings it has processed since.
pub reset_history :
    (method : FilterMethod) (kwargs : FilterKwargs) (scope : ThresholdScope) (ts : List ℚ)
    (fs : List Frame)
    → length ts ≡ 10
    → AllTens fs
    → let d = new_detector method (some ts) scope kwargs in reset (process_all d fs) ≡ d
unfolding new_detector
reset_history method kwargs scope ts fs h tens =
    let (l, ht, hb) = new_channels method kwargs ts in
    reset-process_all method scope (map (new_channel method kwargs) ts) fs (l ∙ h) tens
    ∙ ap (with_channels method scope) (reset_new method kwargs ts)
