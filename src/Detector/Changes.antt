-- ===== src/Detector/Changes.antt =====
-- What a pass of `LoadcellChangeDetector.process` in src/io_board/events.py reports, by channel.
use mathlib.Core.Path.{subst}
use crk_io_board.Base.{
  ℕ, zero, suc, ◌+◌, ◌≡◌, ◌↔◌, refl, sym, ◌∙◌, arith, true, false, Option, some, List, [], ◌∷◌,
  Text, length, get_elem?, ==_iff, ◌||◌, ◌&&◌,
}
use crk_io_board.Errors.{ok}
use crk_io_board.Readings.{is_error_value}
use crk_io_board.Polling.{has}
use crk_io_board.Numbers.{ℚ}
use crk_io_board.Filters.{ThresholdScope, raw_scope, filtered_scope, filter, numeric}
use crk_io_board.Detector.Reported.{
  reported, has_changed, reported_below, uncertain_below, uncertain_channel, report_here,
  report_later, flag_here, flag_later, never_both, zero_plus,
}
use crk_io_board.Detector.Difference.{IsChange, exceeds_iff}
use crk_io_board.Detector.{
  Change, Channel, LoadcellChangeDetector, Processed, of_scope, after, process_from, process,
  uncertain_from, detect_uncertainties, is_absent,
}

some_injective {ℓ} : {A : Type ℓ} {a b : A} → some a ≡ some b → a ≡ b
some_injective h = cc

-- The passes from `i`, at the channel `k` places on.
record IsRead (scope : ThresholdScope) (i k : ℕ) (cs : List Channel) (raws : List Text)
    (c : Channel) (raw : Text) : Type 0 where
  pub change : reported (i + k) (process_from scope i cs raws).0.changes ≡ has_changed scope c raw
  pub uncertainty :
      has (i + k) (uncertain_from i raws (process_from scope i cs raws).0.filtered_numerics)
      ≡ is_absent (numeric raw)
  pub kept : get_elem? (process_from scope i cs raws).1 k ≡ some (after c raw)

module _ (scope : ThresholdScope) where
  first-IsRead :
      (i : ℕ) (c : Channel) (cs : List Channel) (raw : Text) (raws : List Text)
      → IsRead scope i 0 (c ∷ cs) (raw ∷ raws) c raw
  unfolding process_from uncertain_from
  first-IsRead i c cs raw raws = record {
    change =
        report_here i c.threshold (of_scope scope (numeric raw) (filter c.filtering raw).0.1)
          (of_scope scope c.previous_raw c.previous_filtered)
          (process_from scope (suc i) cs raws).0.changes
          (reported_below scope (suc i) i cs raws (omega arith));
    uncertainty =
        flag_here i (is_error_value raw || is_absent (filter c.filtering raw).0.1)
          (uncertain_from (suc i) raws (process_from scope (suc i) cs raws).0.filtered_numerics)
          (uncertain_below (suc i) i raws (process_from scope (suc i) cs raws).0.filtered_numerics
            (omega arith))
        ∙ uncertain_channel c.filtering raw;
    kept = refl;
  }

  later-IsRead :
      (i k : ℕ) (c d : Channel) (cs : List Channel) (raw s : Text) (raws : List Text)
      → IsRead scope (suc i) k cs raws d s
      → IsRead scope i (suc k) (c ∷ cs) (raw ∷ raws) d s
  unfolding process_from uncertain_from
  later-IsRead i k c d cs raw s raws h = record {
    change =
        report_later i k c.threshold (of_scope scope (numeric raw) (filter c.filtering raw).0.1)
          (of_scope scope c.previous_raw c.previous_filtered)
          (process_from scope (suc i) cs raws).0.changes
        ∙ h.change;
    uncertainty =
        flag_later i k (is_error_value raw || is_absent (filter c.filtering raw).0.1)
          (uncertain_from (suc i) raws (process_from scope (suc i) cs raws).0.filtered_numerics)
        ∙ h.uncertainty;
    kept = h.kept;
  }

  channel-IsRead :
      (i k : ℕ) (cs : List Channel) (raws : List Text) (c : Channel) (raw : Text)
      → get_elem? cs k ≡ some c
      → get_elem? raws k ≡ some raw
      → IsRead scope i k cs raws c raw
  channel-IsRead i k [] raws c raw hc hr = absurd (cc)
  channel-IsRead i k (d ∷ cs) [] c raw hc hr = absurd (cc)
  channel-IsRead i zero (d ∷ cs) (s ∷ raws) c raw hc hr =
      subst (λ c. IsRead scope i 0 (d ∷ cs) (s ∷ raws) c raw) (some_injective hc)
        (subst (λ raw. IsRead scope i 0 (d ∷ cs) (s ∷ raws) d raw) (some_injective hr)
          (first-IsRead i d cs s raws))
  channel-IsRead i (suc k) (d ∷ cs) (s ∷ raws) c raw hc hr =
      later-IsRead i k d c cs s raw raws (channel-IsRead (suc i) k cs raws c raw hc hr)

-- The values that each scope compares, before and now, and what the channel keeps.
abbrev pub earlier : ThresholdScope → Channel → Option ℚ
earlier raw_scope c = c.previous_raw
earlier filtered_scope c = c.previous_filtered

abbrev pub later : ThresholdScope → Channel → Text → Option ℚ
later raw_scope c raw = numeric raw
later filtered_scope c raw = (filter c.filtering raw).0.1

pub record IsAfter (c : Channel) (raw : Text) (c' : Channel) : Type 0 where
  pub reading_kept : c'.previous_raw ≡ numeric raw
  pub filtered_kept : c'.previous_filtered ≡ (filter c.filtering raw).0.1
  pub filter_moved : c'.filtering ≡ (filter c.filtering raw).1
  pub threshold_kept : c'.threshold ≡ c.threshold

has_changed_iff :
    (scope : ThresholdScope) (c : Channel) (raw : Text)
    → (has_changed scope c raw ≡ true) ↔ IsChange c.threshold (later scope c raw) (earlier scope c)
has_changed_iff raw_scope c raw = exceeds_iff c.threshold (numeric raw) c.previous_raw
has_changed_iff filtered_scope c raw =
    exceeds_iff c.threshold (filter c.filtering raw).0.1 c.previous_filtered

-- What the theorem says of a channel.
abbrev pub IsProcessed :
    ThresholdScope → ℕ → Channel → Text → List Change → List ℕ → List Channel → Type 0
IsProcessed scope k c raw changes uncertain channels' =
    ((reported k changes ≡ true) ↔ IsChange c.threshold (later scope c raw) (earlier scope c))
    × (has k uncertain ≡ is_absent (numeric raw))
    × ((reported k changes && has k uncertain) ≡ false)
    × (c' : Channel) × (get_elem? channels' k ≡ some c')
    × IsAfter c raw c'

-- When the detector is given ten readings, `process` returns, and in each channel: a change is
-- reported exactly when the value of the scope and the one before are both there, and their
-- difference (a float) or its negation is strictly more than the channel's threshold;
-- `detect_uncertainties` lists it exactly when the reading is no number; never both; and the channel
-- is left with this reading and its filtered value as the previous ones, with the filter after it and
-- with its threshold.
pub process_lem :
    (d : LoadcellChangeDetector) (raws : List Text)
    → length raws ≡ 10
    → (p : Processed) × (d' : LoadcellChangeDetector) × (process d raws ≡ ok (p, d'))
      × ((k : ℕ) (c : Channel) (raw : Text)
          → get_elem? d.channels k ≡ some c
          → get_elem? raws k ≡ some raw
          → IsProcessed d.threshold_scope k c raw p.changes
              (detect_uncertainties raws p.filtered_numerics)
              d'.channels)
unfolding process detect_uncertainties
process_lem d raws h =
    let (p, channels') = process_from d.threshold_scope 0 d.channels raws in
    (
      p,
      record d { channels = channels' },
      rw ((==_iff (length raws) 10).1 h) refl,
      λ k c raw hc hr.
          let r = channel-IsRead d.threshold_scope 0 k d.channels raws c raw hc hr in
          let change : reported k p.changes ≡ has_changed d.threshold_scope c raw =
            subst (λ j. reported j p.changes ≡ has_changed d.threshold_scope c raw) (zero_plus k)
              r.change in
          let uncertain : has k (uncertain_from 0 raws p.filtered_numerics)
              ≡ is_absent (numeric raw) =
            subst (λ j. has j (uncertain_from 0 raws p.filtered_numerics) ≡ is_absent (numeric raw))
              (zero_plus k) r.uncertainty in
          let (there, back) = has_changed_iff d.threshold_scope c raw in
          (
            (λ e. there (sym change ∙ e), λ e. change ∙ back e),
            uncertain,
            rw (change, uncertain) (never_both d.threshold_scope c raw),
            after c raw,
            r.kept,
            record {
              reading_kept = refl;
              filtered_kept = refl;
              filter_moved = refl;
              threshold_kept = refl;
            },
          ),
    )
