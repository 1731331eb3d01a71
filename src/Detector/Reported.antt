-- ===== src/Detector/Reported.antt =====
-- The lists of changes and of uncertainties of src/io_board/events.py, entry by entry.
use crk_io_board.Base.{
  ℕ, suc, ◌+◌, ◌≡◌, refl, ap, ◌∙◌, ◌<◌, arith, Bool, true, false, Option, none, some, List, [], ◌∷◌,
  ◌++◌, Text, ◌==◌, ◌||◌, ◌&&◌, if◌then◌else◌, Bool-cases, Option-cases, inl, inr,
}
use crk_io_board.Readings.{is_error_value, parse_value}
use crk_io_board.Numbers.{ℚ}
use crk_io_board.Polling.{has}
use crk_io_board.Filters.{
  ThresholdScope, raw_scope, filtered_scope, filter, numeric, LoadcellFilter,
}
use crk_io_board.Filters.History.{filter-error, filter-number}
use crk_io_board.Detector.{
  Channel, Change, of_scope, exceeds, report, report_channel, process_from, uncertain_from,
  is_absent,
}

-- Whether the channel is among the changes.
abbrev pub reported : ℕ → List Change → Bool
reported i [] = false
reported i (c ∷ cs) = i == c.index || reported i cs

-- What the code is to find in a channel: the value of the scope differs from the one before by more
-- than the threshold.
abbrev pub has_changed : ThresholdScope → Channel → Text → Bool
has_changed scope c raw =
    exceeds c.threshold (of_scope scope (numeric raw) (filter c.filtering raw).0.1)
      (of_scope scope c.previous_raw c.previous_filtered)

or_false : (b : Bool) → (b || false) ≡ b
or_false true = refl
or_false false = refl

reported_append :
    (i : ℕ) (xs ys : List Change) → reported i (xs ++ ys) ≡ (reported i xs || reported i ys)
reported_append i [] ys = refl
reported_append i (x ∷ xs) ys = ground (arith, reported_append i xs ys)

reported-report :
    (i j : ℕ) (t : ℚ) (n p : Option ℚ)
    → reported j (report i t n p) ≡ (if j == i then exceeds t n p else false)
reported-report i j t none p = ground arith
reported-report i j t (some n) none = ground arith
reported-report i j t (some n) (some p) = ground arith

and_false : (b : Bool) → (b && false) ≡ false
and_false true = refl
and_false false = refl

or_true : (b : Bool) → (b || true) ≡ true
or_true true = refl
or_true false = refl

error_numeric : (raw : Text) → is_error_value raw ≡ true → numeric raw ≡ none
unfolding parse_value
error_numeric raw h = rw h refl

other_index : (i j : ℕ) → j < i → (j == i) ≡ false
other_index i j h = ground arith

later_index : (i k : ℕ) → (i + suc k == i) ≡ false
later_index i k = ground arith

same_index : (i : ℕ) → (i == i) ≡ true
same_index i = ground arith

i_plus_0 : (i : ℕ) → i + 0 ≡ i
i_plus_0 i = omega arith

pub zero_plus : (k : ℕ) → 0 + k ≡ k
zero_plus k = omega arith

pub uncertain_channel :
    (f : LoadcellFilter) (raw : Text)
    → (is_error_value raw || is_absent (filter f raw).0.1) ≡ is_absent (numeric raw)
uncertain_channel f raw = elim (Option-cases (numeric raw)) [
  | inl e ↦ rw (ap (λ t. t.0.1) (filter-error f raw e), e) (or_true (is_error_value raw))
  | inr (n, e) ↦
      let (m, fm) = filter-number f raw n e in
      elim (Bool-cases (is_error_value raw)) [
        | inl h ↦ absurd (cc (e, error_numeric raw h))
        | inr h ↦ rw (h, fm, e) refl
      ]
]

-- Only the channels from `i` on are reported by the passes from `i`.
pub reported_below :
    (scope : ThresholdScope) (i j : ℕ) (cs : List Channel) (raws : List Text)
    → j < i
    → reported j (process_from scope i cs raws).0.changes ≡ false
unfolding process_from
reported_below scope i j [] raws h = refl
reported_below scope i j (c ∷ cs) [] h = refl
reported_below scope i j (c ∷ cs) (raw ∷ raws) h =
    reported_append j (report_channel scope i c raw) (process_from scope (suc i) cs raws).0.changes
    ∙ rw
        (
          reported-report i j c.threshold
              (of_scope scope (numeric raw) (filter c.filtering raw).0.1)
              (of_scope scope c.previous_raw c.previous_filtered),
          other_index i j h,
          reported_below scope (suc i) j cs raws (omega arith),
        )
        refl

pub uncertain_below :
    (i j : ℕ) (raws : List Text) (ns : List (Option ℚ))
    → j < i
    → has j (uncertain_from i raws ns) ≡ false
unfolding uncertain_from
uncertain_below i j [] ns h = refl
uncertain_below i j (raw ∷ raws) [] h = refl
uncertain_below i j (raw ∷ raws) (n ∷ ns) h =
    let rest = uncertain_below (suc i) j raws ns (omega arith) in
    elim (Bool-cases (is_error_value raw || is_absent n)) [
      | inl e ↦ rw (e, other_index i j h) rest
      | inr e ↦ rw e rest
    ]

pub flag_here :
    (i : ℕ) (b : Bool) (rest : List ℕ)
    → has i rest ≡ false
    → has (i + 0) (if b then i ∷ rest else rest) ≡ b
flag_here i true rest h = ground arith
flag_here i false rest h = rw (i_plus_0 i) h

pub flag_later :
    (i k : ℕ) (b : Bool) (rest : List ℕ)
    → has (i + suc k) (if b then i ∷ rest else rest) ≡ has (suc i + k) rest
flag_later i k true rest = rw (later_index i k) (ap (λ j. has j rest) (omega arith))
flag_later i k false rest = ap (λ j. has j rest) (omega arith)

pub report_here :
    (i : ℕ) (t : ℚ) (n p : Option ℚ) (rest : List Change)
    → reported i rest ≡ false
    → reported (i + 0) (report i t n p ++ rest) ≡ exceeds t n p
report_here i t n p rest h = rw i_plus_0 (
    reported_append i (report i t n p) rest
    ∙ rw (reported-report i i t n p, same_index i, h) (or_false (exceeds t n p)))

pub report_later :
    (i k : ℕ) (t : ℚ) (n p : Option ℚ) (rest : List Change)
    → reported (i + suc k) (report i t n p ++ rest) ≡ reported (suc i + k) rest
report_later i k t n p rest =
    reported_append (i + suc k) (report i t n p) rest
    ∙ rw (reported-report i (i + suc k) t n p, later_index i k)
        (ap (λ j. reported j rest) (omega arith))

pub never_both :
    (scope : ThresholdScope) (c : Channel) (raw : Text)
    → (has_changed scope c raw && is_absent (numeric raw)) ≡ false
never_both scope c raw = elim (Option-cases (numeric raw)) [
  | inl e ↦ rw (no_change scope e) refl
  | inr (n, e) ↦
      ap (λ o. has_changed scope c raw && is_absent o) e ∙ and_false (has_changed scope c raw)
]
  where
    no_change : (scope : ThresholdScope) → numeric raw ≡ none → has_changed scope c raw ≡ false
    no_change raw_scope e = rw e refl
    no_change filtered_scope e = rw (ap (λ t. t.0.1) (filter-error c.filtering raw e)) refl
