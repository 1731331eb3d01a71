-- ===== src/Diagnosis/Clear.antt =====
-- What it takes for each check of `analyze` in tools/post_move_diag.py to find nothing.
use crk_io_board.Base.{
  ℕ, suc, ◌≡◌, ◌≢◌, refl, ap, arith, Bool, true, false, not, Option, none, some, List, [], ◌∷◌,
  ◌++◌, Text, ◌==◌, ==_iff, if◌then◌else◌, Bool-cases, inl, inr,
}
use crk_io_board.Base.Int.{pos, ltb_ℤ}
use crk_io_board.Numbers.Binary64.{binary64}
use crk_io_board.Numbers.{ℚ, ◌-ℚ◌, abs_ℚ, leb_ℚ}
use crk_io_board.Diagnosis
use crk_io_board.Diagnosis.{
  Thresholds, Severity, info, warn, fail, Issue, issue, channel_issue, when, grade, graded,
  same_value, Health, Product, StatusSample, RequestRecord,
}
use crk_io_board.Diagnosis.Statistics.{ChannelStats, Spread, error_count}
use crk_io_board.Diagnosis.Checks.{
  BaselineChannel, check_health, is_healthy, check_product, check_device_errors, some_active,
  check_markers, check_offset, check_shift, check_spread, check_baseline, check_channel,
}
use crk_io_board.Diagnosis.Analysis.{max_rank, severity_rank}

-- The issues do not keep a verdict from being a pass.
pub record IsQuiet (is : List Issue) : Type 0 where
  pub lowest : max_rank is ≡ 0

rank_append : (xs ys : List Issue) → max_rank (xs ++ ys) ≡ 0 → (max_rank xs ≡ 0) × (max_rank ys ≡ 0)
rank_append [] ys h = (refl, h)
rank_append (x ∷ xs) ys h = let (a, b) = rank_append xs ys (ground arith) in (ground arith, b)

pub IsQuiet-append : {xs ys : List Issue} → IsQuiet (xs ++ ys) → IsQuiet xs × IsQuiet ys
IsQuiet-append {xs} {ys} q =
    let (a, b) = rank_append xs ys q.lowest in (record { lowest = a }, record { lowest = b })

rank_of : (i : Issue) → max_rank (i ∷ []) ≡ 0 → severity_rank i.severity ≡ 0
rank_of i h = ground arith

-- An issue that the code raises is a warning or a failure.
pub quiet_when :
    (b : Bool) (i : Issue) → severity_rank i.severity ≢ 0 → IsQuiet (when b i) → b ≡ false
quiet_when true i s q = absurd (s (rank_of i q.lowest))
quiet_when false i s q = refl

pub rank_if : (b : Bool) → severity_rank (if b then fail else warn) ≢ 0
rank_if true = λ e. absurd (omega arith)
rank_if false = λ e. absurd (omega arith)

-- Below both limits.
abbrev pub IsBelow : ℚ → ℚ → ℚ → Type 0
IsBelow w f v = (leb_ℚ f v ≡ false) × (leb_ℚ w v ≡ false)

pub loud : (i : Issue) (n : ℕ) → severity_rank i.severity ≡ suc n → ¬ IsQuiet (i ∷ [])
loud i n r q = absurd (omega (arith, rank_of i q.lowest))

quiet_limits :
    (b c : Bool) (k : Severity → Issue)
    → ((s : Severity) → (k s).severity ≡ s)
    → IsQuiet (graded (if b then some fail else if c then some warn else none) k)
    → (b ≡ false) × (c ≡ false)
quiet_limits true c k same h = absurd (loud (k fail) 1 (ap severity_rank (same fail)) h)
quiet_limits false true k same h = absurd (loud (k warn) 0 (ap severity_rank (same warn)) h)
quiet_limits false false k same h = (refl, refl)

pub quiet_grade :
    (w f v : ℚ) (k : Severity → Issue)
    → ((s : Severity) → (k s).severity ≡ s)
    → IsQuiet (graded (grade w f v) k)
    → IsBelow w f v
unfolding grade
quiet_grade w f v k same h = quiet_limits (leb_ℚ f v) (leb_ℚ w v) k same h

-- What each check asks for.
abbrev pub HealthClear : Option Health → Type 0
HealthClear none = ⊥
HealthClear (some h) =
    (is_healthy h.loadcells ≡ true) × (is_healthy h.door ≡ true) × (is_healthy h.deadbolt ≡ true)

abbrev pub ProductClear : Option Product → Option Product → Type 0
ProductClear none b = ⊥
ProductClear (some p) none = Unit
ProductClear (some p) (some b) =
    (same_value p.product_id b.product_id ≡ true) × (same_value p.sw_version b.sw_version ≡ true)

abbrev pub HistoryClear : Option (List (Option Text)) → Type 0
HistoryClear none = ⊥
HistoryClear (some errors) = some_active errors ≡ false

-- The limits on the noise, the range, the offset of an empty shelf and the shift from the baseline.
abbrev pub OffsetClear : Thresholds → Bool → Spread → Type 0
OffsetClear t false n = Unit
OffsetClear t true n = IsBelow t.empty_offset_warn t.empty_offset_fail (abs_ℚ n.mean)

abbrev pub MeanClear : Thresholds → Spread → Option ℚ → Type 0
MeanClear t n none = Unit
MeanClear t n (some m) =
    IsBelow t.baseline_shift_warn t.baseline_shift_fail (abs_ℚ (binary64 (n.mean -ℚ m)))

abbrev pub ShiftClear : Thresholds → Spread → Option BaselineChannel → Type 0
ShiftClear t n none = Unit
ShiftClear t n (some b) = MeanClear t n b.mean

abbrev pub SpreadClear : Thresholds → Bool → Option BaselineChannel → Option Spread → Type 0
SpreadClear t empty base none = Unit
SpreadClear t empty base (some n) =
    IsBelow t.noise_std_warn t.noise_std_fail n.stddev
    × IsBelow t.range_warn t.range_fail n.range
    × OffsetClear t empty n
    × ShiftClear t n base

abbrev pub ChannelClear : Thresholds → Bool → Option BaselineChannel → ChannelStats → Type 0
ChannelClear t empty base s =
    (error_count s.error_counts ≡ 0)
    × (ltb_ℤ (pos s.valid_count) t.min_samples ≡ false)
    × SpreadClear t empty base s.numbers

was_negated : (b : Bool) → not b ≡ false → b ≡ true
was_negated true h = refl
was_negated false h = cc

pub fail_severe : severity_rank fail ≢ 0
fail_severe e = absurd (omega arith)

pub warn_severe : severity_rank warn ≢ 0
warn_severe e = absurd (omega arith)

pub quiet_unless :
    (b : Bool) (i : Issue) → severity_rank i.severity ≢ 0 → IsQuiet (when (not b) i) → b ≡ true
quiet_unless b i s q = was_negated b (quiet_when (not b) i s q)

pub health-clear : (h : Option Health) → IsQuiet (check_health h) → HealthClear h
unfolding check_health
health-clear none q = absurd (loud (issue fail Diagnosis.health_unavailable) 1 refl q)
health-clear (some h) q =
    let (ab, c) = IsQuiet-append q in
    let (a, b) = IsQuiet-append ab in
    (
      quiet_unless (is_healthy h.loadcells) unhealthy fail_severe a,
      quiet_unless (is_healthy h.door) unhealthy fail_severe b,
      quiet_unless (is_healthy h.deadbolt) unhealthy fail_severe c,
    )
  where
    unhealthy : Issue
    unhealthy = issue fail Diagnosis.health_unhealthy

pub product-clear : (p b : Option Product) → IsQuiet (check_product p b) → ProductClear p b
unfolding check_product
product-clear none b q = absurd (loud (issue fail Diagnosis.product_info_unavailable) 1 refl q)
product-clear (some p) none q = tt
product-clear (some p) (some b) q =
    let (same, version) = IsQuiet-append q in
    (
      quiet_unless (same_value p.product_id b.product_id) (issue fail Diagnosis.product_id_changed)
          fail_severe same,
      quiet_unless (same_value p.sw_version b.sw_version)
          (issue warn Diagnosis.firmware_version_changed) warn_severe version,
    )

pub history-clear :
    (e : Option (List (Option Text))) → IsQuiet (check_device_errors e) → HistoryClear e
unfolding check_device_errors
history-clear none q = absurd (loud (issue warn Diagnosis.error_history_unavailable) 0 refl q)
history-clear (some errors) q =
    quiet_when (some_active errors) (issue warn Diagnosis.device_error_history_present) warn_severe
      q

offset-clear :
    (t : Thresholds) (empty : Bool) (channel : ℕ) (n : Spread)
    → IsQuiet (check_offset t empty channel n)
    → OffsetClear t empty n
unfolding check_offset
offset-clear t false channel n q = tt
offset-clear t true channel n q =
    quiet_grade t.empty_offset_warn t.empty_offset_fail (abs_ℚ n.mean)
      (λ s. channel_issue channel s Diagnosis.empty_zero_offset) (λ s. refl) q

shift-clear :
    (t : Thresholds) (channel : ℕ) (n : Spread) (b : Option BaselineChannel)
    → IsQuiet (check_baseline t channel n b)
    → ShiftClear t n b
unfolding check_shift
shift-clear t channel n none q = tt
shift-clear t channel n (some b) q = mean_shift b.mean (IsQuiet-append q).0
  where
    mean_shift : (m : Option ℚ) → IsQuiet (check_shift t channel n m) → MeanClear t n m
    mean_shift none q = tt
    mean_shift (some m) q =
        quiet_grade t.baseline_shift_warn t.baseline_shift_fail (abs_ℚ (binary64 (n.mean -ℚ m)))
          (λ s. channel_issue channel s Diagnosis.baseline_mean_shift) (λ s. refl) q

spread-clear :
    (t : Thresholds) (empty : Bool) (channel : ℕ) (b : Option BaselineChannel) (n : Option Spread)
    → IsQuiet (check_spread t empty channel b n)
    → SpreadClear t empty b n
spread-clear t empty channel b none q = tt
spread-clear t empty channel b (some n) q =
    let (rest, base) = IsQuiet-append q in
    let (rest', offset) = IsQuiet-append rest in
    let (noise, range) = IsQuiet-append rest' in
    (
      quiet_grade t.noise_std_warn t.noise_std_fail n.stddev
          (λ s. channel_issue channel s Diagnosis.loadcell_noisy) (λ s. refl) noise,
      quiet_grade t.range_warn t.range_fail n.range
          (λ s. channel_issue channel s Diagnosis.loadcell_range_unstable) (λ s. refl) range,
      offset-clear t empty channel n offset,
      shift-clear t channel n b base,
    )

error_free : (n : ℕ) → (n == 0) ≡ true → n ≡ 0
error_free n h = (==_iff n 0).0 h

pub channel-clear :
    (t : Thresholds) (empty : Bool) (b : Option BaselineChannel) (s : ChannelStats)
    → IsQuiet (check_channel t empty b s)
    → ChannelClear t empty b s
unfolding check_channel check_markers
channel-clear t empty b s q =
    let (marks, rest) = IsQuiet-append q in
    let unmarked : error_count s.error_counts ≡ 0 = error_free (error_count s.error_counts) (
      quiet_unless (error_count s.error_counts == 0)
        (channel_issue s.channel (if leb_ℚ t.marker_fail_rate s.error_rate then fail else warn)
          Diagnosis.loadcell_error_marker)
        (rank_if (leb_ℚ t.marker_fail_rate s.error_rate)) marks) in
    elim (Bool-cases (ltb_ℤ (pos s.valid_count) t.min_samples)) [
      | inl e ↦ absurd (
          loud (channel_issue s.channel fail Diagnosis.loadcell_valid_samples_low) 1 refl
            (rw e at rest))
      | inr e ↦ (unmarked, e, spread-clear t empty s.channel b s.numbers (rw e at rest))
    ]
