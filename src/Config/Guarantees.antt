-- ===== src/Config/Guarantees.antt =====
-- What the validators of src/core/config.py give the code that runs with the settings.
use native.Mathlib.Nat.{le-div_iff_mul-le, mul-le-mul_left}
use mathlib.Core.Path.{subst}
use crk_io_board.Base.{ℕ, ◌*◌, ◌≤◌, ◌<◌, ◌≡◌, refl, inr, arith, Bool, true, false, not}
use crk_io_board.Base.Int.{ℤ, pos, ltb_ℤ, pos_part}
use crk_io_board.Errors.{Result, ok, raise, ◌>>◌}
use crk_io_board.Serial.State.{SerialModel, Serial, opened, configure_serial}
use crk_io_board.Serial.Fetch.{Board, next_delay}
use crk_io_board.Serial.Fetch.Contract.{IsReady}
use crk_io_board.Sanitizer.{SanitizeModel}
use crk_io_board.Config.{
  SerialSettings, validate_serial, SanitizeSettings, validate_sanitize, require, require_positive,
  require_at_least, require_non_negative,
}

-- With settings that pass, the serial layer makes at least one attempt, and the wait between two
-- attempts is positive and never shrinks.
pub record IsUsable (config : SerialModel) : Type 0 where
  pub tries : 1 ≤ config.max_retries
  pub waits : 0 < config.initial_retry_delay
  pub grows : 1000 ≤ config.retry_backoff_multiplier

then_ok :
    {A : Type 0} {B : Type 0} (m : Result A) (k : Result B) (b : B)
    → (m >> k) ≡ ok b
    → ((a : A) × (m ≡ ok a)) × (k ≡ ok b)
then_ok (ok a) k b h = ((a, refl), h)
then_ok (raise e) k b h = cc

ok_injective : {A : Type 0} (a b : A) → ok a ≡ ok b → a ≡ b
ok_injective a b h = cc

required : (b : Bool) (u : Unit {0}) → require b ≡ ok u → b ≡ true
required true u h = refl
required false u h = cc

at_least : (n : ℕ) (v : ℤ) (u : Unit {0}) → require_at_least n v ≡ ok u → n ≤ pos_part v
at_least n v u h = ground (arith, required (not (ltb_ℤ v (pos n))) u h)

positive : (v : ℤ) (u : Unit {0}) → require_positive v ≡ ok u → 0 < pos_part v
positive v u h = ground (arith, required (ltb_ℤ (pos 0) v) u h)

pub validate_serial-IsUsable :
    (c : SerialSettings) (config : SerialModel) → validate_serial c ≡ ok config → IsUsable config
unfolding validate_serial
validate_serial-IsUsable c config h =
    let ((a, all), built) = then_ok _ (ok _) config h in
    let ((a₇, upto₇), r₈) = then_ok _ (require_non_negative c.inter_command_gap) a all in
    let ((a₆, upto₆), r₇) = then_ok _ (require_at_least 1000 c.retry_backoff_multiplier) a₇ upto₇ in
    let ((a₅, upto₅), r₆) = then_ok _ (require_positive c.initial_retry_delay) a₆ upto₆ in
    let ((a₄, upto₄), r₅) = then_ok _ (require_at_least 1 c.max_retries) a₅ upto₅ in
    subst IsUsable (ok_injective _ config built) (record {
      tries = at_least 1 c.max_retries a₅ r₅;
      waits = positive c.initial_retry_delay a₆ r₆;
      grows = at_least 1000 c.retry_backoff_multiplier a₇ r₇;
    })

-- The code that the settings of a validated serial port reach: a call of `fetch` on a port that opens
-- makes at least one attempt, and each wait is at least as long as the one before.
pub validate_serial-IsReady :
    (c : SerialSettings) (config : SerialModel) (board : Board) (s : Serial)
    → validate_serial c ≡ ok config
    → board.opening ≡ opened
    → IsReady config board (configure_serial config s)
      × ((delay : ℕ) → delay ≤ next_delay config delay)
unfolding configure_serial next_delay
validate_serial-IsReady c config board s h opens =
    let u = validate_serial-IsUsable c config h in
    (
      record { set = refl; tries = u.tries; opens = inr opens },
      λ delay.
          (le-div_iff_mul-le {k = 1000} {x = delay} {y = delay * config.retry_backoff_multiplier}
              (omega arith)).1
            (mul-le-mul_left delay u.grows),
    )

-- The validated settings of the sanitizer satisfy what the guard needs: an inverted sign is accepted
-- only from the second reading on.
pub validate_sanitize-relatch :
    (c : SanitizeSettings) (config : SanitizeModel)
    → validate_sanitize c ≡ ok config
    → 2 ≤ config.relatch_frames
unfolding validate_sanitize
validate_sanitize-relatch c config h =
    let ((a, all), built) = then_ok _ (ok _) config h in
    let ((a₄, upto₄), r₅) = then_ok _ (require_non_negative c.quantize_hysteresis_grams) a all in
    let ((a₃, upto₃), r₄) = then_ok _ (require_non_negative c.staleness_seconds) a₄ upto₄ in
    let ((a₂, upto₂), r₃) = then_ok _ (require_at_least 2 c.relatch_frames) a₃ upto₃ in
    subst (λ (m : SanitizeModel). 2 ≤ m.relatch_frames) (ok_injective _ config built)
      (at_least 2 c.relatch_frames a₃ r₃)
