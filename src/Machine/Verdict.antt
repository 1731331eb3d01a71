-- ===== src/Machine/Verdict.antt =====
-- What /health of src/api/v1/routers/machine.py answers, part by part.
use mathlib.Core.Path.{subst}
use crk_io_board.Base.{
  ℕ, ◌+◌, ◌-◌, ◌*◌, ◌/◌, ◌%◌, ◌<◌, ◌≡◌, refl, sym, ◌∙◌, ap, Bool, true, false, ◌&&◌, ◌||◌, Option,
  none, some, List, [], ◌∷◌, Text, arith, ◌==◌, Bool-cases, inl, inr, ◌↔◌, ==_iff,
}
use crk_io_board.Base.Int.{ℤ, ltb_ℤ, ◌≤ℤ◌}
use crk_io_board.Readings.{digits_5, is_digit}
use crk_io_board.Config.{HealthSettings}
use crk_io_board.Errors.{Result, ok, raise}
use crk_io_board.Protocol.Library.{Construct}
use crk_io_board.Serial.Fetch.{Board}
use crk_io_board.Commands.{
  Service, DoorState, opened, closed, DeadboltState, locked, unlocked, get_status, get_loadcells,
}
use crk_io_board.ErrorState.{ErrorState, door_error, deadbolt_error}
use crk_io_board.Machine.{
  matched, int_of, all_plausible, in_range, healthy, health_of, loadcells_health, deadbolt_health,
  get_health,
}
use crk_io_board.Machine.Loadcells.{
  signed_value, sign_of, IsPlausible, AllPlausible, all_plausible_lem,
}

-- A number of five digits has these digits.
digits_of :
    (a b c d e : ℕ)
    → a < 10
    → b < 10
    → c < 10
    → d < 10
    → e < 10
    → digits_5 (a * 10000 + b * 1000 + c * 100 + d * 10 + e)
      ≡ (b'0' + a) ∷ (b'0' + b) ∷ (b'0' + c) ∷ (b'0' + d) ∷ (b'0' + e) ∷ []
digits_of a b c d e ha hb hc hd he =
    let n : ℕ = a * 10000 + b * 1000 + c * 100 + d * 10 + e in
    let pa : n / 10000 % 10 ≡ a = omega arith in
    let pb : n / 1000 % 10 ≡ b = omega arith in
    let pc : n / 100 % 10 ≡ c = omega arith in
    let pd : n / 10 % 10 ≡ d = omega arith in
    let pe : n % 10 ≡ e = omega arith in rw (pa, pb, pc, pd, pe) refl

digit_value : (c : ℕ) → is_digit c ≡ true → (c - b'0' < 10) × (b'0' + (c - b'0') ≡ c)
digit_value c h = (ground arith, ground arith)

sign_value : (s : ℕ) → (s == b'+' || s == b'-') ≡ true → (minus : Bool) × (s ≡ sign_of minus)
sign_value s h = elim (Bool-cases (s == b'-')) [
  | inl e ↦ (true, (==_iff s b'-').0 e)
  | inr e ↦ (false, (==_iff s b'+').0 (ground arith))
]

int_of_sign :
    (minus : Bool) (a b c d e : ℕ)
    → int_of (sign_of minus) a b c d e
      ≡ signed_value minus
          ((a - b'0') * 10000 + (b - b'0') * 1000 + (c - b'0') * 100 + (d - b'0') * 10 + (e - b'0'))
int_of_sign true a b c d e = refl
int_of_sign false a b c d e = refl

-- A reading as a sign and five digits.
record IsSigned (x : Text) (v : ℤ) : Type 0 where
  minus : Bool
  grams : ℕ
  fits : grams < 100000
  shape : x ≡ sign_of minus ∷ digits_5 grams
  value : v ≡ signed_value minus grams

signed :
    (s a b c d e : ℕ) (v : ℤ)
    → (s == b'+' || s == b'-') ≡ true
    → is_digit a ≡ true
    → is_digit b ≡ true
    → is_digit c ≡ true
    → is_digit d ≡ true
    → is_digit e ≡ true
    → int_of s a b c d e ≡ v
    → IsSigned (s ∷ a ∷ b ∷ c ∷ d ∷ e ∷ []) v
signed s a b c d e v hs ha hb hc hd he hv =
    let (minus, sign) = sign_value s hs in
    let (la, ea) = digit_value a ha in
    let (lb, eb) = digit_value b hb in
    let (lc, ec) = digit_value c hc in
    let (ld, ed) = digit_value d hd in
    let (le, ee) = digit_value e he in
    record {
      minus = minus;
      grams =
          (a - b'0') * 10000 + (b - b'0') * 1000 + (c - b'0') * 100 + (d - b'0') * 10 + (e - b'0');
      fits = omega arith;
      shape =
          ap (λ s. s ∷ a ∷ b ∷ c ∷ d ∷ e ∷ []) sign
          ∙ ap (λ t. sign_of minus ∷ t)
              (sym (
                digits_of (a - b'0') (b - b'0') (c - b'0') (d - b'0') (e - b'0') la lb lc ld le
                ∙ cc (ea, eb, ec, ed, ee)));
      value = sym hv ∙ ap (λ s. int_of s a b c d e) sign ∙ int_of_sign minus a b c d e;
    }

matched_signed : (x : Text) (v : ℤ) → matched x ≡ some v → IsSigned x v
unfolding matched
matched_signed [] v h = cc
matched_signed (s ∷ []) v h = cc
matched_signed (s ∷ a ∷ []) v h = cc
matched_signed (s ∷ a ∷ b ∷ []) v h = cc
matched_signed (s ∷ a ∷ b ∷ c ∷ []) v h = cc
matched_signed (s ∷ a ∷ b ∷ c ∷ d ∷ []) v h = cc
matched_signed (s ∷ a ∷ b ∷ c ∷ d ∷ e ∷ f ∷ x) v h = cc
matched_signed (s ∷ a ∷ b ∷ c ∷ d ∷ e ∷ []) v h =
    elim (Bool-cases (
      (s == b'+' || s == b'-')
      && is_digit a
      && is_digit b
      && is_digit c
      && is_digit d
      && is_digit e)) [
        | inl t ↦
            signed s a b c d e v (ground arith) (ground arith) (ground arith) (ground arith)
              (ground arith) (ground arith) (ground arith)
        | inr t ↦ absurd (cc)
      ]

not_above : (a b : ℤ) → ltb_ℤ b a ≡ false → a ≤ℤ b
not_above a b h = ground arith

was-IsPlausible :
    (cfg : HealthSettings) (x : Text) (o : Option ℤ)
    → matched x ≡ o
    → in_range cfg.loadcell_min_grams cfg.loadcell_max_grams o ≡ true
    → IsPlausible cfg x
was-IsPlausible cfg x none m h = cc
was-IsPlausible cfg x (some v) m h =
    let i = matched_signed x v m in
    record {
      minus = i.minus;
      grams = i.grams;
      fits = i.fits;
      shape = i.shape;
      above =
          subst (λ v. cfg.loadcell_min_grams ≤ℤ v) i.value
            (not_above cfg.loadcell_min_grams v (ground arith));
      below =
          subst (λ v. v ≤ℤ cfg.loadcell_max_grams) i.value
            (not_above v cfg.loadcell_max_grams (ground arith));
    }

were-AllPlausible :
    (cfg : HealthSettings) (xs : List Text) → all_plausible cfg xs ≡ true → AllPlausible cfg xs
unfolding all_plausible
were-AllPlausible cfg [] h = tt
were-AllPlausible cfg (x ∷ xs) h = (
  was-IsPlausible cfg x (matched x) refl (left_true _ _ h),
  were-AllPlausible cfg xs (right_true _ _ h),
)
  where
    left_true : (a b : Bool) → (a && b) ≡ true → a ≡ true
    left_true true b h = refl
    left_true false b h = h

    right_true : (a b : Bool) → (a && b) ≡ true → b ≡ true
    right_true true b h = h
    right_true false b h = cc

health_iff : (b : Bool) → (health_of b ≡ healthy) ↔ (b ≡ true)
health_iff true = (λ h. refl, λ h. refl)
health_iff false = (λ h. cc, λ h. cc)

-- The frame arrived, and each of its readings is a sign and five digits with a value in the range.
abbrev pub IsHealthyFrame : HealthSettings → Result (List Text) → Type 0
IsHealthyFrame cfg (ok xs) = AllPlausible cfg xs
IsHealthyFrame cfg (raise e) = ⊥

-- The states arrived, and the deadbolt is not locked while the door is open.
abbrev pub IsHealthyStatus : Result (DoorState × DeadboltState) → Type 0
IsHealthyStatus (ok (opened, locked)) = ⊥
IsHealthyStatus (ok (opened, unlocked)) = Unit
IsHealthyStatus (ok (closed, bolt)) = Unit
IsHealthyStatus (raise e) = ⊥

loadcells_iff :
    (cfg : HealthSettings) (r : Result (List Text))
    → (loadcells_health cfg r ≡ healthy) ↔ IsHealthyFrame cfg r
unfolding all_plausible
loadcells_iff cfg (ok xs) = (
  λ h. were-AllPlausible cfg xs ((health_iff (all_plausible cfg xs)).0 h),
  λ h. (health_iff (all_plausible cfg xs)).1 (all_plausible_lem cfg xs h),
)
loadcells_iff cfg (raise e) = (λ h. absurd (cc), λ h. absurd h)

deadbolt_iff :
    (applied : Bool) (r : Result (DoorState × DeadboltState))
    → (deadbolt_health applied r ≡ healthy) ↔ ((applied ≡ true) × IsHealthyStatus r)
deadbolt_iff true (ok (opened, locked)) = (λ h. absurd (cc), λ h. absurd h.1)
deadbolt_iff false (ok (opened, locked)) = (λ h. absurd (cc), λ h. absurd h.1)
deadbolt_iff true (ok (opened, unlocked)) = (λ h. (refl, tt), λ h. refl)
deadbolt_iff false (ok (opened, unlocked)) = (λ h. absurd (cc), λ h. absurd (cc))
deadbolt_iff true (ok (closed, bolt)) = (λ h. (refl, tt), λ h. refl)
deadbolt_iff false (ok (closed, bolt)) = (λ h. absurd (cc), λ h. absurd (cc))
deadbolt_iff applied (raise e) = (λ h. absurd (cc), λ h. absurd h.1)

-- /health sends the two commands that read, and nothing else. It answers that the door is healthy
-- exactly when the tracking finds it so; the loadcells, exactly when a frame arrives in which each
-- reading is a sign and five digits with a value in the range; and the deadbolt, exactly when the
-- tracking finds it so and the states arrive without a lock on an open door.
pub get_health_iff :
    (L : Construct) (cfg : HealthSettings) (es : ErrorState) (time time' : ℕ) (board board' : Board)
    (s : Service)
    → let (s', health) = get_health L cfg es time time' board board' s in
      let (s₁, frame) = get_loadcells L board s in
      let (s₂, status) = get_status L board' s₁ in
      (s' ≡ s₂)
      × ((health.door ≡ healthy) ↔ (door_error time es ≡ true))
      × ((health.loadcells ≡ healthy) ↔ IsHealthyFrame cfg frame)
      × ((health.deadbolt ≡ healthy) ↔ ((deadbolt_error time' es ≡ true) × IsHealthyStatus status))
unfolding get_health
get_health_iff L cfg es time time' board board' s = (
  refl,
  health_iff (door_error time es),
  loadcells_iff cfg (get_loadcells L board s).1,
  deadbolt_iff (deadbolt_error time' es) (get_status L board' (get_loadcells L board s).0).1,
)
