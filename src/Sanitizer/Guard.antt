-- ===== src/Sanitizer/Guard.antt =====
-- The sign guard of src/services/io_board/sanitizer.py on a run of readings that come in time.
use native.Mathlib.Nat.{mul-pos}
use crk_io_board.Base.{
  ℕ, zero, suc, ◌+◌, ◌≤◌, ◌<◌, ◌≡◌, refl, Bool, true, false, Option, some, List, [], ◌∷◌, ◌++◌, map,
  arith, ◌⊎◌, length, lt→ltb, le→leb, ap, ◌∙◌,
}
use crk_io_board.Base.Int.{ℤ, pos, negsuc, ◌*ℤ◌, ltb_ℤ, neg_ℤ, abs_ℤ, pos_part, neg_part, one_sign}
use crk_io_board.Sanitizer.{SanitizeModel, is_flip, sign_guard, distance}

abbrev pub Opposite : ℤ → ℤ → Type 0
Opposite p v = ((0 < pos_part p) × (0 < neg_part v)) ⊎ ((0 < neg_part p) × (0 < pos_part v))

product_neg : (v p : ℤ) → Opposite p v → 0 < neg_part (v *ℤ p)
unfolding ◌*ℤ◌
product_neg (pos zero) (pos b) h = ground arith
product_neg (pos zero) (negsuc b) h = ground arith
product_neg (pos (suc a)) (pos b) h = ground arith
product_neg (negsuc a) (negsuc b) h = ground arith
product_neg (pos (suc a)) (negsuc b) h =
    ground (arith, mul-pos {m = suc a} {n = suc b} (omega arith) (omega arith))
product_neg (negsuc a) (pos zero) h = ground arith
product_neg (negsuc a) (pos (suc b)) h =
    ground (arith, mul-pos {m = suc a} {n = suc b} (omega arith) (omega arith))

-- A reading whose sign is opposite to the one before, not small, and of about the same magnitude.
pub record IsGlitch (cfg : SanitizeModel) (p v : ℤ) : Type 0 where
  pub opposite : Opposite p v
  pub large : cfg.min_magnitude ≤ abs_ℤ v
  pub close : distance (abs_ℤ v) (abs_ℤ p) ≤ cfg.magnitude_tolerance

below_zero : (x : ℤ) → 0 < neg_part x → ltb_ℤ x (pos 0) ≡ true
below_zero x h = lt→ltb (pos_part x + 0) (0 + neg_part x) (omega (arith, one_sign x))

is_flip-glitch :
    (cfg : SanitizeModel) (p v : ℤ) → IsGlitch cfg p v → is_flip cfg true v (some p) ≡ true
unfolding is_flip
is_flip-glitch cfg p v g =
    rw (below_zero (v *ℤ p) (product_neg v p g.opposite), le→leb _ _ g.large, le→leb _ _ g.close)
      refl

-- The readings of a channel through the guard: the outputs, and the streak after them.
abbrev pub guard_all : SanitizeModel → Option ℤ → ℕ → List ℤ → List ℤ × ℕ
guard_all cfg prev streak [] = ([], streak)
guard_all cfg prev streak (v ∷ vs) =
    let (w, k, corrected) = sign_guard cfg true v prev streak in
    let (ws, n) = guard_all cfg (some w) k vs in (w ∷ ws, n)

-- Each reading is a glitch after the corrected reading before it.
abbrev pub AllGlitches : SanitizeModel → ℤ → List ℤ → Type 0
AllGlitches cfg p [] = Unit
AllGlitches cfg p (v ∷ vs) = IsGlitch cfg p v × AllGlitches cfg (neg_ℤ v) vs

abbrev pub last_of : ℤ → List ℤ → ℤ
last_of p [] = p
last_of p (v ∷ vs) = last_of (neg_ℤ v) vs

module _ (cfg : SanitizeModel) where
  pub corrects :
      (p v : ℤ) (streak : ℕ)
      → IsGlitch cfg p v
      → streak + 1 < cfg.relatch_frames
      → sign_guard cfg true v (some p) streak ≡ (neg_ℤ v, streak + 1, true)
  unfolding sign_guard
  corrects p v streak g h = rw (is_flip-glitch cfg p v g, lt→ltb _ _ h) refl

  relatches :
      (p v : ℤ) (streak : ℕ)
      → IsGlitch cfg p v
      → cfg.relatch_frames ≤ streak + 1
      → sign_guard cfg true v (some p) streak ≡ (v, 0, false)
  unfolding sign_guard
  relatches p v streak g h = rw (is_flip-glitch cfg p v g) (ground arith)

  run :
      (p : ℤ) (streak k : ℕ) (vs : List ℤ) (more : List ℤ)
      → AllGlitches cfg p vs
      → k ≡ streak + length vs
      → k < cfg.relatch_frames
      → guard_all cfg (some p) streak (vs ++ more)
        ≡ (let (ws, n) = guard_all cfg (some (last_of p vs)) k more in (map neg_ℤ vs ++ ws, n))
  run p streak k [] more g e h = ap (λ j. guard_all cfg (some p) j more) (omega arith)
  run p streak k (v ∷ vs) more (g, gs) e h =
      rw (corrects p v streak g (omega arith)) (
        ap (λ (ws, n). (neg_ℤ v ∷ ws, n)) (run (neg_ℤ v) (streak + 1) k vs more gs (omega arith) h))

  pub guard_corrects :
      (p v : ℤ) (vs : List ℤ)
      → AllGlitches cfg p vs
      → length vs < cfg.relatch_frames
      → is_flip cfg true v (some (last_of p vs)) ≡ false
      → guard_all cfg (some p) 0 (vs ++ v ∷ []) ≡ (map neg_ℤ vs ++ v ∷ [], 0)
  unfolding sign_guard
  guard_corrects p v vs g h final =
      run p 0 (length vs) vs (v ∷ []) g (omega arith) h
      ∙ ap (λ (ws, n). (map neg_ℤ vs ++ ws, n)) (rw final refl)

  pub guard_relatches :
      (p v : ℤ) (vs : List ℤ)
      → AllGlitches cfg p vs
      → length vs + 1 ≡ cfg.relatch_frames
      → IsGlitch cfg (last_of p vs) v
      → guard_all cfg (some p) 0 (vs ++ v ∷ []) ≡ (map neg_ℤ vs ++ v ∷ [], 0)
  guard_relatches p v vs g h final =
      run p 0 (length vs) vs (v ∷ []) g (omega arith) (omega arith)
      ∙ ap (λ (ws, n). (map neg_ℤ vs ++ ws, n))
          (rw (relatches (last_of p vs) v (length vs) final (omega arith)) refl)

  -- Whatever reading comes, the streak stays below `relatch_frames`, and only the sign of the
  -- reading may change.
  pub sign_guard-bounded :
      (fresh : Bool) (v : ℤ) (o : Option ℤ) (streak : ℕ)
      → 0 < cfg.relatch_frames
      → let (w, n, corrected) = sign_guard cfg fresh v o streak in
        (n < cfg.relatch_frames) × (abs_ℤ w ≡ abs_ℤ v)
  unfolding sign_guard
  sign_guard-bounded fresh v o streak h = ground arith
