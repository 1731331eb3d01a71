-- ===== src/Sanitizer/Frame.antt =====
-- Whole frames through the sanitizer of src/services/io_board/sanitizer.py, and the texts it writes.
use crk_io_board.Base.{
  ℕ, zero, suc, ◌+◌, ◌-◌, ◌*◌, ◌/◌, ◌≤◌, ◌<◌, ◌≡◌, refl, true, false, none, some, List, [], ◌∷◌,
  arith, Text, ltb, leb, if◌then◌else◌, length, get_elem?, ap, ◌∙◌, Bool-cases, inl, inr,
}
use crk_io_board.Base.Int.{ℤ, pos, negsuc, ltb_ℤ, ◌-ℤ◌, neg_ℤ, abs_ℤ, eqb_ℤ, eq_of_parts}
use crk_io_board.Readings.{gram, digits_5, parse_value, is_error_value, parse-plus, parse-minus}
use crk_io_board.Sanitizer.{
  SanitizeModel, Channel, Sanitizer, format, sanitize_one, sanitize_parsed, sanitize_numeric,
  sanitize_channels, sanitize, pre_filter, sign_guard, quantize,
}
use crk_io_board.Sanitizer.Quantize.{IsMultiple, BinIsMultiple, quantize_error}
use crk_io_board.Sanitizer.Guard.{sign_guard-bounded}

-- A whole number of grams that fits five digits.
pub record IsWhole (v : ℤ) : Type 0 where
  pub grams : ℕ
  pub fits : grams < 100000
  pub whole : abs_ℤ v ≡ grams * gram

format-whole :
    (v : ℤ) (w : IsWhole v) → format v ≡ (if ltb_ℤ v (pos 0) then b'-' else b'+') ∷ digits_5 w.grams
unfolding format
format-whole v w =
    let e : (let n = abs_ℤ v / gram in if ltb 99999 n then 99999 else n) ≡ w.grams =
      ground (arith, w.whole, w.fits) in
    ap (λ k. (if ltb_ℤ v (pos 0) then b'-' else b'+') ∷ digits_5 k) e

positive : (n : ℕ) → ltb_ℤ (pos n) (pos 0) ≡ false
positive n = ground arith

negative : (n : ℕ) → ltb_ℤ (negsuc n) (pos 0) ≡ true
negative n = ground arith

negated : (n : ℕ) → neg_ℤ (pos (suc n)) ≡ negsuc n
negated n = ground arith

-- What the sanitizer writes for a whole number of grams is read as that number.
pub parse_value-format : (v : ℤ) → IsWhole v → parse_value (format v) ≡ some v
parse_value-format (pos n) w =
    rw (format-whole (pos n) w, positive n)
      (parse-plus w.grams w.fits ∙ ap (λ k. some (pos k)) (omega (arith, w.whole)))
parse_value-format (negsuc n) w =
    rw (format-whole (negsuc n) w, negative n)
      (parse-minus w.grams w.fits
        ∙ ap (λ k. some (neg_ℤ (pos k))) (omega (arith, w.whole))
        ∙ ap some (negated n))

length-sanitize_channels :
    (cfg : SanitizeModel) (ts : ℕ) (values : List Text) (chs : List Channel)
    → length (sanitize_channels cfg ts values chs).1 ≡ length values
unfolding sanitize_channels
length-sanitize_channels cfg ts [] chs = refl
length-sanitize_channels cfg ts (raw ∷ values) [] = refl
length-sanitize_channels cfg ts (raw ∷ values) (ch ∷ chs) =
    ap suc (length-sanitize_channels cfg ts values chs)

unparsed :
    (cfg : SanitizeModel) (ts : ℕ) (raw : Text) (ch : Channel)
    → parse_value raw ≡ none
    → sanitize_one cfg ts raw ch ≡ (ch, raw, false)
unfolding sanitize_one
unparsed cfg ts raw ch h = ap (sanitize_parsed cfg ts raw ch) h

untouched :
    (cfg : SanitizeModel) (ts : ℕ) (values : List Text) (chs : List Channel) (i : ℕ) (raw : Text)
    → get_elem? values i ≡ some raw
    → parse_value raw ≡ none
    → let (chs', out, n) = sanitize_channels cfg ts values chs in
      (get_elem? out i ≡ some raw) × (get_elem? chs' i ≡ get_elem? chs i)
unfolding sanitize_channels
untouched cfg ts [] chs i raw h e = cc
untouched cfg ts (x ∷ values) [] i raw h e = (h, refl)
untouched cfg ts (x ∷ values) (ch ∷ chs) zero raw h e =
    rw (unparsed cfg ts x ch (cc (h, e))) (h, refl)
untouched cfg ts (x ∷ values) (ch ∷ chs) (suc i) raw h e = untouched cfg ts values chs i raw h e

error_unparsed : (raw : Text) → is_error_value raw ≡ true → parse_value raw ≡ none
unfolding parse_value
error_unparsed raw h = rw h refl

-- A frame keeps its length, and an error marker in it comes out as it is and leaves the state of
-- its channel untouched.
pub sanitize_errors :
    (values : List Text) (ts : ℕ) (s : Sanitizer) (i : ℕ) (raw : Text)
    → get_elem? values i ≡ some raw
    → is_error_value raw ≡ true
    → let (s', out) = sanitize values ts s in
      (length out ≡ length values)
      × (get_elem? out i ≡ some raw)
      × (get_elem? s'.channels i ≡ get_elem? s.channels i)
unfolding sanitize
sanitize_errors values ts s i raw h e =
    let (out, state) = untouched s.config ts values s.channels i raw h (error_unparsed raw e) in
    (length-sanitize_channels s.config ts values s.channels, out, state)

output_reads :
    (raw : Text) (numeric q : ℤ)
    → parse_value raw ≡ some numeric
    → IsWhole q
    → parse_value (if eqb_ℤ q numeric then raw else format q) ≡ some q
output_reads raw numeric q h w = elim (Bool-cases (eqb_ℤ q numeric)) [
  | inl same ↦ rw same (h ∙ ap some (eq_of_parts numeric q (ground (arith, same))))
  | inr other ↦ rw other (parse_value-format q w)
]

-- What a numeric reading comes to on a channel.
pub record IsSanitized (cfg : SanitizeModel) (step : ℕ) (numeric : ℤ) (ch : Channel) (out : Text)
    : Type 0 where
  pub value : ℤ
  pub kept : ch.prev ≡ some value
  pub magnitude : abs_ℤ value ≡ abs_ℤ numeric
  pub bin : ℤ
  pub binned : ch.prev_bin ≡ some bin
  pub near : 2 * abs_ℤ (value -ℤ bin) ≤ step + 2 * cfg.quantize_hysteresis
  pub multiple : IsMultiple step bin
  pub reads : IsWhole bin → parse_value out ≡ some bin

pub sanitize_one_lem :
    (cfg : SanitizeModel) (step ts : ℕ) (raw : Text) (numeric : ℤ) (ch : Channel)
    → cfg.quantize_step ≡ pos step
    → 0 < step
    → 0 < cfg.relatch_frames
    → cfg.median_filter ≡ false
    → parse_value raw ≡ some numeric
    → BinIsMultiple step ch.prev_bin
    → let (ch', out, corrected) = sanitize_one cfg ts raw ch in IsSanitized cfg step numeric ch' out
unfolding sanitize_one sanitize_numeric pre_filter
sanitize_one_lem cfg step ts raw numeric ch set positive some_frames off parsed m =
    let fresh = leb (ts - ch.prev_ts) cfg.staleness in
    let g = sign_guard-bounded cfg fresh numeric ch.prev ch.flip_streak some_frames in
    let w = (sign_guard cfg fresh numeric ch.prev ch.flip_streak).0 in
    let (near, multiple, binned) = quantize_error cfg step set positive ch.prev_bin w m in
    rw (parsed, off)
      (record {
        value = w;
        kept = refl;
        magnitude = g.1;
        bin = (quantize cfg ch.prev_bin w).0;
        binned = binned;
        near = near;
        multiple = multiple;
        reads = output_reads raw numeric (quantize cfg ch.prev_bin w).0 parsed;
      })
