-- ===== src/Readings.antt =====
-- Loadcell readings: the texts of the board, and the numbers that src/services/io_board/sanitizer.py,
-- src/io_board/filters.py and src/io_board/events.py take them for. A number is an integer count of
-- 1/100000 g, which holds every decimal of a field of six characters.
use crk_io_board.Base.{
  ℕ, ◌+◌, ◌-◌, ◌*◌, ◌/◌, ◌%◌, ◌<◌, ◌≡◌, refl, Bool, true, false, ◌&&◌, ◌||◌, Option, none, some, [],
  ◌∷◌, arith, Text, codes, same_text, leb, ◌==◌, if◌then◌else◌, ap, ◌∙◌,
}
use crk_io_board.Base.Int.{ℤ, pos, neg_ℤ}

abbrev pub gram : ℕ
gram = 100000

-- ERROR_VALUES
unfoldable pub is_error_value : Text → Bool
is_error_value raw = same_text raw (codes "EEEEEE") || same_text raw (codes "VVVVVV")

abbrev pub is_digit : ℕ → Bool
is_digit c = leb b'0' c && leb c b'9'

abbrev is_space : ℕ → Bool
is_space c = c == 32 || (leb 9 c && leb c 13) || (leb 28 c && leb c 31)

abbrev pub drop_spaces : Text → Text
drop_spaces [] = []
drop_spaces (c ∷ s) = if is_space c then drop_spaces s else c ∷ s

abbrev keep_unless_space : ℕ → Text → Text
keep_unless_space c [] = if is_space c then [] else c ∷ []
keep_unless_space c (d ∷ s) = c ∷ d ∷ s

abbrev pub drop_trailing : Text → Text
drop_trailing [] = []
drop_trailing (c ∷ s) = keep_unless_space c (drop_trailing s)

-- The digits behind the point, each with its place.
abbrev fraction : ℕ → ℕ → Bool → Text → Option ℕ
fraction acc place seen [] = if seen then some acc else none
fraction acc place seen (c ∷ s) =
    if is_digit c then fraction (acc + (c - b'0') * place) (place / 10) true s else none

abbrev decimal : ℕ → Bool → Text → Option ℕ
decimal acc seen [] = if seen then some (acc * gram) else none
decimal acc seen (c ∷ s) =
    if is_digit c
    then decimal (acc * 10 + (c - b'0')) true s
    else if c == b'.'
    then fraction (acc * gram) (gram / 10) seen s
    else none

abbrev signed : Bool → Option ℕ → Option ℤ
signed minus none = none
signed minus (some n) = some (if minus then neg_ℤ (pos n) else pos n)

abbrev with_sign : Text → Option ℤ
with_sign [] = none
with_sign (c ∷ s) =
    if c == b'+'
    then signed false (decimal 0 false s)
    else if c == b'-'
    then signed true (decimal 0 false s)
    else signed false (decimal 0 false (c ∷ s))

-- `float(raw)` on plain decimals; none stands for the `ValueError`.
unfoldable pub float : Text → Option ℤ
float raw = with_sign (drop_trailing (drop_spaces raw))

-- _parse of the sanitizer, and _parse_value of the filters and the detector
unfoldable pub parse_value : Text → Option ℤ
unfolding is_error_value float
parse_value raw = if is_error_value raw then none else float raw

-- `f"{n:05d}"` of a number below 100000
abbrev pub digits_5 : ℕ → Text
digits_5 n =
    (b'0' + n / 10000 % 10)
    ∷ (b'0' + n / 1000 % 10)
    ∷ (b'0' + n / 100 % 10)
    ∷ (b'0' + n / 10 % 10)
    ∷ (b'0' + n % 10)
    ∷ []

-- `f"{abs_val:05.1f}"` of t tenths, below 10000
abbrev pub digits_3_1 : ℕ → Text
digits_3_1 t =
    (b'0' + t / 1000 % 10)
    ∷ (b'0' + t / 100 % 10)
    ∷ (b'0' + t / 10 % 10)
    ∷ b'.'
    ∷ (b'0' + t % 10)
    ∷ []

pub digit_is : (d : ℕ) → d < 10 → is_digit (b'0' + d) ≡ true
digit_is d h = ground arith

digit_no_space : (d : ℕ) → d < 10 → is_space (b'0' + d) ≡ false
digit_no_space d h = ground arith

abbrev of_digits : ℕ → ℕ → ℕ → ℕ → ℕ → ℕ
of_digits a b c d e =
    ((((0 * 10 + (b'0' + a - b'0')) * 10 + (b'0' + b - b'0')) * 10 + (b'0' + c - b'0')) * 10
        + (b'0' + d - b'0'))
      * 10
    + (b'0' + e - b'0')

read_digits :
    (a b c d e : ℕ)
    → a < 10
    → b < 10
    → c < 10
    → d < 10
    → e < 10
    → decimal 0 false ((b'0' + a) ∷ (b'0' + b) ∷ (b'0' + c) ∷ (b'0' + d) ∷ (b'0' + e) ∷ [])
      ≡ some (of_digits a b c d e * gram)
read_digits a b c d e ha hb hc hd he =
    rw (digit_is a ha, digit_is b hb, digit_is c hc, digit_is d hd, digit_is e he) refl

of_digits_eq :
    (n : ℕ)
    → n < 100000
    → of_digits (n / 10000 % 10) (n / 1000 % 10) (n / 100 % 10) (n / 10 % 10) (n % 10) ≡ n
of_digits_eq n h = omega arith

pub decimal-digits_5 : (n : ℕ) → n < 100000 → decimal 0 false (digits_5 n) ≡ some (n * gram)
decimal-digits_5 n h =
    read_digits (n / 10000 % 10) (n / 1000 % 10) (n / 100 % 10) (n / 10 % 10) (n % 10) (omega arith)
      (omega arith) (omega arith) (omega arith) (omega arith)
    ∙ ap (λ k. some (k * gram)) (of_digits_eq n h)

-- A text of a sign and five digits is the number it shows.
pub parse-plus : (n : ℕ) → n < 100000 → parse_value (b'+' ∷ digits_5 n) ≡ some (pos (n * gram))
unfolding parse_value is_error_value float
parse-plus n h = rw (digit_no_space (n % 10) (omega arith), decimal-digits_5 n h) refl

pub parse-minus :
    (n : ℕ) → n < 100000 → parse_value (b'-' ∷ digits_5 n) ≡ some (neg_ℤ (pos (n * gram)))
unfolding parse_value is_error_value float
parse-minus n h = rw (digit_no_space (n % 10) (omega arith), decimal-digits_5 n h) refl

decimal-digits_3_1 : (t : ℕ) → t < 10000 → decimal 0 false (digits_3_1 t) ≡ some (t * (gram / 10))
decimal-digits_3_1 t h =
    rw
      (
        digit_is (t / 1000 % 10) (omega arith),
        digit_is (t / 100 % 10) (omega arith),
        digit_is (t / 10 % 10) (omega arith),
        digit_is (t % 10) (omega arith),
      )
      (ap some (omega arith))

-- So is one of a sign, three digits, the point and a digit.
pub parse-plus_tenths :
    (t : ℕ) → t < 10000 → parse_value (b'+' ∷ digits_3_1 t) ≡ some (pos (t * (gram / 10)))
unfolding parse_value is_error_value float
parse-plus_tenths t h = rw (digit_no_space (t % 10) (omega arith), decimal-digits_3_1 t h) refl

pub parse-minus_tenths :
    (t : ℕ) → t < 10000 → parse_value (b'-' ∷ digits_3_1 t) ≡ some (neg_ℤ (pos (t * (gram / 10))))
unfolding parse_value is_error_value float
parse-minus_tenths t h = rw (digit_no_space (t % 10) (omega arith), decimal-digits_3_1 t h) refl
