-- ===== src/Stream/PythonFloat.antt =====
-- `float` of Python on an ASCII text, as src/api/v1/routers/sse.py calls it on thresholds: spaces
-- around the number, underscores between digits, an exponent, `inf`, `infinity` and `nan`.
use crk_io_board.Base.{
  ℕ, suc, ◌+◌, ◌-◌, ◌*◌, ◌^◌, Bool, true, false, ◌&&◌, ◌||◌, Option, none, some, [], ◌∷◌, Text,
  codes, same_text, leb, ◌==◌, if◌then◌else◌,
}
use crk_io_board.Readings.{is_digit, drop_spaces, drop_trailing}
use crk_io_board.Numbers.{ℚ, ratio, neg_ℚ, leb_ℚ}
use crk_io_board.Numbers.Binary64.{binary64}

pub data Float : Type 0 where
  finite : ℚ → Float
  infinite : Bool → Float  -- whether it is negative
  nan : Float

-- The number, rounded to a float; what reaches 2 ^ 1024 is infinite.
abbrev bounded : Bool → ℚ → Float
bounded minus a =
    if leb_ℚ (ratio (2 ^ 1024) 1) a then infinite minus else finite (if minus then neg_ℚ a else a)

-- digits * 10 ^ up / 10 ^ down
abbrev scaled : Bool → ℕ → ℕ → ℕ → Float
scaled minus digits up down = bounded minus (binary64 (ratio (digits * 10 ^ up) (10 ^ down)))

-- The digits of an exponent.
abbrev exponent : ℕ → Bool → Text → Option ℕ
exponent acc seen [] = if seen then some acc else none
exponent acc seen (c ∷ s) = if is_digit c then exponent (acc * 10 + (c - b'0')) true s else none

abbrev raised : Bool → ℕ → ℕ → Option ℕ → Option Float
raised minus digits places none = none
raised minus digits places (some up) = some (scaled minus digits up places)

abbrev lowered : Bool → ℕ → ℕ → Option ℕ → Option Float
lowered minus digits places none = none
lowered minus digits places (some down) = some (scaled minus digits 0 (places + down))

abbrev signed_exponent : Bool → ℕ → ℕ → Text → Option Float
signed_exponent minus digits places [] = none
signed_exponent minus digits places (c ∷ s) =
    if c == b'+'
    then raised minus digits places (exponent 0 false s)
    else if c == b'-'
    then lowered minus digits places (exponent 0 false s)
    else raised minus digits places (exponent 0 false (c ∷ s))

-- What may stand behind the digits: nothing, or an exponent.
abbrev ended : Bool → ℕ → ℕ → Bool → Option Float
ended minus digits places seen = if seen then some (scaled minus digits 0 places) else none

abbrev behind_digits : Bool → ℕ → ℕ → Bool → ℕ → Text → Option Float
behind_digits minus digits places seen c s =
    if seen && (c == b'e' || c == b'E') then signed_exponent minus digits places s else none

abbrev behind_point : Bool → ℕ → ℕ → Bool → Text → Option Float
behind_point minus digits places seen [] = ended minus digits places seen
behind_point minus digits places seen (c ∷ s) =
    if is_digit c
    then behind_point minus (digits * 10 + (c - b'0')) (suc places) true s
    else behind_digits minus digits places seen c s

abbrev before_point : Bool → ℕ → Bool → Text → Option Float
before_point minus digits seen [] = ended minus digits 0 seen
before_point minus digits seen (c ∷ s) =
    if is_digit c
    then before_point minus (digits * 10 + (c - b'0')) true s
    else if c == b'.'
    then behind_point minus digits 0 seen s
    else behind_digits minus digits 0 seen c s

abbrev small_letters : Text → Text
small_letters [] = []
small_letters (c ∷ s) = (if leb b'A' c && leb c b'Z' then c + 32 else c) ∷ small_letters s

abbrev unsigned : Bool → Text → Option Float
unsigned minus s =
    let name = small_letters s in
    if same_text name (codes "inf") || same_text name (codes "infinity")
    then some (infinite minus)
    else if same_text name (codes "nan")
    then some nan
    else before_point minus 0 false s

abbrev signed : Text → Option Float
signed [] = none
signed (c ∷ s) =
    if c == b'+'
    then unsigned false s
    else if c == b'-'
    then unsigned true s
    else unsigned false (c ∷ s)

-- An underscore is left out between two digits, and an error elsewhere.
abbrev starts_with_digit : Text → Bool
starts_with_digit [] = false
starts_with_digit (c ∷ s) = is_digit c

abbrev prepend : ℕ → Option Text → Option Text
prepend c none = none
prepend c (some s) = some (c ∷ s)

abbrev without_underscores : Bool → Text → Option Text
without_underscores after_digit [] = some []
without_underscores after_digit (c ∷ s) =
    let rest = without_underscores (is_digit c) s in
    if c == b'_'
    then (if after_digit && starts_with_digit s then rest else none)
    else prepend c rest

abbrev read_signed : Option Text → Option Float
read_signed none = none
read_signed (some s) = signed s

-- float(text); none stands for the `ValueError`.
unfoldable pub python_float : Text → Option Float
unfolding binary64
python_float s = read_signed (without_underscores false (drop_trailing (drop_spaces s)))
