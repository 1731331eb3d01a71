-- ===== src/Protocol/Format.antt =====
-- The part of the library `construct` that src/services/io_board/protocol.py uses. A declaration
-- is data, and the library is a parameter: its two entry points, and the laws that its
-- documentation states for each kind of field.
use crk_io_board.Base.{
  ℕ, zero, suc, ◌-◌, Bool, true, false, ◌&&◌, Option, none, some, List, [], ◌∷◌, ◌++◌, Bytes, Text,
  same_text, ltb, ◌==◌, length, replicate, if◌then◌else◌,
}

-- The labels of the fields.
pub data Name : Type 0 where
  command subcommand deadbolt product_id sw_version loadcells door errors : Name

abbrev position : Name → ℕ
position command = 0
position subcommand = 1
position deadbolt = 2
position product_id = 3
position sw_version = 4
position loadcells = 5
position door = 6
position errors = 7

abbrev pub same_name : Name → Name → Bool
same_name a b = position a == position b

-- A parsed value; an `Enum` byte with no member is parsed as its number.
pub data Value : Type 0 where
  text : Text → Value
  texts : List Text → Value
  number : ℕ → Value

abbrev pub Fields : Type 0
Fields = List (Name × Value)

abbrev pub lookup : Name → Fields → Option Value
lookup n [] = none
lookup n ((m, v) ∷ fs) = if same_name m n then some v else lookup n fs

-- The context of a `Struct`: the fields so far, those of `DATA`, and `_length`.
pub record Ctx : Type 0 where
  pub fields : Fields
  pub payload : Fields
  pub length_mark : ℕ

abbrev pub empty : Ctx
empty = record { fields = []; payload = []; length_mark = 0 }

pub data Failure : Type 0 where
  const_error stream_error string_error padding_error mapping_error explicit_error : Failure
  format_field_error checksum_error key_error : Failure

-- `key_error` is Python's own, and no `ConstructError`.
abbrev pub is_construct_error : Failure → Bool
is_construct_error key_error = false
is_construct_error _ = true

pub data Outcome {ℓ} (A : Type ℓ) : Type ℓ where
  done : A → Outcome A
  fail : Failure → Outcome A

abbrev pub bind {ℓ κ} : {A : Type ℓ} {B : Type κ} → Outcome A → (A → Outcome B) → Outcome B
bind (done a) f = f a
bind (fail e) f = fail e

-- A named field of fixed size: "N" / PaddedString(n, "ascii"), "N" / Enum(Byte, …) and
-- "N" / Array(count, PaddedString(n, "ascii")).
pub data Item : Type 0 where
  padded_string : Name → ℕ → Item
  enum : Name → List (Text × ℕ) → Item
  array : Name → ℕ → ℕ → Item

pub data Default : Type 0 where
  pass error : Default

-- A field of the outer `Struct`. A case of "DATA" / Switch(key, cases, default) is the list of
-- the items of its `Struct`, empty for `Pass`.
pub data Field : Type 0 where
  const : Bytes → Field
  item : Item → Field
  switch : (Fields → Text) → List (Text × List Item) → Default → Field
  tell : Field
  checksum : (Bytes → ℕ) → (Bytes → ℕ → Bytes) → Field

-- What the documentation says of one field. Reading takes bytes off the stream.
abbrev pub read : ℕ → Bytes → Outcome (Bytes × Bytes)
read zero stream = done ([], stream)
read (suc n) [] = fail stream_error
read (suc n) (b ∷ stream) = bind (read n stream) λ (x, rest). done (b ∷ x, rest)

abbrev pub is_ascii : Text → Bool
is_ascii [] = true
is_ascii (c ∷ s) = ltb c 128 && is_ascii s

abbrev cons_unless_nul : ℕ → Text → Text
cons_unless_nul c [] = if c == 0 then [] else c ∷ []
cons_unless_nul c (d ∷ s) = c ∷ d ∷ s

-- Trailing NULs are padding.
abbrev pub strip_nul : Bytes → Text
strip_nul [] = []
strip_nul (c ∷ s) = cons_unless_nul c (strip_nul s)

abbrev pub decode_padded : Bytes → Outcome Text
decode_padded b = let s = strip_nul b in if is_ascii s then done s else fail string_error

abbrev pub encode_padded : ℕ → Text → Outcome Bytes
encode_padded n s =
    if is_ascii s
    then (if ltb n (length s) then fail padding_error else done (s ++ replicate (n - length s) 0))
    else fail string_error

abbrev pub member_of : ℕ → List (Text × ℕ) → Value
member_of b [] = number b
member_of b ((s, c) ∷ table) = if c == b then text s else member_of b table

abbrev pub code_of : Text → List (Text × ℕ) → Outcome ℕ
code_of s [] = fail mapping_error
code_of s ((t, c) ∷ table) = if same_text t s then done c else code_of s table

abbrev pub read_array : ℕ → ℕ → Bytes → Outcome (List Text × Bytes)
read_array zero n stream = done ([], stream)
read_array (suc count) n stream = bind (read n stream) λ (b, rest).
    bind (decode_padded b) λ s. bind (read_array count n rest) λ (ss, rest'). done (s ∷ ss, rest')

abbrev pub item_name : Item → Name
item_name (padded_string m n) = m
item_name (enum m table) = m
item_name (array m count n) = m

abbrev pub read_item : Item → Bytes → Outcome (Value × Bytes)
read_item (padded_string m n) stream =
    bind (read n stream) λ (b, rest). bind (decode_padded b) λ s. done (text s, rest)
read_item (enum m table) [] = fail stream_error
read_item (enum m table) (b ∷ rest) = done (member_of b table, rest)
read_item (array m count n) stream =
    bind (read_array count n stream) λ (ss, rest). done (texts ss, rest)

abbrev pub read_items : List Item → Bytes → Outcome (Fields × Bytes)
read_items [] stream = done ([], stream)
read_items (i ∷ is) stream =
    bind (read_item i stream)
      λ (v, rest). bind (read_items is rest) λ (fs, rest'). done ((item_name i, v) ∷ fs, rest')

abbrev pub write_array : ℕ → ℕ → List Text → Outcome Bytes
write_array zero n [] = done []
write_array (suc count) n (s ∷ ss) =
    bind (encode_padded n s) λ b. bind (write_array count n ss) λ bs. done (b ++ bs)
write_array _ _ _ = fail format_field_error

abbrev pub write_item : Item → Option Value → Outcome Bytes
write_item i none = fail key_error
write_item (padded_string m n) (some (text s)) = encode_padded n s
write_item (padded_string m n) (some _) = fail string_error
write_item (enum m table) (some (text s)) = bind (code_of s table) λ c. done (c ∷ [])
write_item (enum m table) (some (number b)) =
    if ltb b 256 then done (b ∷ []) else fail format_field_error
write_item (enum m table) (some (texts ss)) = fail mapping_error
write_item (array m count n) (some (texts ss)) = write_array count n ss
write_item (array m count n) (some _) = fail format_field_error

abbrev pub write_items : List Item → Fields → Outcome Bytes
write_items [] fs = done []
write_items (i ∷ is) fs =
    bind (write_item i (lookup (item_name i) fs)) λ b. bind (write_items is fs) λ bs. done (b ++ bs)

abbrev pub case_of : Text → List (Text × List Item) → Option (List Item)
case_of k [] = none
case_of k ((j, is) ∷ cases) = if same_text j k then some is else case_of k cases

abbrev pub chosen : Option (List Item) → Default → Outcome (List Item)
chosen (some is) d = done is
chosen none pass = done []
chosen none error = fail explicit_error
