-- ===== src/Protocol/ErrorPaths.antt =====
-- What `parse_response` of src/services/io_board/protocol.py may raise.
use crk_io_board.Base.{
  ◌≡◌, length, refl, sym, ◌⊎◌, inl, true, ℕ, zero, suc, List, [], ◌∷◌, arith, Bytes, Text, Option,
  some, none,
}
use mathlib.Core.Path.{subst}
use crk_io_board.Errors.{
  Result, ok, raise_code, protocol_error, protocol_checksum_mismatch, protocol_malformed_data,
  protocol_parse_failed,
}
use crk_io_board.Protocol.{parse_response, parsed, classify}
use crk_io_board.Protocol.Format.{
  Ctx, empty, is_construct_error, Outcome, done, fail, bind, Item, padded_string, enum, array,
  Field, const, item, switch, tell, checksum, Default, pass, error, read, decode_padded, read_array,
  read_item, read_items, case_of, chosen,
}
use crk_io_board.Protocol.Library.{Construct, Stream, parse_field, parse_fields, parse-eq}
use crk_io_board.Protocol.Schema.{response_protocol}

-- Only the library's own errors.
abbrev IsLibrary {ℓ} : {A : Type ℓ} → Outcome A → Type 0
IsLibrary (done a) = Unit
IsLibrary (fail e) = is_construct_error e ≡ true

bind-IsLibrary {ℓ κ} :
    {A : Type ℓ} {B : Type κ} (m : Outcome A) (f : A → Outcome B)
    → IsLibrary m
    → ((a : A) → IsLibrary (f a))
    → IsLibrary (bind m f)
bind-IsLibrary (done a) f h k = k a
bind-IsLibrary (fail e) f h k = h

read-IsLibrary : (n : ℕ) (s : Bytes) → IsLibrary (read n s)
read-IsLibrary zero s = tt
read-IsLibrary (suc n) [] = refl
read-IsLibrary (suc n) (b ∷ s) = bind-IsLibrary (read n s) _ (read-IsLibrary n s) (λ x. tt)

decode-IsLibrary : (b : Bytes) → IsLibrary (decode_padded b)
decode-IsLibrary b = ground arith

read_array-IsLibrary : (count n : ℕ) (s : Bytes) → IsLibrary (read_array count n s)
read_array-IsLibrary zero n s = tt
read_array-IsLibrary (suc count) n s = bind-IsLibrary (read n s) _ (read-IsLibrary n s) λ (b, rest).
    bind-IsLibrary (decode_padded b) _ (decode-IsLibrary b)
      λ t. bind-IsLibrary (read_array count n rest) _ (read_array-IsLibrary count n rest) λ x. tt

read_item-IsLibrary : (i : Item) (s : Bytes) → IsLibrary (read_item i s)
read_item-IsLibrary (padded_string m n) s =
    bind-IsLibrary (read n s) _ (read-IsLibrary n s)
      λ (b, rest). bind-IsLibrary (decode_padded b) _ (decode-IsLibrary b) λ t. tt
read_item-IsLibrary (enum m table) [] = refl
read_item-IsLibrary (enum m table) (b ∷ s) = tt
read_item-IsLibrary (array m count n) s =
    bind-IsLibrary (read_array count n s) _ (read_array-IsLibrary count n s) λ x. tt

read_items-IsLibrary : (is : List Item) (s : Bytes) → IsLibrary (read_items is s)
read_items-IsLibrary [] s = tt
read_items-IsLibrary (i ∷ is) s =
    bind-IsLibrary (read_item i s) _ (read_item-IsLibrary i s)
      λ (v, rest). bind-IsLibrary (read_items is rest) _ (read_items-IsLibrary is rest) λ x. tt

chosen-IsLibrary : (o : Option (List Item)) (d : Default) → IsLibrary (chosen o d)
chosen-IsLibrary (some is) d = tt
chosen-IsLibrary none pass = tt
chosen-IsLibrary none error = refl

parse_field-IsLibrary : (f : Field) (s : Stream) (c : Ctx) → IsLibrary (parse_field f s c)
parse_field-IsLibrary (const b) s c = ground (arith, read-IsLibrary (length b) s.rest)
parse_field-IsLibrary (item i) s c =
    bind-IsLibrary (read_item i s.rest) _ (read_item-IsLibrary i s.rest) λ x. tt
parse_field-IsLibrary (switch key cases d) s c =
    bind-IsLibrary (chosen (case_of (key c.fields) cases) d) _
      (chosen-IsLibrary (case_of (key c.fields) cases) d)
      λ is. bind-IsLibrary (read_items is s.rest) _ (read_items-IsLibrary is s.rest) λ x. tt
parse_field-IsLibrary tell s c = tt
parse_field-IsLibrary (checksum hash region) s c = ground (arith, read-IsLibrary 1 s.rest)

parse_fields-IsLibrary : (fs : List Field) (s : Stream) (c : Ctx) → IsLibrary (parse_fields fs s c)
unfolding parse_fields
parse_fields-IsLibrary [] s c = tt
parse_fields-IsLibrary (f ∷ fs) s c =
    bind-IsLibrary (parse_field f s c) _ (parse_field-IsLibrary f s c)
      λ (s', c'). parse_fields-IsLibrary fs s' c'

-- A value, or a `ProtocolError` with one of the three codes.
abbrev pub IsProtocolResult : Result Ctx → Type 0
IsProtocolResult r =
    ((c : Ctx) × (r ≡ ok c))
    ⊎ (r ≡ raise_code protocol_error protocol_checksum_mismatch)
    ⊎ (r ≡ raise_code protocol_error protocol_malformed_data)
    ⊎ (r ≡ raise_code protocol_error protocol_parse_failed)

classify-IsProtocolResult : (L : Construct) (msg : Text) → IsProtocolResult (classify L msg)
unfolding classify
classify-IsProtocolResult L msg = ground arith

parsed-IsProtocolResult :
    (L : Construct) (o : Outcome Ctx) → IsLibrary o → IsProtocolResult (parsed L o)
unfolding parsed
parsed-IsProtocolResult L (done c) h = inl (c, refl)
parsed-IsProtocolResult L (fail e) h = ground (arith, classify-IsProtocolResult L)

-- Whatever bytes arrive, `parse_response` returns a context or raises a `ProtocolError` whose code
-- is a checksum mismatch, malformed data or a parse failure.
pub parse_response-IsProtocolResult :
    (L : Construct) (message : Bytes) → IsProtocolResult (parse_response L message)
unfolding parse_response
parse_response-IsProtocolResult L message = parsed-IsProtocolResult L _ (
    subst IsLibrary (sym (parse-eq L response_protocol _ empty))
      (parse_fields-IsLibrary response_protocol _ empty))
