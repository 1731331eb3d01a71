-- ===== src/Protocol/Library.antt =====
-- The library as an interface: its entry points and one documented law for each kind of field.
-- A library that has the laws agrees with `parse_fields` and `build_fields`, so a proof may run those.
use crk_io_board.Base.{
  ℕ, ◌-◌, ◌≡◌, refl, ◌∙◌, List, [], ◌∷◌, ◌++◌, Bytes, Text, same_text, ltb, length, if◌then◌else◌,
}
use crk_io_board.Protocol.Format.{
  Value, Ctx, const_error, format_field_error, checksum_error, Failure, Outcome, done, fail, bind,
  Item, Field, const, item, switch, tell, checksum, read, read_item, read_items, item_name,
  write_item, write_items, lookup, case_of, chosen,
}

-- A stream that is being parsed: all of it, and what has not been read.
pub record Stream : Type 0 where
  pub all : Bytes
  pub rest : Bytes

abbrev pub position : Stream → ℕ
position s = length s.all - length s.rest

abbrev pub with_field : Item → Value → Ctx → Ctx
with_field i v c = record c { fields = c.fields ++ (item_name i, v) ∷ [] }

-- What a field does with the stream, before the fields behind it.
abbrev pub parse_field : Field → Stream → Ctx → Outcome (Stream × Ctx)
parse_field (const b) s c =
    bind (read (length b) s.rest)
      λ (x, rest'). if same_text x b then done (record s { rest = rest' }, c) else fail const_error
parse_field (item i) s c =
    bind (read_item i s.rest) λ (v, rest'). done (record s { rest = rest' }, with_field i v c)
parse_field (switch key cases d) s c = bind (chosen (case_of (key c.fields) cases) d) λ is.
    bind (read_items is s.rest)
      λ (fs, rest'). done (record s { rest = rest' }, record c { payload = fs })
parse_field tell s c = done (s, record c { length_mark = position s })
parse_field (checksum hash region) s c = bind (read 1 s.rest) λ (x, rest').
    if same_text x (hash (region s.all c.length_mark) ∷ [])
    then done (record s { rest = rest' }, c)
    else fail checksum_error

abbrev pub build_field : Field → Ctx → Bytes → Outcome (Ctx × Bytes)
build_field (const b) c out = done (c, out ++ b)
build_field (item i) c out =
    bind (write_item i (lookup (item_name i) c.fields)) λ b. done (c, out ++ b)
build_field (switch key cases d) c out =
    bind (chosen (case_of (key c.fields) cases) d)
      λ is. bind (write_items is c.payload) λ b. done (c, out ++ b)
build_field tell c out = done (record c { length_mark = length out }, out)
build_field (checksum hash region) c out =
    let h = hash (region out c.length_mark) in
    if ltb h 256 then done (c, out ++ h ∷ []) else fail format_field_error

-- `Struct(…).parse` and `Struct(…).build`: the fields in order.
unfoldable pub parse_fields : List Field → Stream → Ctx → Outcome Ctx
parse_fields [] s c = done c
parse_fields (f ∷ fs) s c = bind (parse_field f s c) λ (s', c'). parse_fields fs s' c'

unfoldable pub build_fields : List Field → Ctx → Bytes → Outcome Bytes
build_fields [] c out = done out
build_fields (f ∷ fs) c out = bind (build_field f c out) λ (c', out'). build_fields fs c' out'

-- The library: `parse fields stream context` and `build fields context output`, with what it
-- documents of `Struct` and of each of its fields.
pub record Construct : Type 0 where
  pub parse : List Field → Stream → Ctx → Outcome Ctx
  pub build : List Field → Ctx → Bytes → Outcome Bytes
  pub parse-nil : (s : Stream) (c : Ctx) → parse [] s c ≡ done c
  pub parse-cons :
      (f : Field) (fs : List Field) (s : Stream) (c : Ctx)
      → parse (f ∷ fs) s c ≡ bind (parse_field f s c) (λ (s', c'). parse fs s' c')
  pub build-nil : (c : Ctx) (out : Bytes) → build [] c out ≡ done out
  pub build-cons :
      (f : Field) (fs : List Field) (c : Ctx) (out : Bytes)
      → build (f ∷ fs) c out ≡ bind (build_field f c out) (λ (c', out'). build fs c' out')
  -- `str(e)`, of which the program reads parts
  pub message : Failure → Text

module _ (L : Construct) where
  parse_tail :
      (fs : List Field) (o : Outcome (Stream × Ctx))
      → ((s : Stream) (c : Ctx) → L.parse fs s c ≡ parse_fields fs s c)
      → bind o (λ (s', c'). L.parse fs s' c') ≡ bind o (λ (s', c'). parse_fields fs s' c')
  parse_tail fs (done (s, c)) h = h s c
  parse_tail fs (fail e) h = refl

  pub parse-eq : (fs : List Field) (s : Stream) (c : Ctx) → L.parse fs s c ≡ parse_fields fs s c
  unfolding parse_fields
  parse-eq [] s c = L.parse-nil s c
  parse-eq (f ∷ fs) s c = L.parse-cons f fs s c ∙ parse_tail fs (parse_field f s c) (parse-eq fs)

  build_tail :
      (fs : List Field) (o : Outcome (Ctx × Bytes))
      → ((c : Ctx) (out : Bytes) → L.build fs c out ≡ build_fields fs c out)
      → bind o (λ (c', out'). L.build fs c' out') ≡ bind o (λ (c', out'). build_fields fs c' out')
  build_tail fs (done (c, out)) h = h c out
  build_tail fs (fail e) h = refl

  pub build-eq :
      (fs : List Field) (c : Ctx) (out : Bytes) → L.build fs c out ≡ build_fields fs c out
  unfolding build_fields
  build-eq [] c out = L.build-nil c out
  build-eq (f ∷ fs) c out =
      L.build-cons f fs c out ∙ build_tail fs (build_field f c out) (build-eq fs)
