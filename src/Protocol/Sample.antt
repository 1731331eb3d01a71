-- ===== src/Protocol/Sample.antt =====
-- A library with the laws of the interface that src/services/io_board/protocol.py uses.
use crk_io_board.Base.{◌≡◌, refl, List, [], ◌∷◌, Bytes, Text, codes}
use crk_io_board.Protocol.Format.{Failure, checksum_error, const_error, Ctx, done, bind, Field}
use crk_io_board.Protocol.Library.{
  Construct, Stream, parse_fields, build_fields, parse_field, build_field,
}

-- The texts of the library's errors, as far as they are read.
abbrev pub texts_of : Failure → Text
texts_of checksum_error = codes "wrong checksum, read 16, computed 17"
texts_of const_error = codes "parsing expected 2 but parsed 3"
texts_of _ = []

pub fields_nil : (s : Stream) (c : Ctx) → parse_fields [] s c ≡ done c
unfolding parse_fields
fields_nil s c = refl

pub fields_cons :
    (f : Field) (fs : List Field) (s : Stream) (c : Ctx)
    → parse_fields (f ∷ fs) s c ≡ bind (parse_field f s c) (λ (s', c'). parse_fields fs s' c')
unfolding parse_fields
fields_cons f fs s c = refl

pub output_nil : (c : Ctx) (out : Bytes) → build_fields [] c out ≡ done out
unfolding build_fields
output_nil c out = refl

pub output_cons :
    (f : Field) (fs : List Field) (c : Ctx) (out : Bytes)
    → build_fields (f ∷ fs) c out
      ≡ bind (build_field f c out) (λ (c', out'). build_fields fs c' out')
unfolding build_fields
output_cons f fs c out = refl

abbrev pub library : Construct
library = record {
  parse = parse_fields;
  build = build_fields;
  parse-nil = fields_nil;
  parse-cons = fields_cons;
  build-nil = output_nil;
  build-cons = output_cons;
  message = texts_of;
}
