-- ===== src/Protocol/Building.antt =====
-- What `build_request` of src/services/io_board/protocol.py puts on the wire.
use crk_io_board.Base.{
  ℕ, zero, suc, ◌-◌, ◌≤◌, ◌≡◌, refl, ◌∙◌, ap, true, false, List, [], ◌∷◌, ◌++◌, arith, Bytes, Text,
  length, take, replicate, ltb, lt→ltb, Option, none, some,
}
use mathlib.Core.List.{append-nil}
use crk_io_board.Errors.{ok}
use crk_io_board.Protocol.{build_request, built}
use crk_io_board.Protocol.Checksum.{
  calculate_checksum, AreBytes, AreBytes-append, IsByte, calculate_checksum-IsByte,
}
use crk_io_board.Protocol.Format.{
  text, Fields, command, subcommand, Ctx, done, is_ascii, encode_padded, write_items, case_of, Item,
}
use crk_io_board.Protocol.Library.{Construct, build-eq, build_fields}
use crk_io_board.Protocol.Schema.{checked_region, request_protocol, request_cases}
use crk_io_board.Protocol.Lrc.{calculate_checksum-lrc_of}
use crk_io_board.Protocol.Frames.{
  frame, frame_with, Request, initialize, calibrate, clear_errors, reboot, move_deadbolt,
  write_product_id, get_manufacturing, get_weights, get_io_status, get_errors, request_command,
  request_subcommand, request_data, request_fields, request_frame, IsRequest,
}

take_all : (xs : Bytes) (n : ℕ) → length xs ≡ n → take n xs ≡ xs
take_all [] zero h = refl
take_all [] (suc n) h = refl
take_all (x ∷ xs) zero h = absurd (omega arith)
take_all (x ∷ xs) (suc n) h = ap (λ l. x ∷ l) (take_all xs n (omega arith))

written_region : (region : Bytes) → checked_region (0x02 ∷ region) (length (0x02 ∷ region)) ≡ region
written_region region = take_all region (length (0x02 ∷ region) - 1) (omega arith)

build_checked :
    (a b c e : ℕ) (is : List Item) (fs : Fields) (d : Bytes)
    → let cmd = a ∷ b ∷ [] in
      let sub = c ∷ e ∷ [] in
      IsByte a × IsByte b × IsByte c × IsByte e
      → encode_padded 2 cmd ≡ done cmd
      → encode_padded 2 sub ≡ done sub
      → case_of (cmd ++ sub) request_cases ≡ some is
      → write_items is fs ≡ done d
      → AreBytes d
      → build_fields request_protocol
          (record {
            fields = (command, text cmd) ∷ (subcommand, text sub) ∷ [];
            payload = fs;
            length_mark = 0;
          })
          []
        ≡ done (frame_with (cmd ++ sub) d (calculate_checksum ((cmd ++ sub) ++ d ++ 0x03 ∷ [])))
unfolding build_fields
build_checked a b c e is fs d key hc hs found wrote bytes =
    let region = a ∷ b ∷ c ∷ e ∷ d ++ 0x03 ∷ [] in
    let small : ltb (calculate_checksum region) 256 ≡ true = lt→ltb _ _ (
      calculate_checksum-IsByte region (
        AreBytes-append (a ∷ b ∷ c ∷ e ∷ d) (0x03 ∷ []) (key.0, (key.1, (key.2, (key.3, bytes))))
          (omega arith))) in
    rw (hc, hs, found, wrote) (ground (arith, written_region region, small))

build_data :
    (a b c e : ℕ) (is : List Item) (fs : Fields) (d : Bytes)
    → let cmd = a ∷ b ∷ [] in
      let sub = c ∷ e ∷ [] in
      IsByte a × IsByte b × IsByte c × IsByte e
      → encode_padded 2 cmd ≡ done cmd
      → encode_padded 2 sub ≡ done sub
      → case_of (cmd ++ sub) request_cases ≡ some is
      → write_items is fs ≡ done d
      → AreBytes d
      → build_fields request_protocol
          (record {
            fields = (command, text cmd) ∷ (subcommand, text sub) ∷ [];
            payload = fs;
            length_mark = 0;
          })
          []
        ≡ done (frame (cmd ++ sub) d)
build_data a b c e is fs d key hc hs found wrote bytes =
    build_checked a b c e is fs d key hc hs found wrote bytes
    ∙ ap (λ k. done (frame_with (a ∷ b ∷ c ∷ e ∷ []) d k))
        (calculate_checksum-lrc_of (a ∷ b ∷ c ∷ e ∷ []) d)

AreBytes-of_ascii : (s : Text) → is_ascii s ≡ true → AreBytes s
AreBytes-of_ascii [] h = tt
AreBytes-of_ascii (c ∷ s) h = (ground arith, AreBytes-of_ascii s (ground arith))

AreBytes-replicate : (n : ℕ) → AreBytes (replicate n 0)
AreBytes-replicate zero = tt
AreBytes-replicate (suc n) = (omega arith, AreBytes-replicate n)

padded_id :
    (s : Text)
    → (is_ascii s ≡ true) × (length s ≤ 11)
    → encode_padded 11 s ≡ done (s ++ replicate (11 - length s) 0)
padded_id s h = ground arith

-- The case that the declaration has for a request's key.
abbrev or_empty : Option (List Item) → List Item
or_empty none = []
or_empty (some is) = is

abbrev request_case : Request → List Item
request_case r = or_empty (case_of (request_command r ++ request_subcommand r) request_cases)

-- The context that `build_request` hands to the library.
abbrev request_ctx : Request → Ctx
request_ctx r = record {
  fields = (command, text (request_command r)) ∷ (subcommand, text (request_subcommand r)) ∷ [];
  payload = request_fields r;
  length_mark = 0;
}

request_built :
    (r : Request)
    → IsRequest r
    → build_fields request_protocol (request_ctx r) [] ≡ done (request_frame r)
request_built initialize w =
    build_data b'M' b'C' b'P' b'D' (request_case initialize) (request_fields initialize)
      (request_data initialize) (omega arith) refl refl refl refl (omega arith)
request_built calibrate w =
    build_data b'M' b'C' b'L' b'Z' (request_case calibrate) (request_fields calibrate)
      (request_data calibrate) (omega arith) refl refl refl refl (omega arith)
request_built clear_errors w =
    build_data b'M' b'C' b'E' b'Z' (request_case clear_errors) (request_fields clear_errors)
      (request_data clear_errors) (omega arith) refl refl refl refl (omega arith)
request_built reboot w =
    build_data b'M' b'C' b'R' b'T' (request_case reboot) (request_fields reboot)
      (request_data reboot) (omega arith) refl refl refl refl (omega arith)
request_built (move_deadbolt true) w =
    build_data b'M' b'C' b'D' b'C' (request_case (move_deadbolt true))
      (request_fields (move_deadbolt true)) (request_data (move_deadbolt true)) (omega arith) refl
      refl refl refl (omega arith)
request_built (move_deadbolt false) w =
    build_data b'M' b'C' b'D' b'C' (request_case (move_deadbolt false))
      (request_fields (move_deadbolt false)) (request_data (move_deadbolt false)) (omega arith) refl
      refl refl refl (omega arith)
request_built (write_product_id s) w =
    build_data b'M' b'C' b'W' b'P' (request_case (write_product_id s))
      (request_fields (write_product_id s)) (request_data (write_product_id s)) (omega arith) refl
      refl refl (ground (arith, padded_id s w, append-nil (s ++ replicate (11 - length s) 0)))
      (AreBytes-append s _ (AreBytes-of_ascii s w.0) (AreBytes-replicate _))
request_built get_manufacturing w =
    build_data b'R' b'Q' b'M' b'I' (request_case get_manufacturing)
      (request_fields get_manufacturing) (request_data get_manufacturing) (omega arith) refl refl
      refl refl (omega arith)
request_built get_weights w =
    build_data b'R' b'Q' b'I' b'W' (request_case get_weights) (request_fields get_weights)
      (request_data get_weights) (omega arith) refl refl refl refl (omega arith)
request_built get_io_status w =
    build_data b'R' b'Q' b'I' b'D' (request_case get_io_status) (request_fields get_io_status)
      (request_data get_io_status) (omega arith) refl refl refl refl (omega arith)
request_built get_errors w =
    build_data b'R' b'Q' b'E' b'R' (request_case get_errors) (request_fields get_errors)
      (request_data get_errors) (omega arith) refl refl refl refl (omega arith)

-- Every request the service makes is built, and is the frame of its command with the XOR of CMD to
-- ETX, ETX included, as its LRC.
pub build_request-frame :
    (L : Construct) (r : Request)
    → IsRequest r
    → build_request L (request_command r) (request_subcommand r) (request_fields r)
      ≡ ok (request_frame r)
unfolding build_request
build_request-frame L r w =
    ap (built L) (build-eq L request_protocol (request_ctx r) [] ∙ request_built r w)
