-- ===== src/Protocol/RoundTrip.antt =====
-- `parse_response` of src/services/io_board/protocol.py on the frames of the board, for every kind of reply.
use crk_io_board.Base.{
  ℕ, zero, suc, ◌-◌, ◌≡◌, refl, sym, ◌∙◌, ap, ◌≢◌, ◌==◌, ==_iff, Bool-cases, inl, inr, true, false,
  Option, none, some, List, [], ◌∷◌, ◌++◌, arith, Bytes, Text, codes, length, length-append,
  take-length_append, if◌then◌else◌,
}
use mathlib.Core.List.{append_assoc}
use crk_io_board.Errors.{ok, raise_code, protocol_error, protocol_checksum_mismatch}
use crk_io_board.Protocol.{parse_response, parsed, contains, lower}
use crk_io_board.Protocol.Format.{
  text, Fields, command, subcommand, Ctx, empty, done, fail, checksum_error, read, decode_padded,
  read_array, read_items, Item, case_of,
}
use crk_io_board.Protocol.Library.{Construct, parse-eq, parse_fields}
use crk_io_board.Protocol.Schema.{checked_region, response_protocol, response_cases}
use crk_io_board.Protocol.Checksum.{calculate_checksum}
use crk_io_board.Protocol.Lrc.{calculate_checksum-lrc_of}
use crk_io_board.Protocol.Frames.{
  frame_with, lrc_of, reply_key, IsField, AllFields, join, Reply, initialized, calibrated,
  errors_cleared, rebooting, deadbolt_moved, product_id_written, manufacturing, weights, io_status,
  error_list, reply_command, reply_subcommand, reply_data, reply_frame, reply_fields, IsReply,
}

pub checked_region-frame :
    (region : Bytes) (k : ℕ)
    → checked_region (0x02 ∷ region ++ k ∷ []) (length (0x02 ∷ region ++ k ∷ []) - 1) ≡ region
checked_region-frame region k =
    take-length_append region (k ∷ []) _ (omega (arith, length-append region (k ∷ [])))

pub read-append : (n : ℕ) (s rest : Bytes) → length s ≡ n → read n (s ++ rest) ≡ done (s, rest)
read-append zero [] rest h = refl
read-append zero (b ∷ s) rest h = absurd (omega arith)
read-append (suc n) [] rest h = absurd (omega arith)
read-append (suc n) (b ∷ s) rest h = rw (read-append n s rest (omega arith))

decode-field : (n : ℕ) (s : Text) → IsField n s → decode_padded s ≡ done s
decode-field n s h = rw (h.unpadded, h.ascii)

read_array-join :
    (count n : ℕ) (ss : List Text) (rest : Bytes)
    → length ss ≡ count
    → AllFields n ss
    → read_array count n (join ss ++ rest) ≡ done (ss, rest)
read_array-join zero n [] rest h f = refl
read_array-join zero n (s ∷ ss) rest h f = absurd (omega arith)
read_array-join (suc count) n [] rest h f = absurd (omega arith)
read_array-join (suc count) n (s ∷ ss) rest h f = rw (
  append_assoc s (join ss) rest,
  read-append n s (join ss ++ rest) f.0.width,
  decode-field n s f.0,
  read_array-join count n ss rest (omega arith) f.1,
)

-- The context that `parse_response` returns for a frame.
abbrev pub response_ctx : Text → Text → Fields → Bytes → Ctx
response_ctx cmd sub fs all = record {
  fields = (command, text cmd) ∷ (subcommand, text sub) ∷ [];
  payload = fs;
  length_mark = length all - 1;
}

region_read :
    (body : Bytes) (k : ℕ)
    → checked_region (0x02 ∷ body ++ 0x03 ∷ k ∷ []) (length (0x02 ∷ body ++ 0x03 ∷ k ∷ []) - 1)
      ≡ body ++ 0x03 ∷ []
region_read body k =
    rw (sym (append_assoc body (0x03 ∷ []) (k ∷ []))) (checked_region-frame (body ++ 0x03 ∷ []) k)

parse_checked :
    (a b c e : ℕ) (is : List Item) (fs : Fields) (d : Bytes) (k : ℕ)
    → let cmd = a ∷ b ∷ [] in
      let sub = c ∷ e ∷ [] in
      let all = frame_with (cmd ++ sub) d k in
      decode_padded cmd ≡ done cmd
      → decode_padded sub ≡ done sub
      → case_of (cmd ++ sub) response_cases ≡ some is
      → ((rest : Bytes) → read_items is (d ++ rest) ≡ done (fs, rest))
      → parse_fields response_protocol (record { all = all; rest = all }) empty ≡ (
          if k == calculate_checksum ((cmd ++ sub) ++ d ++ 0x03 ∷ [])
          then done (response_ctx cmd sub fs all)
          else fail checksum_error)
unfolding parse_fields
parse_checked a b c e is fs d k hc hs found reads =
    rw (hc, hs, found, append_assoc d (0x03 ∷ []) (k ∷ []), reads (0x03 ∷ k ∷ []))
      (ground (arith, region_read (a ∷ b ∷ c ∷ e ∷ d) k))

-- A frame whose data the case of its key reads in full is accepted by its LRC.
parse_data :
    (a b c e : ℕ) (is : List Item) (fs : Fields) (d : Bytes) (k : ℕ)
    → let cmd = a ∷ b ∷ [] in
      let sub = c ∷ e ∷ [] in
      let all = frame_with (cmd ++ sub) d k in
      decode_padded cmd ≡ done cmd
      → decode_padded sub ≡ done sub
      → case_of (cmd ++ sub) response_cases ≡ some is
      → ((rest : Bytes) → read_items is (d ++ rest) ≡ done (fs, rest))
      → parse_fields response_protocol (record { all = all; rest = all }) empty ≡ (
          if k == lrc_of (cmd ++ sub) d
          then done (response_ctx cmd sub fs all)
          else fail checksum_error)
parse_data a b c e is fs d k hc hs found reads =
    let key = a ∷ b ∷ c ∷ e ∷ [] in
    parse_checked a b c e is fs d k hc hs found reads
    ∙ ap
        (λ n.
          if k == n
          then done (response_ctx (a ∷ b ∷ []) (c ∷ e ∷ []) fs (frame_with key d k))
          else fail checksum_error)
        (calculate_checksum-lrc_of key d)

data_read :
    (r : Reply) (is : List Item)
    → IsReply r
    → case_of (reply_command r ++ reply_subcommand r) response_cases ≡ some is
    → (rest : Bytes) → read_items is (reply_data r ++ rest) ≡ done (reply_fields r, rest)
data_read (deadbolt_moved true) is w e rest = ground arith
data_read (deadbolt_moved false) is w e rest = ground arith
data_read (product_id_written s) is w e rest =
    ground (arith, read-append 11 s rest w.width, decode-field 11 s w)
data_read (manufacturing p v) is w e rest = rw (append_assoc p v rest) (
    ground (
      arith,
      read-append 11 p (v ++ rest) w.0.width,
      decode-field 11 p w.0,
      read-append 2 v rest w.1.width,
      decode-field 2 v w.1,
    ))
data_read (weights ws) is w e rest = ground (arith, read_array-join 10 6 ws rest w.0 w.1)
data_read (io_status p v) is w e rest = rw (append_assoc p v rest) (
    ground (
      arith,
      read-append 6 p (v ++ rest) w.0.width,
      decode-field 6 p w.0,
      read-append 6 v rest w.1.width,
      decode-field 6 v w.1,
    ))
data_read (error_list es) is w e rest = ground (arith, read_array-join 4 4 es rest w.0 w.1)
data_read _ is w e rest = ground arith

abbrev pub reply_ctx : Reply → Ctx
reply_ctx r = response_ctx (reply_command r) (reply_subcommand r) (reply_fields r) (reply_frame r)

abbrev or_empty : Option (List Item) → List Item
or_empty none = []
or_empty (some is) = is

-- The case that the declaration has for a reply's key.
abbrev reply_case : Reply → List Item
reply_case r = or_empty (case_of (reply_command r ++ reply_subcommand r) response_cases)

reply_parsed :
    (r : Reply) (k : ℕ)
    → IsReply r
    → let all = frame_with (reply_key r) (reply_data r) k in
      parse_fields response_protocol (record { all = all; rest = all }) empty ≡ (
        if k == lrc_of (reply_key r) (reply_data r)
        then done (response_ctx (reply_command r) (reply_subcommand r) (reply_fields r) all)
        else fail checksum_error)
reply_parsed initialized k w =
    parse_data b'M' b'C' b'P' b'D' (reply_case initialized) (reply_fields initialized)
      (reply_data initialized) k refl refl refl
      (data_read initialized (reply_case initialized) w refl)
reply_parsed calibrated k w =
    parse_data b'M' b'C' b'L' b'Z' (reply_case calibrated) (reply_fields calibrated)
      (reply_data calibrated) k refl refl refl (data_read calibrated (reply_case calibrated) w refl)
reply_parsed errors_cleared k w =
    parse_data b'M' b'C' b'E' b'Z' (reply_case errors_cleared) (reply_fields errors_cleared)
      (reply_data errors_cleared) k refl refl refl
      (data_read errors_cleared (reply_case errors_cleared) w refl)
reply_parsed rebooting k w =
    parse_data b'M' b'C' b'R' b'T' (reply_case rebooting) (reply_fields rebooting)
      (reply_data rebooting) k refl refl refl (data_read rebooting (reply_case rebooting) w refl)
reply_parsed (deadbolt_moved u) k w =
    parse_data b'M' b'C' b'D' b'C' (reply_case (deadbolt_moved u)) (reply_fields (deadbolt_moved u))
      (reply_data (deadbolt_moved u)) k refl refl refl
      (data_read (deadbolt_moved u) (reply_case (deadbolt_moved u)) w refl)
reply_parsed (product_id_written s) k w =
    parse_data b'M' b'C' b'W' b'P' (reply_case (product_id_written s))
      (reply_fields (product_id_written s)) (reply_data (product_id_written s)) k refl refl refl
      (data_read (product_id_written s) (reply_case (product_id_written s)) w refl)
reply_parsed (manufacturing p v) k w =
    parse_data b'R' b'Q' b'M' b'I' (reply_case (manufacturing p v))
      (reply_fields (manufacturing p v)) (reply_data (manufacturing p v)) k refl refl refl
      (data_read (manufacturing p v) (reply_case (manufacturing p v)) w refl)
reply_parsed (weights ws) k w =
    parse_data b'R' b'Q' b'I' b'W' (reply_case (weights ws)) (reply_fields (weights ws))
      (reply_data (weights ws)) k refl refl refl
      (data_read (weights ws) (reply_case (weights ws)) w refl)
reply_parsed (io_status p v) k w =
    parse_data b'R' b'Q' b'I' b'D' (reply_case (io_status p v)) (reply_fields (io_status p v))
      (reply_data (io_status p v)) k refl refl refl
      (data_read (io_status p v) (reply_case (io_status p v)) w refl)
reply_parsed (error_list es) k w =
    parse_data b'R' b'Q' b'E' b'R' (reply_case (error_list es)) (reply_fields (error_list es))
      (reply_data (error_list es)) k refl refl refl
      (data_read (error_list es) (reply_case (error_list es)) w refl)

refused :
    (L : Construct)
    → contains (codes "checksum") (lower (L.message checksum_error)) ≡ true
    → parsed L (fail checksum_error) ≡ raise_code protocol_error protocol_checksum_mismatch
unfolding parsed
refused L says = rw says

reply_accepted :
    (r : Reply)
    → IsReply r
    → parse_fields response_protocol (record { all = reply_frame r; rest = reply_frame r }) empty
      ≡ done (reply_ctx r)
reply_accepted r w =
    let k = lrc_of (reply_key r) (reply_data r) in reply_parsed r k w ∙ rw ((==_iff k k).1 refl)

reply_refused :
    (r : Reply) (k : ℕ)
    → IsReply r
    → k ≢ lrc_of (reply_key r) (reply_data r)
    → let all = frame_with (reply_key r) (reply_data r) k in
      parse_fields response_protocol (record { all = all; rest = all }) empty ≡ fail checksum_error
reply_refused r k w ne = elim (Bool-cases (k == lrc_of (reply_key r) (reply_data r))) [
  | inl same ↦ absurd (ne ((==_iff k _).0 same))
  | inr other ↦ reply_parsed r k w ∙ rw other
]

-- Whatever well-formed reply the board sends, `parse_response` returns its command, its subcommand
-- and its data fields.
pub parse_response-reply :
    (L : Construct) (r : Reply) → IsReply r → parse_response L (reply_frame r) ≡ ok (reply_ctx r)
unfolding parse_response
parse_response-reply L r w =
    ap (parsed L) (parse-eq L response_protocol _ empty ∙ reply_accepted r w)

-- A reply that arrives with another LRC byte is a checksum mismatch, if the library's text for a
-- wrong checksum names it so.
pub parse_response-wrong_lrc :
    (L : Construct) (r : Reply) (k : ℕ)
    → IsReply r
    → k ≢ lrc_of (reply_key r) (reply_data r)
    → contains (codes "checksum") (lower (L.message checksum_error)) ≡ true
    → parse_response L (frame_with (reply_key r) (reply_data r) k)
      ≡ raise_code protocol_error protocol_checksum_mismatch
unfolding parse_response
parse_response-wrong_lrc L r k w ne says =
    ap (parsed L) (parse-eq L response_protocol _ empty ∙ reply_refused r k w ne) ∙ refused L says
