-- ===== src/Serial/Frame/Replies.antt =====
-- The frames that the protocol defines, as the serial layer checks them.
use crk_io_board.Base.{
  ℕ, ◌+◌, ◌*◌, ◌≡◌, refl, sym, ◌∙◌, ap, true, some, List, [], ◌∷◌, ◌++◌, arith, Bytes, Text,
  same_text_refl, ltb, length, length-append,
}
use crk_io_board.Protocol.Checksum.{calculate_checksum}
use crk_io_board.Protocol.Lrc.{calculate_checksum-lrc_of}
use crk_io_board.Protocol.Frames.{
  lrc_of, frame, AllFields, join, Reply, initialized, calibrated, errors_cleared, rebooting,
  deadbolt_moved, product_id_written, manufacturing, weights, io_status, error_list, reply_command,
  reply_subcommand, reply_data, reply_frame, IsReply,
}
use crk_io_board.Serial.Frame.{
  init, last, response_checksum_valid, response_codes, length_for, response_frame_lengths,
}

init-snoc : (xs : Bytes) (k : ℕ) → init (xs ++ k ∷ []) ≡ xs
init-snoc [] k = refl
init-snoc (x ∷ []) k = refl
init-snoc (x ∷ y ∷ xs) k = ap (λ l. x ∷ l) (init-snoc (y ∷ xs) k)

last-snoc : (xs : Bytes) (k : ℕ) → last (xs ++ k ∷ []) ≡ k ∷ []
last-snoc [] k = refl
last-snoc (x ∷ []) k = refl
last-snoc (x ∷ y ∷ xs) k = last-snoc (y ∷ xs) k

length-frame : (key d : Bytes) → length (frame key d) ≡ length key + length d + 3
length-frame key d =
    let region = key ++ d ++ 0x03 ∷ [] in
    omega (
      arith,
      length-append region (lrc_of key d ∷ []),
      length-append (key ++ d) (0x03 ∷ []),
      length-append key d,
    )

-- A frame of the documented layout passes the serial layer's check, whatever its key and data.
pub response_checksum_valid-frame :
    (a b c e : ℕ) (d : Bytes) → response_checksum_valid (frame (a ∷ b ∷ c ∷ e ∷ []) d) ≡ true
unfolding response_checksum_valid calculate_checksum
response_checksum_valid-frame a b c e d =
    let key = a ∷ b ∷ c ∷ e ∷ [] in
    let region = 0x02 ∷ a ∷ b ∷ c ∷ e ∷ d ++ 0x03 ∷ [] in
    let k = lrc_of key d in
    ground (
      arith,
      length-frame key d,
      init-snoc region k,
      last-snoc region k,
      last-snoc (0x02 ∷ a ∷ b ∷ c ∷ e ∷ d) 0x03,
      same_text_refl (k ∷ []),
      calculate_checksum-lrc_of key d,
    )

length-join : (n : ℕ) (ss : List Text) → AllFields n ss → length (join ss) ≡ length ss * n
length-join n [] f = omega arith
length-join n (s ∷ ss) f = grind (arith, length-append s (join ss), f.0.width, length-join n ss f.1)

reply_length :
    (r : Reply)
    → IsReply r
    → length_for (reply_command r, reply_subcommand r) response_frame_lengths
      ≡ some (length (reply_data r) + 7)
reply_length (deadbolt_moved u) w = refl
reply_length (product_id_written s) w = ground (arith, w.width)
reply_length (manufacturing p v) w = ground (arith, w.0.width, w.1.width, length-append p v)
reply_length (weights ws) w = ground (arith, w.0, length-join 6 ws w.1)
reply_length (io_status p v) w = ground (arith, w.0.width, w.1.width, length-append p v)
reply_length (error_list es) w = ground (arith, w.0, length-join 4 es w.1)
reply_length _ w = refl

codes_of_frame :
    (a b c e : ℕ) (d : Bytes)
    → ltb a 128 ≡ true
    → ltb b 128 ≡ true
    → ltb c 128 ≡ true
    → ltb e 128 ≡ true
    → response_codes (frame (a ∷ b ∷ c ∷ e ∷ []) d) ≡ some (a ∷ b ∷ [], c ∷ e ∷ [])
unfolding response_codes
codes_of_frame a b c e d ha hb hc he = ground (arith, length-frame (a ∷ b ∷ c ∷ e ∷ []) d)

-- The serial layer reads the command and the subcommand off the frame of every reply.
pub response_codes-reply :
    (r : Reply) → response_codes (reply_frame r) ≡ some (reply_command r, reply_subcommand r)
response_codes-reply initialized = codes_of_frame b'M' b'C' b'P' b'D' [] refl refl refl refl
response_codes-reply calibrated = codes_of_frame b'M' b'C' b'L' b'Z' [] refl refl refl refl
response_codes-reply errors_cleared = codes_of_frame b'M' b'C' b'E' b'Z' [] refl refl refl refl
response_codes-reply rebooting = codes_of_frame b'M' b'C' b'R' b'T' [] refl refl refl refl
response_codes-reply (deadbolt_moved u) =
    codes_of_frame b'M' b'C' b'D' b'C' (reply_data (deadbolt_moved u)) refl refl refl refl
response_codes-reply (product_id_written s) =
    codes_of_frame b'M' b'C' b'W' b'P' s refl refl refl refl
response_codes-reply (manufacturing p v) =
    codes_of_frame b'R' b'Q' b'M' b'I' (p ++ v) refl refl refl refl
response_codes-reply (weights ws) = codes_of_frame b'R' b'Q' b'I' b'W' (join ws) refl refl refl refl
response_codes-reply (io_status p v) =
    codes_of_frame b'R' b'Q' b'I' b'D' (p ++ v) refl refl refl refl
response_codes-reply (error_list es) =
    codes_of_frame b'R' b'Q' b'E' b'R' (join es) refl refl refl refl

length_of_frame : (a b c e : ℕ) (d : Bytes) → length (frame (a ∷ b ∷ c ∷ e ∷ []) d) ≡ length d + 7
length_of_frame a b c e d = omega (arith, length-frame (a ∷ b ∷ c ∷ e ∷ []) d)

length-reply_frame : (r : Reply) → length (reply_frame r) ≡ length (reply_data r) + 7
length-reply_frame initialized = refl
length-reply_frame (deadbolt_moved u) =
    length_of_frame b'M' b'C' b'D' b'C' (reply_data (deadbolt_moved u))
length-reply_frame (product_id_written s) = length_of_frame b'M' b'C' b'W' b'P' s
length-reply_frame (manufacturing p v) = length_of_frame b'R' b'Q' b'M' b'I' (p ++ v)
length-reply_frame (weights ws) = length_of_frame b'R' b'Q' b'I' b'W' (join ws)
length-reply_frame (io_status p v) = length_of_frame b'R' b'Q' b'I' b'D' (p ++ v)
length-reply_frame (error_list es) = length_of_frame b'R' b'Q' b'E' b'R' (join es)
length-reply_frame _ = refl

-- The table of frame lengths that the serial layer keeps has, for every kind of reply, the length
-- of the frames that the response declaration describes.
pub response_frame_lengths-reply :
    (r : Reply)
    → IsReply r
    → length_for (reply_command r, reply_subcommand r) response_frame_lengths
      ≡ some (length (reply_frame r))
response_frame_lengths-reply r w = reply_length r w ∙ ap some (sym (length-reply_frame r))
