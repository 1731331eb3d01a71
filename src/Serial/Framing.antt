-- ===== src/Serial/Framing.antt =====
-- The reads of src/services/io_board/serial_io.py on a frame of the documented layout.
use crk_io_board.Base.{ℕ, ◌≡◌, refl, ap, false, [], ◌∷◌, ◌++◌, Bytes, Text, ◌==◌}
use crk_io_board.Protocol.Frames.{frame_with}
use crk_io_board.Serial.Exchange.{
  Stall, whole, fetch_with_timeout, read_until_etx, extend, then_read, read_one,
}

-- No byte is ETX.
abbrev pub NoEtx : Bytes → Type 0
NoEtx [] = Unit
NoEtx (b ∷ bs) = ((b == 0x03) ≡ false) × NoEtx bs

read_until_etx-body :
    (body rest : Bytes) (stall : Stall)
    → NoEtx body
    → read_until_etx (body ++ 0x03 ∷ [] ++ rest) stall ≡ whole (body ++ 0x03 ∷ []) rest
read_until_etx-body [] rest stall h = refl
read_until_etx-body (b ∷ body) rest stall (ne, h) =
    rw ne (ap (extend (b ∷ [])) (read_until_etx-body body rest stall h))

-- Whatever byte the LRC is, a frame with no ETX before its end is read as it was sent, and what
-- arrived behind it is left alone.
pub fetch_with_timeout-frame :
    (key : Text) (d : Bytes) (lrc : ℕ) (rest : Bytes) (stall : Stall)
    → NoEtx (key ++ d)
    → fetch_with_timeout (0x02 ∷ (key ++ d ++ 0x03 ∷ []) ++ lrc ∷ rest) stall
      ≡ whole (frame_with key d lrc) rest
unfolding fetch_with_timeout
fetch_with_timeout-frame key d lrc rest stall h =
    ap (λ r. then_read read_one stall (extend (0x02 ∷ []) r))
      (read_until_etx-body (key ++ d) (lrc ∷ rest) stall h)
