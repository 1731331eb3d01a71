-- ===== src/Protocol/Lrc.antt =====
-- The checksum of src/services/io_board/protocol.py is the LRC of the frames.
use Prim.Native.Nat.{bit_xor}
use crk_io_board.Base.{ℕ, ◌≡◌, refl, [], ◌∷◌, ◌++◌, Bytes, Text}
use crk_io_board.Protocol.Checksum.{reduce_xor, calculate_checksum}
use crk_io_board.Protocol.Frames.{xor_from, lrc_of}

reduce_xor-xor_from : (acc : ℕ) (bs : Bytes) → reduce_xor acc bs ≡ xor_from acc bs
unfolding reduce_xor
reduce_xor-xor_from acc [] = refl
reduce_xor-xor_from acc (b ∷ bs) = reduce_xor-xor_from (bit_xor acc b) bs

pub calculate_checksum-lrc_of :
    (key : Text) (d : Bytes) → calculate_checksum (key ++ d ++ 0x03 ∷ []) ≡ lrc_of key d
unfolding calculate_checksum
calculate_checksum-lrc_of key d = reduce_xor-xor_from 0 (key ++ d ++ 0x03 ∷ [])
