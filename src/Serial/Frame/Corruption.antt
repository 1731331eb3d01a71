-- ===== src/Serial/Frame/Corruption.antt =====
-- The XOR check of src/services/io_board/serial_io.py on a frame with a damaged byte.
use crk_io_board.Base.{
  ℕ, ◌≡◌, ◌≢◌, refl, sym, ◌∙◌, ap, true, false, [], ◌∷◌, ◌++◌, arith, Bytes, same_text→eq,
  Bool-cases, inl, inr,
}
use Prim.Native.Nat.{bit_xor}
use crk_io_board.Protocol.Checksum.{
  reduce_xor, IsByte, AreBytes, AreBytes-append_left, AreBytes-append_right, AreBytes-append,
  reduce_xor-append, reduce_xor_detects, xor_self,
}
use crk_io_board.Serial.Frame.{init, last, checksum_matches, response_checksum_valid}

init-last : (b : ℕ) (bs : Bytes) → init (b ∷ bs) ++ last (b ∷ bs) ≡ b ∷ bs
init-last b [] = refl
init-last b (c ∷ bs) = ap (λ l. b ∷ l) (init-last c bs)

-- A block that ends in its own XOR has XOR zero.
xor_with_checksum :
    (xs : Bytes) (k : ℕ)
    → AreBytes (xs ++ k ∷ [])
    → reduce_xor 0 xs ≡ k
    → reduce_xor 0 (xs ++ k ∷ []) ≡ 0
unfolding reduce_xor
xor_with_checksum xs k h e =
    reduce_xor-append 0 xs (k ∷ [])
    ∙ ap (λ v. bit_xor v k) e
    ∙ xor_self k (AreBytes-append_right xs (k ∷ []) h).0

-- In a frame that passes, all bytes behind the first have XOR zero.
valid_xor :
    (b c : ℕ) (bs : Bytes)
    → AreBytes (c ∷ bs)
    → checksum_matches (b ∷ c ∷ bs) ≡ true
    → reduce_xor 0 (c ∷ bs) ≡ 0
unfolding checksum_matches
valid_xor b c bs h e =
    let last_is : reduce_xor 0 (init (c ∷ bs)) ∷ [] ≡ last (c ∷ bs) = same_text→eq _ _ e in
    let whole : init (c ∷ bs) ++ reduce_xor 0 (init (c ∷ bs)) ∷ [] ≡ c ∷ bs =
      ap (λ l. init (c ∷ bs) ++ l) last_is ∙ init-last c bs in
    ap (reduce_xor 0) (sym whole)
    ∙ xor_with_checksum (init (c ∷ bs)) (reduce_xor 0 (init (c ∷ bs))) (rw whole h) refl

pub valid-xor_zero :
    (b : ℕ) (t : Bytes) → AreBytes t → response_checksum_valid (b ∷ t) ≡ true → reduce_xor 0 t ≡ 0
unfolding response_checksum_valid
valid-xor_zero b [] h e = cc
valid-xor_zero b (c ∷ bs) h e = valid_xor b c bs h (ground arith)

damaged_tail :
    (p : ℕ) (pre : Bytes) (x y : ℕ) (post : Bytes)
    → AreBytes (pre ++ x ∷ post)
    → IsByte y
    → response_checksum_valid (p ∷ pre ++ x ∷ post) ≡ true
    → response_checksum_valid (p ∷ pre ++ y ∷ post) ≡ true
    → x ≡ y
damaged_tail p pre x y post h hy valid valid' =
    let hp = AreBytes-append_left pre (x ∷ post) h in
    let hq = AreBytes-append_right pre (x ∷ post) h in
    reduce_xor_detects 0 pre x y post (omega arith) hp hq.0 hy hq.1 (
      valid-xor_zero p (pre ++ x ∷ post) h valid
      ∙ sym (
          valid-xor_zero p (pre ++ y ∷ post) (AreBytes-append pre (y ∷ post) hp (hy, hq.1)) valid'))

damaged_head :
    (x y : ℕ) (post : Bytes)
    → response_checksum_valid (x ∷ post) ≡ true
    → response_checksum_valid (y ∷ post) ≡ true
    → x ≡ y
unfolding response_checksum_valid
damaged_head x y post valid valid' = ground arith

damaged :
    (pre : Bytes) (x y : ℕ) (post : Bytes)
    → AreBytes (pre ++ x ∷ post)
    → IsByte y
    → response_checksum_valid (pre ++ x ∷ post) ≡ true
    → response_checksum_valid (pre ++ y ∷ post) ≡ true
    → x ≡ y
damaged [] x y post h hy valid valid' = damaged_head x y post valid valid'
damaged (p ∷ pre) x y post h hy valid valid' = damaged_tail p pre x y post h.1 hy valid valid'

-- A frame that passes the check fails it when any one of its bytes, wherever it stands, is
-- replaced by a different byte.
pub response_checksum_valid_damaged :
    (pre : Bytes) (x y : ℕ) (post : Bytes)
    → AreBytes (pre ++ x ∷ post)
    → IsByte y
    → x ≢ y
    → response_checksum_valid (pre ++ x ∷ post) ≡ true
    → response_checksum_valid (pre ++ y ∷ post) ≡ false
response_checksum_valid_damaged pre x y post h hy ne valid =
    elim (Bool-cases (response_checksum_valid (pre ++ y ∷ post))) [
      | inl valid' ↦ absurd (ne (damaged pre x y post h hy valid valid'))
      | inr refused ↦ refused
    ]
