-- ===== src/Protocol/Checksum.antt =====
-- The XOR checksum: `calculate_checksum` of src/services/io_board/protocol.py, which
-- `_xor_checksum` of serial_io.py repeats, and `seek_and_read`.
use Prim.Native.Nat.{bit_xor}
use crk_io_board.Base.{
  Bool-cases, if◌then◌else◌, false, inl, inr, ==_iff, ℕ, zero, suc, ◌<◌, ◌≡◌, refl, ◌∙◌, sym, ap,
  Bool, true, ◌&&◌, [], ◌∷◌, ◌++◌, arith, Bytes, ltb, ◌==◌, take, drop,
}

-- reduce(lambda x, y: x ^ y, data, acc)
unfoldable pub reduce_xor : ℕ → Bytes → ℕ
reduce_xor acc [] = acc
reduce_xor acc (x ∷ xs) = reduce_xor (bit_xor acc x) xs

unfoldable pub calculate_checksum : Bytes → ℕ
unfolding reduce_xor
calculate_checksum message = reduce_xor 0 message

-- The bytes of `length` from `offset`; the position of the stream is restored by the caller.
abbrev pub seek_and_read : Bytes → ℕ → ℕ → Bytes
seek_and_read stream offset length = take length (drop offset stream)

abbrev pub IsByte : ℕ → Type 0
IsByte b = b < 256

abbrev pub AreBytes : Bytes → Type 0
AreBytes [] = Unit
AreBytes (b ∷ bs) = IsByte b × AreBytes bs

pub AreBytes-append_left : (xs ys : Bytes) → AreBytes (xs ++ ys) → AreBytes xs
AreBytes-append_left [] ys h = tt
AreBytes-append_left (x ∷ xs) ys h = (h.0, AreBytes-append_left xs ys h.1)

pub AreBytes-append_right : (xs ys : Bytes) → AreBytes (xs ++ ys) → AreBytes ys
AreBytes-append_right [] ys h = h
AreBytes-append_right (x ∷ xs) ys h = AreBytes-append_right xs ys h.1

pub AreBytes-append : (xs ys : Bytes) → AreBytes xs → AreBytes ys → AreBytes (xs ++ ys)
AreBytes-append [] ys hx hy = hy
AreBytes-append (x ∷ xs) ys hx hy = (hx.0, AreBytes-append xs ys hx.1 hy)

-- The laws of XOR on bytes, by evaluation of every case.
passes_under : (ℕ → Bool) → ℕ → Bool
passes_under test zero = true
passes_under test (suc bound) = if test bound then passes_under test bound else false

passed :
    (test : ℕ → Bool) (bound b : ℕ) → b < bound → passes_under test bound ≡ true → test b ≡ true
unfolding passes_under
passed test zero b low all = absurd (omega arith)
passed test (suc bound) b low all = elim (Bool-cases (b == bound)) [
  | inl at ↦ rw ((==_iff b bound).0 at) (ground (arith, all))
  | inr off ↦ passed test bound b (ground (arith, off, ==_iff b bound)) (ground (arith, all))
]

xor_test : ℕ → ℕ → Bool
xor_test a b =
    ltb (bit_xor a b) 256
    && bit_xor (bit_xor a b) b == a
    && bit_xor (bit_xor a b) a == b
    && bit_xor a a == 0

xor_table : passes_under (λ a. passes_under (xor_test a) 256) 256 ≡ true
unfolding passes_under xor_test
xor_table = refl

xor_test_holds : (a b : ℕ) → IsByte a → IsByte b → xor_test a b ≡ true
xor_test_holds a b ha hb =
    passed (xor_test a) 256 b hb (passed (λ x. passes_under (xor_test x) 256) 256 a ha xor_table)

pub xor-IsByte : (a b : ℕ) → IsByte a → IsByte b → IsByte (bit_xor a b)
unfolding xor_test
xor-IsByte a b ha hb = ground (arith, xor_test_holds a b ha hb)

pub xor_cancel : (a b : ℕ) → IsByte a → IsByte b → bit_xor (bit_xor a b) b ≡ a
unfolding xor_test
xor_cancel a b ha hb = ground (arith, xor_test_holds a b ha hb)

pub xor_cancel_left : (a b : ℕ) → IsByte a → IsByte b → bit_xor (bit_xor a b) a ≡ b
unfolding xor_test
xor_cancel_left a b ha hb = ground (arith, xor_test_holds a b ha hb)

pub xor_self : (a : ℕ) → IsByte a → bit_xor a a ≡ 0
unfolding xor_test
xor_self a ha = ground (arith, xor_test_holds a a ha ha)

pub xor_injective_right :
    (a x y : ℕ) → IsByte a → IsByte x → IsByte y → bit_xor a x ≡ bit_xor a y → x ≡ y
xor_injective_right a x y ha hx hy e =
    sym (xor_cancel_left a x ha hx) ∙ ap (λ v. bit_xor v a) e ∙ xor_cancel_left a y ha hy

pub xor_injective_left :
    (a b x : ℕ) → IsByte a → IsByte b → IsByte x → bit_xor a x ≡ bit_xor b x → a ≡ b
xor_injective_left a b x ha hb hx e =
    sym (xor_cancel a x ha hx) ∙ ap (λ v. bit_xor v x) e ∙ xor_cancel b x hb hx

pub reduce_xor-IsByte :
    (acc : ℕ) (xs : Bytes) → IsByte acc → AreBytes xs → IsByte (reduce_xor acc xs)
unfolding reduce_xor
reduce_xor-IsByte acc [] h hs = h
reduce_xor-IsByte acc (x ∷ xs) h hs =
    reduce_xor-IsByte (bit_xor acc x) xs (xor-IsByte acc x h hs.0) hs.1

-- The checksum of bytes fits the one byte that the frame has for it.
pub calculate_checksum-IsByte : (xs : Bytes) → AreBytes xs → IsByte (calculate_checksum xs)
unfolding calculate_checksum
calculate_checksum-IsByte xs h = reduce_xor-IsByte 0 xs (omega arith) h

pub reduce_xor-append :
    (acc : ℕ) (xs ys : Bytes) → reduce_xor acc (xs ++ ys) ≡ reduce_xor (reduce_xor acc xs) ys
unfolding reduce_xor
reduce_xor-append acc [] ys = refl
reduce_xor-append acc (x ∷ xs) ys = reduce_xor-append (bit_xor acc x) xs ys

reduce_xor_injective :
    (a b : ℕ) (xs : Bytes)
    → IsByte a
    → IsByte b
    → AreBytes xs
    → reduce_xor a xs ≡ reduce_xor b xs
    → a ≡ b
unfolding reduce_xor
reduce_xor_injective a b [] ha hb h e = e
reduce_xor_injective a b (x ∷ xs) ha hb h e = xor_injective_left a b x ha hb h.0 (
    reduce_xor_injective (bit_xor a x) (bit_xor b x) xs (xor-IsByte a x ha h.0)
      (xor-IsByte b x hb h.0) h.1 e)

-- The XOR of a sequence of bytes determines each of them, given the others.
pub reduce_xor_detects :
    (acc : ℕ) (pre : Bytes) (x y : ℕ) (post : Bytes)
    → IsByte acc
    → AreBytes pre
    → IsByte x
    → IsByte y
    → AreBytes post
    → reduce_xor acc (pre ++ x ∷ post) ≡ reduce_xor acc (pre ++ y ∷ post)
    → x ≡ y
unfolding reduce_xor
reduce_xor_detects acc [] x y post ha hp hx hy hq e = xor_injective_right acc x y ha hx hy (
    reduce_xor_injective (bit_xor acc x) (bit_xor acc y) post (xor-IsByte acc x ha hx)
      (xor-IsByte acc y ha hy) hq e)
reduce_xor_detects acc (p ∷ pre) x y post ha hp hx hy hq e =
    reduce_xor_detects (bit_xor acc p) pre x y post (xor-IsByte acc p ha hp.0) hp.1 hx hy hq e
