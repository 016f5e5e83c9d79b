-- ===== src/Crc/Stream.antt =====
-- The CRC is the plain register: the inversions of `zlib.crc32` are undone, and a CRC continues.
use pypst_reader.Prelude.{
  ℕ, zero, suc, ◌/◌, ◌%◌, ◌^◌, ◌<◌, ◌≡◌, refl, ap, ◌∙◌, arith, [], ◌∷◌, ◌++◌, bit_xor, All-append,
}
use pypst_reader.Prelude.Bits.{bit_xor-lt, bit_xor-bit_xor}
use pypst_reader.Bytes.{Bytes, IsByte, IsBytes}
use pypst_reader.Crc.{
  mask32, polynomial, crc_bit, crc_bits, crc_register, zlib_crc32, compute_crc, compute_sig,
}

crc_bit-lt : (c : ℕ) → c < 2 ^ 32 → crc_bit c < 2 ^ 32
unfolding crc_bit
crc_bit-lt c h = ground (arith, bit_xor-lt 32 (c / 2) polynomial (omega arith) (omega arith))

crc_bits-lt : (n c : ℕ) → c < 2 ^ 32 → crc_bits n c < 2 ^ 32
unfolding crc_bits
crc_bits-lt zero c h = h
crc_bits-lt (suc n) c h = crc_bits-lt n (crc_bit c) (crc_bit-lt c h)

crc_register-lt : (bs : Bytes) (c : ℕ) → IsBytes bs → c < 2 ^ 32 → crc_register c bs < 2 ^ 32
unfolding crc_register
crc_register-lt [] c h k = k
crc_register-lt (b ∷ bs) c (p, h) k =
    crc_register-lt bs (crc_bits 8 (bit_xor c b)) h
      (crc_bits-lt 8 (bit_xor c b) (bit_xor-lt 32 c b k (omega arith)))

crc_register-append :
    (c : ℕ) (xs ys : Bytes) → crc_register c (xs ++ ys) ≡ crc_register (crc_register c xs) ys
unfolding crc_register
crc_register-append c [] ys = refl
crc_register-append c (b ∷ xs) ys = crc_register-append (crc_bits 8 (bit_xor c b)) xs ys

-- On a 32-bit running value and on bytes, `compute_crc` is the register without any inversion, and
-- a 32-bit number.
pub compute_crc-register :
    (crc : ℕ) (bs : Bytes)
    → crc < 2 ^ 32
    → IsBytes bs
    → (compute_crc crc bs ≡ crc_register crc bs) × (compute_crc crc bs < 2 ^ 32)
unfolding compute_crc zlib_crc32
compute_crc-register crc bs h k = (whole, rw whole (crc_register-lt bs crc k h))
  where
    inner : bit_xor (bit_xor crc mask32 % 2 ^ 32) mask32 ≡ crc
    inner =
        let small : bit_xor crc mask32 % 2 ^ 32 ≡ bit_xor crc mask32 =
          omega (arith, bit_xor-lt 32 crc mask32 h (omega arith)) in
        ap (λ (t : ℕ). bit_xor t mask32) small ∙ bit_xor-bit_xor 32 crc mask32 h (omega arith)

    whole :
        bit_xor
          (bit_xor (crc_register (bit_xor (bit_xor crc mask32 % 2 ^ 32) mask32) bs) mask32)
          mask32
        ≡ crc_register crc bs
    whole =
        bit_xor-bit_xor 32 (crc_register (bit_xor (bit_xor crc mask32 % 2 ^ 32) mask32) bs) mask32
          (rw inner (crc_register-lt bs crc k h)) (omega arith)
        ∙ ap (λ (t : ℕ). crc_register t bs) inner

-- A running CRC continues: the parts of a buffer one after the other give the CRC of the whole.
pub compute_crc-append :
    (crc : ℕ) (xs ys : Bytes)
    → crc < 2 ^ 32
    → IsBytes xs
    → IsBytes ys
    → compute_crc (compute_crc crc xs) ys ≡ compute_crc crc (xs ++ ys)
compute_crc-append crc xs ys h p q =
    let (ex, lx) = compute_crc-register crc xs h p in
    let (ey, _) = compute_crc-register (compute_crc crc xs) ys lx q in
    let (ea, _) = compute_crc-register crc (xs ++ ys) h (All-append IsByte xs ys p q) in
    ey ∙ ap (λ (t : ℕ). crc_register t ys) ex ∙ rw (ea, crc_register-append)

-- A block signature fits its 16-bit field, and looks at the low halves of its arguments alone.
pub compute_sig_lem :
    (index block_id : ℕ)
    → (compute_sig index block_id < 2 ^ 16)
      × (compute_sig (index % 2 ^ 32) (block_id % 2 ^ 32) ≡ compute_sig index block_id)
unfolding compute_sig
compute_sig_lem index block_id =
    let e : index % 2 ^ 32 % 2 ^ 32 ≡ index % 2 ^ 32 = omega arith in
    let f : block_id % 2 ^ 32 % 2 ^ 32 ≡ block_id % 2 ^ 32 = omega arith in
    (omega arith, rw (e, f) refl)
