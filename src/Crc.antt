-- ===== src/Crc.antt =====
-- src/pypstreader/crc.py and src/pypstreader/block_sig.py: the checks in headers, pages and blocks.
--
-- `zlib.crc32` of the standard library is the reflected CRC-32 of polynomial 0xEDB88320, a byte
-- at a time and bit by bit, with the running value inverted on the way in and out.
pub mod Stream
use pypst_reader.Prelude.{
  ℕ, zero, suc, ◌+◌, ◌/◌, ◌%◌, ◌^◌, List, [], ◌∷◌, bit_xor, ◌==◌, if◌then◌else◌,
}
use pypst_reader.Bytes.{Bytes}

abbrev pub mask32 : ℕ
mask32 = 0xFFFFFFFF

abbrev pub polynomial : ℕ
polynomial = 0xEDB88320

crc_bit : ℕ → ℕ
crc_bit c = if c % 2 == 1 then bit_xor (c / 2) polynomial else c / 2

crc_bits : ℕ → ℕ → ℕ
unfolding crc_bit
crc_bits zero c = c
crc_bits (suc n) c = crc_bits n (crc_bit c)

-- The CRC register after `data`, with no inversion.
unfoldable pub crc_register : ℕ → Bytes → ℕ
unfolding crc_bits
crc_register c [] = c
crc_register c (b ∷ bs) = crc_register (crc_bits 8 (bit_xor c b)) bs

-- zlib.crc32(data, value)
unfoldable pub zlib_crc32 : Bytes → ℕ → ℕ
zlib_crc32 bs value = bit_xor (crc_register (bit_xor value mask32) bs) mask32

unfoldable pub compute_crc : ℕ → Bytes → ℕ
unfolding zlib_crc32 crc_register
compute_crc crc bs = bit_xor (zlib_crc32 bs (bit_xor crc mask32 % 2 ^ 32)) mask32

unfoldable pub compute_sig : ℕ → ℕ → ℕ
compute_sig index block_id =
    let value = bit_xor (index % 2 ^ 32) (block_id % 2 ^ 32) in
    bit_xor (value / 2 ^ 16) value % 2 ^ 16
