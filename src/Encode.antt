-- ===== src/Encode.antt =====
-- src/pypstreader/encode.py: how a data block's bytes are stored.
--
-- `bytes.translate` is a look-up in a table of 256 bytes for each byte. On bytes every index is in
-- range, so the default of `lookup` is never read.
pub mod Tables
pub mod Inverse
use pypst_reader.Prelude.{ℕ, ◌+◌, ◌-◌, ◌/◌, ◌%◌, ◌^◌, List, [], ◌∷◌, map, get_or, bit_xor}
use pypst_reader.Bytes.{Bytes}
use pypst_reader.Encode.Tables.{key_data_r, key_data_s, key_data_i}

pub data CryptMethod : Type 0 where
  none permute cyclic : CryptMethod

-- table[b]
unfoldable pub lookup : Bytes → ℕ → ℕ
lookup table b = get_or table b 0

unfoldable pub decode_permute : Bytes → Bytes
decode_permute data_ = map (lookup key_data_i) data_

unfoldable pub encode_permute : Bytes → Bytes
encode_permute data_ = map (lookup key_data_r) data_

-- One byte under the 16-bit key `k`; `b - high` is taken modulo 256.
unfoldable pub cyclic_byte : ℕ → ℕ → ℕ
cyclic_byte k byte =
    let low = k % 256 in
    let high = k / 256 % 256 in
    let b1 = lookup key_data_r ((byte + low) % 256) in
    let b2 = lookup key_data_s ((b1 + high) % 256) in
    let b3 = lookup key_data_i ((b2 + 256 - high) % 256) in (b3 + 256 - low) % 256

cyclic_loop : ℕ → Bytes → Bytes
cyclic_loop k [] = []
cyclic_loop k (byte ∷ rest) = cyclic_byte k byte ∷ cyclic_loop ((k + 1) % 2 ^ 16) rest

-- A key below zero, a ValueError of the source, has no counterpart on ℕ.
unfoldable pub encode_decode_cyclic : Bytes → ℕ → Bytes
unfolding cyclic_loop
encode_decode_cyclic data_ key = cyclic_loop (bit_xor key (key / 2 ^ 16) % 2 ^ 16) data_

-- Every value of the enumeration has a branch, so the ValueError after the tests is not reached.
unfoldable pub decode_block : Bytes → CryptMethod → ℕ → Bytes
decode_block data_ none key = data_
decode_block data_ permute key = decode_permute data_
decode_block data_ cyclic key = encode_decode_cyclic data_ key
