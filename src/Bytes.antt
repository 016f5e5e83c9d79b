-- ===== src/Bytes.antt =====
-- Byte buffers and the `struct` module of the standard library, as the readers use them: all
-- formats are little-endian without padding, so a format is its fields' widths in bytes.
-- `need` is the length check of `struct.unpack_from` with the wrapper `_unpack` of
-- src/pypstreader/ndb/ids.py; a field is read by its offset and width.
pub mod RoundTrip
use pypst_reader.Prelude.{
  ℕ, zero, suc, ◌+◌, ◌*◌, ◌/◌, ◌%◌, ◌<◌, List, [], ◌∷◌, leb, length, take, drop, All,
}
use pypst_reader.Error.{Result, require, format}

-- `bytes`, each below 256 (`IsBytes`).
abbrev pub Bytes : Type 0
Bytes = List ℕ

abbrev pub IsByte : ℕ → Type 0
IsByte b = b < 256

abbrev pub IsBytes : Bytes → Type 0
IsBytes = All IsByte

-- int.from_bytes(bs, "little")
unfoldable pub from_bytes : Bytes → ℕ
from_bytes [] = 0
from_bytes (b ∷ bs) = b + 256 * from_bytes bs

-- The `w` bytes of a little-endian field.
unfoldable pub to_bytes : ℕ → ℕ → Bytes
to_bytes zero v = []
to_bytes (suc w) v = v % 256 ∷ to_bytes w (v / 256)

-- buf[offset : offset + size]
unfoldable pub slice : Bytes → ℕ → ℕ → Bytes
slice buf offset size = take size (drop offset buf)

-- A field of `w` bytes at `offset`.
unfoldable pub field : ℕ → Bytes → ℕ → ℕ
unfolding from_bytes slice
field w buf offset = from_bytes (slice buf offset w)

abbrev pub u8 : Bytes → ℕ → ℕ
u8 = field 1

abbrev pub u16 : Bytes → ℕ → ℕ
u16 = field 2

abbrev pub u32 : Bytes → ℕ → ℕ
u32 = field 4

abbrev pub u64 : Bytes → ℕ → ℕ
u64 = field 8

-- The refusal of `_unpack` when `size` bytes do not fit at `offset`. A caller's offsets are never
-- negative, so the test for that has no counterpart on ℕ.
unfoldable pub need : ℕ → Bytes → ℕ → Result (Unit {0})
need size buf offset = require (leb (offset + size) (length buf)) format
