-- ===== src/Ids/BlockId.antt =====
-- `BlockId`, `PageId` and `ByteIndex` of src/pypstreader/ndb/ids.py.
use pypst_reader.Prelude.{ℕ, ◌+◌, ◌*◌, ◌/◌, ◌%◌, ◌^◌, Bool, ltb, leb, ◌==◌, if◌then◌else◌}
use pypst_reader.Error.{Result, ok, err, format, ◌>>◌}
use pypst_reader.Bytes.{Bytes, u64, need, to_bytes}

pub record BlockId : Type 0 where
  pub raw : ℕ

-- BlockId(raw)
unfoldable pub block_id : ℕ → Result BlockId
block_id raw = if ltb raw (2 ^ 64) then ok (record { raw = raw }) else err format

abbrev pub max_block_index : ℕ
max_block_index = 0x3FFFFFFFFFFFFFFF

unfoldable pub from_parts : Bool → ℕ → Result BlockId
unfolding block_id
from_parts internal index =
    if leb index max_block_index
    then block_id (index * 2 ^ 2 + (if internal then 2 else 0))
    else err format

unfoldable pub unpack_from : Bytes → ℕ → Result BlockId
unfolding need block_id
unpack_from buf offset = do need 8 buf offset; block_id (u64 buf offset)

unfoldable pub pack : BlockId → Bytes
pack b = to_bytes 8 b.raw

-- `raw & 0x2 == 0x2`
unfoldable pub is_internal : BlockId → Bool
is_internal b = b.raw / 2 % 2 == 1

unfoldable pub index : BlockId → ℕ
index b = b.raw / 2 ^ 2

-- `raw & ~0x1 & _U64`: the id with the reserved bit cleared.
unfoldable pub search_key : BlockId → ℕ
search_key b = b.raw / 2 * 2

pub record PageId : Type 0 where
  pub raw : ℕ

-- PageId(raw)
unfoldable pub page_id : ℕ → Result PageId
page_id raw = if ltb raw (2 ^ 64) then ok (record { raw = raw }) else err format

pub record ByteIndex : Type 0 where
  pub value : ℕ

-- ByteIndex(value)
unfoldable pub byte_index : ℕ → Result ByteIndex
byte_index value = if ltb value (2 ^ 64) then ok (record { value = value }) else err format
