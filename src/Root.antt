-- ===== src/Root.antt =====
-- src/pypstreader/ndb/root.py: the ROOT structure, 72 bytes of the header.
use pypst_reader.Prelude.{ℕ, ◌+◌, ◌==◌, if◌then◌else◌}
use pypst_reader.Error.{Result, ok, err, format, ◌>>=◌, ◌>>◌}
use pypst_reader.Bytes.{Bytes, u8, u64, need}
use pypst_reader.Ids.BlockId.{ByteIndex, byte_index, page_id}
use pypst_reader.Ids.Refs.{PageRef}

pub data AmapStatus : Type 0 where
  invalid valid1 valid2 : AmapStatus

-- The strict conversion.
unfoldable pub from_byte : ℕ → Result AmapStatus
from_byte v =
    if v == 0
    then ok invalid
    else if v == 1
    then ok valid1
    else if v == 2
    then ok valid2
    else err format

-- Anything unknown is `invalid`.
unfoldable pub from_byte_lenient : ℕ → AmapStatus
from_byte_lenient v =
    if v == 0 then invalid else if v == 1 then valid1 else if v == 2 then valid2 else invalid

pub record Root : Type 0 where
  pub file_eof_index : ByteIndex
  pub amap_last_index : ByteIndex
  pub amap_free_size : ByteIndex
  pub pmap_free_size : ByteIndex
  pub node_btree : PageRef
  pub block_btree : PageRef
  pub amap_is_valid : AmapStatus

-- dwReserved (4 bytes), nine u64, fAMapValid, bReserved, wReserved.
unfoldable pub unpack_from : Bytes → ℕ → Result Root
unpack_from buf offset = do
  need 72 buf offset
  file_eof ← byte_index (u64 buf (offset + 4))
  amap_last ← byte_index (u64 buf (offset + 12))
  amap_free ← byte_index (u64 buf (offset + 20))
  pmap_free ← byte_index (u64 buf (offset + 28))
  nbt_page ← page_id (u64 buf (offset + 36))
  nbt_index ← byte_index (u64 buf (offset + 44))
  bbt_page ← page_id (u64 buf (offset + 52))
  bbt_index ← byte_index (u64 buf (offset + 60))
  ok (record {
    file_eof_index = file_eof;
    amap_last_index = amap_last;
    amap_free_size = amap_free;
    pmap_free_size = pmap_free;
    node_btree = record { page = nbt_page; index = nbt_index };
    block_btree = record { page = bbt_page; index = bbt_index };
    amap_is_valid = from_byte_lenient (u8 buf (offset + 68));
  })
