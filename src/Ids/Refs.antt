-- ===== src/Ids/Refs.antt =====
-- `BlockRef` and `PageRef` of src/pypstreader/ndb/ids.py: an id with the byte offset of its bytes.
use pypst_reader.Prelude.{ℕ, ◌+◌, ◌++◌}
use pypst_reader.Error.{Result, ok, ◌>>=◌, ◌>>◌}
use pypst_reader.Bytes.{Bytes, u64, need, to_bytes}
use pypst_reader.Ids.BlockId.{BlockId, PageId, ByteIndex, block_id, page_id, byte_index}

pub record BlockRef : Type 0 where
  pub block : BlockId
  pub index : ByteIndex

unfoldable pub unpack_block_ref : Bytes → ℕ → Result BlockRef
unfolding need block_id byte_index
unpack_block_ref buf offset = do
  need 16 buf offset
  block ← block_id (u64 buf offset)
  index ← byte_index (u64 buf (offset + 8))
  ok (record { block = block; index = index })

unfoldable pub pack_block_ref : BlockRef → Bytes
pack_block_ref r = to_bytes 8 r.block.raw ++ to_bytes 8 r.index.value

pub record PageRef : Type 0 where
  pub page : PageId
  pub index : ByteIndex

unfoldable pub unpack_page_ref : Bytes → ℕ → Result PageRef
unfolding need page_id byte_index
unpack_page_ref buf offset = do
  need 16 buf offset
  page ← page_id (u64 buf offset)
  index ← byte_index (u64 buf (offset + 8))
  ok (record { page = page; index = index })

unfoldable pub pack_page_ref : PageRef → Bytes
pack_page_ref r = to_bytes 8 r.page.raw ++ to_bytes 8 r.index.value
