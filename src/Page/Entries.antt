-- ===== src/Page/Entries.antt =====
-- The page types and the three entry types of src/pypstreader/ndb/page.py.
use pypst_reader.Prelude.{ℕ, ◌+◌, ◌==◌, ltb, Option, none, some, if◌then◌else◌}
use pypst_reader.Error.{Result, ok, err, format, ◌>>=◌, ◌>>◌}
use pypst_reader.Bytes.{Bytes, u16, u32, u64, need}
use pypst_reader.Ids.NodeId.{NodeId, node_id}
use pypst_reader.Ids.BlockId.{BlockId, block_id, page_id, byte_index, search_key}
use pypst_reader.Ids.Refs.{BlockRef, PageRef}

pub data PageType : Type 0 where
  bbt nbt fmap pmap amap fpmap dl : PageType

pub record IntermediateEntry : Type 0 where
  pub key : ℕ
  pub ref : PageRef

unfoldable pub unpack_intermediate : Bytes → ℕ → Result IntermediateEntry
unpack_intermediate buf offset = do
  need 24 buf offset
  page ← page_id (u64 buf (offset + 8))
  index ← byte_index (u64 buf (offset + 16))
  ok (record { key = u64 buf offset; ref = record { page = page; index = index } })

pub record BlockBTreeEntry : Type 0 where
  pub block : BlockRef
  pub size : ℕ
  pub ref_count : ℕ

unfoldable pub unpack_block_entry : Bytes → ℕ → Result BlockBTreeEntry
unpack_block_entry buf offset = do
  need 24 buf offset
  block ← block_id (u64 buf offset)
  index ← byte_index (u64 buf (offset + 8))
  ok (record {
    block = record { block = block; index = index };
    size = u16 buf (offset + 16);
    ref_count = u16 buf (offset + 18);
  })

unfoldable pub block_entry_key : BlockBTreeEntry → ℕ
block_entry_key e = search_key e.block.block

pub record NodeBTreeEntry : Type 0 where
  pub node : NodeId
  pub data_block : BlockId
  pub sub_node : Option BlockId
  pub parent : Option NodeId

-- `None if sub.search_key == 0 else sub`
unfoldable pub sub_of : BlockId → Option BlockId
sub_of sub = if search_key sub == 0 then none else some sub

unfoldable pub parent_of : ℕ → Result (Option NodeId)
parent_of raw = if raw == 0 then ok none else do parent ← node_id raw; ok (some parent)

unfoldable pub unpack_node_entry : Bytes → ℕ → Result NodeBTreeEntry
unfolding sub_of parent_of
unpack_node_entry buf offset = do
  need 32 buf offset
  node ← (if ltb 0xFFFFFFFF (u64 buf offset) then err format else node_id (u64 buf offset))
  data_block ← block_id (u64 buf (offset + 8))
  sub ← block_id (u64 buf (offset + 16))
  parent ← parent_of (u32 buf (offset + 24))
  ok (record { node = node; data_block = data_block; sub_node = sub_of sub; parent = parent })

unfoldable pub node_entry_key : NodeBTreeEntry → ℕ
node_entry_key e = e.node.raw
