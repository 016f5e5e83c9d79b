-- ===== src/Block.antt =====
-- src/pypstreader/ndb/block.py: blocks, and the trees over them.
--
-- A `BlockReader` is the file's bytes, the root of its block B-tree, the encoding of its data
-- blocks and the limits. The block B-tree is read by `find_block`, without the cache, which is
-- modelled in BTree/Cache.
pub mod Walks
pub mod Settles
pub mod Size
pub mod Data
pub mod Subnode
use pypst_reader.Prelude.{
  ℕ, suc, ◌+◌, ◌-◌, ◌*◌, ◌/◌, ◌%◌, ◌^◌, Bool, true, false, ◌&&◌, not, List, ltb, leb, ◌==◌, length,
  if◌then◌else◌, Option, none, some,
}
use pypst_reader.Error.{Result, ok, err, format, require, ◌>>=◌, ◌>>◌}
use pypst_reader.Bytes.{Bytes, u8, u16, u32, u64, need, slice}
use pypst_reader.Limits.{Limits}
use pypst_reader.Crc.{compute_crc, compute_sig}
use pypst_reader.Encode.{CryptMethod, decode_block}
use pypst_reader.Ids.NodeId.{NodeId, node_id}
use pypst_reader.Ids.BlockId.{BlockId, ByteIndex, block_id, is_internal, search_key}
use pypst_reader.Ids.Refs.{BlockRef, PageRef}
use pypst_reader.Page.Entries.{BlockBTreeEntry, sub_of}
use pypst_reader.Page.{unpack_entries}
use pypst_reader.BTree.Trees.{find_block}

abbrev pub max_block_data_size : ℕ
max_block_data_size = 8176

unfoldable pub block_size : ℕ → Result ℕ
block_size size =
    if leb 1 size && leb size max_block_data_size
    then ok ((size + 16 + 63) / 64 * 64)
    else err format

pub record BlockTrailer : Type 0 where
  pub size : ℕ
  pub signature : ℕ
  pub crc : ℕ
  pub block_id : BlockId

unfoldable pub unpack_trailer : Bytes → ℕ → Result BlockTrailer
unpack_trailer buf offset = do
  need 16 buf offset
  require (leb 1 (u16 buf offset) && leb (u16 buf offset) max_block_data_size) format
  id ← block_id (u64 buf (offset + 8))
  ok (record {
    size = u16 buf offset;
    signature = u16 buf (offset + 2);
    crc = u32 buf (offset + 4);
    block_id = id;
  })

unfoldable pub cyclic_key : BlockTrailer → ℕ
cyclic_key t = search_key t.block_id % 2 ^ 32

-- `self.block_id.is_internal != is_internal`
unfoldable pub verify_block_id : BlockTrailer → Bool → Result (Unit {0})
verify_block_id t internal =
    require (if is_internal t.block_id then internal else not internal) format

unfoldable pub verify_crc : BlockTrailer → Bytes → Result (Unit {0})
verify_crc t bs = require (compute_crc 0 bs == t.crc) format

unfoldable pub expected_signature : BlockTrailer → ByteIndex → ℕ
expected_signature t index = compute_sig index.value t.block_id.raw

pub record DataBlock : Type 0 where
  pub bytes : Bytes
  pub trailer : BlockTrailer

pub record XBlock : Type 0 where
  pub level : ℕ
  pub total_size : ℕ
  pub entries : List BlockId
  pub trailer : BlockTrailer

pub record SubNodeLeafEntry : Type 0 where
  pub node : NodeId
  pub data_block : BlockId
  pub sub_node : Option BlockId

unfoldable pub unpack_sub_leaf : Bytes → ℕ → Result SubNodeLeafEntry
unpack_sub_leaf buf offset = do
  need 24 buf offset
  sub ← block_id (u64 buf (offset + 16))
  node ← node_id (u64 buf offset % 2 ^ 32)
  data_block ← block_id (u64 buf (offset + 8))
  ok (record { node = node; data_block = data_block; sub_node = sub_of sub })

pub record SubNodeIntermediateEntry : Type 0 where
  pub node : NodeId
  pub next_level : BlockId

unfoldable pub unpack_sub_intermediate : Bytes → ℕ → Result SubNodeIntermediateEntry
unpack_sub_intermediate buf offset = do
  need 16 buf offset
  node ← node_id (u64 buf offset % 2 ^ 32)
  next_level ← block_id (u64 buf (offset + 8))
  ok (record { node = node; next_level = next_level })

-- `_tree_entry_size`
unfoldable pub tree_entry_size : ℕ → ℕ → Result ℕ
tree_entry_size btype level =
    if btype == 1
    then ok 8
    else if btype == 2
    then ok (if level == 0 then 24 else 16)
    else err format

pub record BlockReader : Type 0 where
  pub file : Bytes
  pub bbt : PageRef
  pub crypt_method : CryptMethod
  pub limits : Limits

unfoldable pub read_allocation : BlockReader → BlockRef → ℕ → Result Bytes
read_allocation r ref size = do
  total ← block_size size
  require (leb (ref.index.value + total) r.limits.max_file_size) format
  require (length (slice r.file ref.index.value total) == total) format
  ok (slice r.file ref.index.value total)

unfoldable pub verify_data_block : BlockReader → Bytes → ℕ → Result DataBlock
unfolding verify_block_id verify_crc cyclic_key
verify_data_block r buf size = do
  trailer ← unpack_trailer buf (length buf - 16)
  require (trailer.size == size) format
  verify_block_id trailer false
  verify_crc trailer (slice buf 0 size)
  ok (record {
    bytes = decode_block (slice buf 0 size) r.crypt_method (cyclic_key trailer);
    trailer = trailer;
  })

-- What `_verify_tree_block` returns.
pub record TreeBlock : Type 0 where
  pub bytes : Bytes
  pub trailer : BlockTrailer
  pub btype : ℕ
  pub level : ℕ
  pub count : ℕ
  pub fourth : ℕ

-- `expected_btype is not None and btype != expected_btype`
abbrev pub is_expected : Option ℕ → ℕ → Bool
is_expected none btype = true
is_expected (some expected) btype = btype == expected

unfoldable pub verify_tree_block : Bytes → ℕ → Option ℕ → Result TreeBlock
unfolding verify_block_id verify_crc tree_entry_size
verify_tree_block buf size expected = do
  need 8 buf 0
  require (is_expected expected (u8 buf 0)) format
  entry_size ← tree_entry_size (u8 buf 0) (u8 buf 1)
  require (leb 8 size && leb (u16 buf 2 * entry_size) (size - 8)) format
  total ← block_size (8 + u16 buf 2 * entry_size)
  let offset = size + (total - (8 + u16 buf 2 * entry_size) - 16)
  require (leb (offset + 16) (length buf)) format
  trailer ← unpack_trailer buf offset
  verify_block_id trailer true
  verify_crc trailer (slice buf 0 size)
  ok (record {
    bytes = slice buf 0 size;
    trailer = trailer;
    btype = u8 buf 0;
    level = u8 buf 1;
    count = u16 buf 2;
    fourth = u32 buf 4;
  })

unfoldable pub read_block : BlockReader → BlockRef → ℕ → Bool → Result Bytes
read_block r ref size true = do
  buf ← read_allocation r ref size
  t ← verify_tree_block buf size none
  ok t.bytes
read_block r ref size false = do
  buf ← read_allocation r ref size
  d ← verify_data_block r buf size
  ok d.bytes

unfoldable pub find : BlockReader → BlockId → Result BlockBTreeEntry
find r block = find_block r.file r.limits r.bbt block

pub data DataNode : Type 0 where
  data_node : DataBlock → DataNode
  x_node : XBlock → DataNode

-- One BID of an XBLOCK, behind the 8-byte header.
unfoldable pub unpack_child : Bytes → ℕ → Result BlockId
unpack_child buf offset = do need 8 buf (8 + offset); block_id (u64 buf (8 + offset))

-- The two shapes, by the internal bit of the B-tree entry's BID.
unfoldable pub data_shape : BlockReader → Bytes → ℕ → Bool → Result DataNode
data_shape r buf size false = do d ← verify_data_block r buf size; ok (data_node d)
data_shape r buf size true = do
  t ← verify_tree_block buf size (some 1)
  entries ← unpack_entries unpack_child t.bytes 8 t.count 0
  ok (
      x_node
        (record { level = t.level; total_size = t.fourth; entries = entries; trailer = t.trailer }))

unfoldable pub read_data_tree : BlockReader → BlockId → Result DataNode
read_data_tree r block = do
  entry ← find r block
  buf ← read_allocation r entry.block entry.size
  data_shape r buf entry.size (is_internal entry.block.block)

pub data SubNode : Type 0 where
  sub_leaf : List SubNodeLeafEntry → SubNode
  sub_intermediate : List SubNodeIntermediateEntry → SubNode

-- SLBLOCK at level 0, SIBLOCK above; the entries stand behind the 8-byte header.
unfoldable pub subnode_shape : TreeBlock → ℕ → Result SubNode
subnode_shape t (suc level) = do
  entries ← unpack_entries (λ b o. unpack_sub_intermediate b (8 + o)) t.bytes 16 t.count 0
  ok (sub_intermediate entries)
subnode_shape t level = do
  entries ← unpack_entries (λ b o. unpack_sub_leaf b (8 + o)) t.bytes 24 t.count 0
  ok (sub_leaf entries)

unfoldable pub read_subnode_block : BlockReader → BlockId → Result SubNode
read_subnode_block r block = do
  entry ← find r block
  buf ← read_allocation r entry.block entry.size
  t ← verify_tree_block buf entry.size (some 2)
  require (t.fourth == 0) format
  subnode_shape t t.level
