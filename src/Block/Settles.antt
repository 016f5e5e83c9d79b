-- ===== src/Block/Settles.antt =====
-- Reading one block ends.
use pypst_reader.Prelude.{ℕ, zero, suc, ◌+◌, Bool, true, false, Option}
use pypst_reader.Error.Settles.{Settles, settle_rules}
use pypst_reader.Bytes.{Bytes}
use pypst_reader.Ids.BlockId.{BlockId}
use pypst_reader.Ids.Refs.{BlockRef}
use pypst_reader.Page.Settles.{field_rules, unpack_entries-Settles, unpack_block_entry-Settles}
use pypst_reader.BTree.Bounded.{find_key-Settles}
use pypst_reader.BTree.Trees.{find_block, block_kind}
use pypst_reader.Block.{
  BlockReader, BlockTrailer, TreeBlock, block_size, unpack_trailer, verify_block_id, verify_crc,
  tree_entry_size, read_allocation, verify_data_block, verify_tree_block, find, unpack_child,
  data_shape, read_data_tree, unpack_sub_leaf, unpack_sub_intermediate, subnode_shape,
  read_subnode_block,
}

block_size-Settles : (size : ℕ) → Settles (block_size size)
unfolding block_size
block_size-Settles size = search settle_rules

unpack_trailer-Settles : (buf : Bytes) (offset : ℕ) → Settles (unpack_trailer buf offset)
unfolding unpack_trailer
unpack_trailer-Settles buf offset = search field_rules depth 9

verify_block_id-Settles : (t : BlockTrailer) (b : Bool) → Settles (verify_block_id t b)
unfolding verify_block_id
verify_block_id-Settles t b = search settle_rules

verify_crc-Settles : (t : BlockTrailer) (bs : Bytes) → Settles (verify_crc t bs)
unfolding verify_crc
verify_crc-Settles t bs = search settle_rules

tree_entry_size-Settles : (b l : ℕ) → Settles (tree_entry_size b l)
unfolding tree_entry_size
tree_entry_size-Settles b l = search settle_rules

ruleset block_rules = (
  field_rules, block_size-Settles, unpack_trailer-Settles, verify_block_id-Settles,
  verify_crc-Settles, tree_entry_size-Settles,
)

read_allocation-Settles :
    (r : BlockReader) (ref : BlockRef) (size : ℕ) → Settles (read_allocation r ref size)
unfolding read_allocation
read_allocation-Settles r ref size = search block_rules depth 9

verify_data_block-Settles :
    (r : BlockReader) (buf : Bytes) (size : ℕ) → Settles (verify_data_block r buf size)
unfolding verify_data_block
verify_data_block-Settles r buf size = search block_rules depth 12

verify_tree_block-Settles :
    (buf : Bytes) (size : ℕ) (expected : Option ℕ) → Settles (verify_tree_block buf size expected)
unfolding verify_tree_block
verify_tree_block-Settles buf size expected = search block_rules depth 20

find-Settles : (r : BlockReader) (block : BlockId) → Settles (find r block)
unfolding find find_block
find-Settles r block =
    find_key-Settles block_kind unpack_block_entry-Settles r.file r.limits r.bbt _

unpack_child-Settles : (buf : Bytes) (offset : ℕ) → Settles (unpack_child buf offset)
unfolding unpack_child
unpack_child-Settles buf offset = search field_rules

unpack_sub_leaf-Settles : (buf : Bytes) (offset : ℕ) → Settles (unpack_sub_leaf buf offset)
unfolding unpack_sub_leaf
unpack_sub_leaf-Settles buf offset = search field_rules depth 12

unpack_sub_intermediate-Settles :
    (buf : Bytes) (offset : ℕ) → Settles (unpack_sub_intermediate buf offset)
unfolding unpack_sub_intermediate
unpack_sub_intermediate-Settles buf offset = search field_rules depth 12

data_shape-Settles :
    (r : BlockReader) (buf : Bytes) (size : ℕ) (b : Bool) → Settles (data_shape r buf size b)
unfolding data_shape
data_shape-Settles r buf size true =
    search (block_rules, verify_tree_block-Settles, unpack_entries-Settles, unpack_child-Settles)
      depth 9
data_shape-Settles r buf size false = search (block_rules, verify_data_block-Settles)

pub read_data_tree-Settles : (r : BlockReader) (block : BlockId) → Settles (read_data_tree r block)
unfolding read_data_tree
read_data_tree-Settles r block =
    search (block_rules, find-Settles, read_allocation-Settles, data_shape-Settles) depth 9

subnode_shape-Settles : (t : TreeBlock) (level : ℕ) → Settles (subnode_shape t level)
unfolding subnode_shape
subnode_shape-Settles t (suc level) =
    search
      (
        block_rules,
        unpack_entries-Settles,
        λ (b : Bytes) (o : ℕ). unpack_sub_intermediate-Settles b (8 + o),
      )
      depth 9
subnode_shape-Settles t zero =
    search
      (
        block_rules,
        unpack_entries-Settles,
        λ (b : Bytes) (o : ℕ). unpack_sub_leaf-Settles b (8 + o),
      )
      depth 9

pub read_subnode_block-Settles :
    (r : BlockReader) (block : BlockId) → Settles (read_subnode_block r block)
unfolding read_subnode_block
read_subnode_block-Settles r block =
    search
      (
        block_rules, find-Settles, read_allocation-Settles, verify_tree_block-Settles,
        subnode_shape-Settles,
      )
      depth 12
