-- ===== src/Tests/Blocks.antt =====
-- The theorems on blocks at the small store.
use pypst_reader.Prelude.{ℕ, ◌+◌, ◌%◌, ◌<◌, ◌≤◌, ◌≡◌, refl, List, [], ◌∷◌, length, ◌⊎◌, none}
use pypst_reader.Error.{ok, err, format}
use pypst_reader.Error.Settles.{Settles}
use pypst_reader.Bytes.{Bytes, IsBytes, slice, u16, u64}
use pypst_reader.Limits.{default_limits}
use pypst_reader.Encode.{CryptMethod}
use pypst_reader.Ids.NodeId.{NodeId}
use pypst_reader.Ids.BlockId.{BlockId, is_internal}
use pypst_reader.Page
use pypst_reader.Page.{BTreePage, PageEntries}
use pypst_reader.Page.Entries.{BlockBTreeEntry, PageType}
use pypst_reader.BTree.{find_key, bisect_right, pages}
use pypst_reader.BTree.Trees.{block_kind, leaf_entries}
use pypst_reader.Block.{block_size, DataNode, DataBlock, SubNodeLeafEntry, read_data_tree}
use pypst_reader.Block.Size.{is_x, data_length, block_size_exact, read_data_tree_shape}
use pypst_reader.Block.Walks
use pypst_reader.Block.Walks.{read_data_blocks, read_data, read_subnode_tree, set_defaults}
use pypst_reader.Block.Data.{read_data_blocks-Settles, length-read_data}
use pypst_reader.Block.Subnode.{Unique, read_subnode_tree-Settles, read_subnode_tree-Unique}
use pypst_reader.Tests.Data.{store_reader}

block_size_exact_example :
    ((1 ≤ 5)
      × (5 ≤ 8176)
      × (total : ℕ) × (block_size 5 ≡ ok total)
      × (total % 64 ≡ 0)
      × (5 + 16 ≤ total)
      × (total < 5 + 16 + 64)
      × (total ≤ 8192))
    ⊎ (((5 < 1) ⊎ (8176 < 5)) × (block_size 5 ≡ err format))
block_size_exact_example = block_size_exact 5

abbrev hello_id : BlockId
hello_id = record { raw = 8 }

abbrev hello : Bytes
hello = 104 ∷ 101 ∷ 108 ∷ 108 ∷ 111 ∷ []

abbrev hello_node : DataNode
hello_node = DataNode.data_node (record {
  bytes = hello;
  trailer = record { size = 5; signature = 520; crc = 4029829531; block_id = hello_id };
})

read_hello_tree : read_data_tree store_reader hello_id ≡ ok hello_node
unfolding pypst_reader.BTree.Trees.find_block pypst_reader.BTree.bisect
    pypst_reader.BTree.bisect_right pypst_reader.BTree.check_intermediate pypst_reader.BTree.child
    pypst_reader.BTree.child_at pypst_reader.BTree.choose pypst_reader.BTree.find_from
    pypst_reader.BTree.find_key pypst_reader.BTree.find_leaf pypst_reader.BTree.keys_fit
    pypst_reader.BTree.read pypst_reader.BTree.read_page pypst_reader.BTree.search_page
    pypst_reader.Block.block_size pypst_reader.Block.cyclic_key pypst_reader.Block.data_shape
    pypst_reader.Block.find pypst_reader.Block.read_allocation pypst_reader.Block.read_data_tree
    pypst_reader.Block.tree_entry_size pypst_reader.Block.unpack_child
    pypst_reader.Block.unpack_trailer pypst_reader.Block.verify_block_id
    pypst_reader.Block.verify_crc pypst_reader.Block.verify_data_block
    pypst_reader.Block.verify_tree_block pypst_reader.Bytes.field pypst_reader.Bytes.from_bytes
    pypst_reader.Bytes.need pypst_reader.Bytes.slice pypst_reader.Crc.compute_crc
    pypst_reader.Crc.compute_sig pypst_reader.Crc.crc_register pypst_reader.Crc.zlib_crc32
    pypst_reader.Encode.Tables.key_data_i pypst_reader.Encode.Tables.key_data_r
    pypst_reader.Encode.Tables.key_data_s pypst_reader.Encode.cyclic_byte
    pypst_reader.Encode.decode_block pypst_reader.Encode.decode_permute
    pypst_reader.Encode.encode_decode_cyclic pypst_reader.Encode.lookup
    pypst_reader.Ids.BlockId.block_id pypst_reader.Ids.BlockId.byte_index
    pypst_reader.Ids.BlockId.is_internal pypst_reader.Ids.BlockId.page_id
    pypst_reader.Ids.BlockId.search_key pypst_reader.Limits.add pypst_reader.Limits.check_depth
    pypst_reader.Limits.contains pypst_reader.Limits.visited_set
    pypst_reader.Page.Entries.block_entry_key pypst_reader.Page.Entries.unpack_block_entry
    pypst_reader.Page.Entries.unpack_intermediate pypst_reader.Page.check_fields
    pypst_reader.Page.check_trailer pypst_reader.Page.from_byte pypst_reader.Page.is_signed
    pypst_reader.Page.page_entries pypst_reader.Page.parse pypst_reader.Page.same_type
    pypst_reader.Page.signature pypst_reader.Page.unpack_entries pypst_reader.Page.unpack_trailer
    pypst_reader.Page.verify
read_hello_tree = refl

read_data_tree_shape_example :
    (is_x hello_node ≡ is_internal hello_id)
    × (1 ≤ data_length hello_node)
    × (data_length hello_node ≤ 8176)
read_data_tree_shape_example = read_data_tree_shape store_reader hello_id hello_node read_hello_tree

read_data_blocks-Settles_example : Settles (read_data_blocks store_reader hello_id)
read_data_blocks-Settles_example = read_data_blocks-Settles store_reader hello_id

read_hello : read_data store_reader hello_id ≡ ok hello
unfolding pypst_reader.BTree.Trees.find_block pypst_reader.BTree.bisect
    pypst_reader.BTree.bisect_right pypst_reader.BTree.check_intermediate pypst_reader.BTree.child
    pypst_reader.BTree.child_at pypst_reader.BTree.choose pypst_reader.BTree.find_from
    pypst_reader.BTree.find_key pypst_reader.BTree.find_leaf pypst_reader.BTree.keys_fit
    pypst_reader.BTree.read pypst_reader.BTree.read_page pypst_reader.BTree.search_page
    pypst_reader.Block.Walks.data_blocks_from pypst_reader.Block.Walks.data_fuel
    pypst_reader.Block.Walks.from_root pypst_reader.Block.Walks.join pypst_reader.Block.Walks.mark
    pypst_reader.Block.Walks.on_data_node pypst_reader.Block.Walks.read_data
    pypst_reader.Block.Walks.read_data_blocks pypst_reader.Block.Walks.with_depth
    pypst_reader.Block.block_size pypst_reader.Block.cyclic_key pypst_reader.Block.data_shape
    pypst_reader.Block.find pypst_reader.Block.read_allocation pypst_reader.Block.read_data_tree
    pypst_reader.Block.tree_entry_size pypst_reader.Block.unpack_child
    pypst_reader.Block.unpack_trailer pypst_reader.Block.verify_block_id
    pypst_reader.Block.verify_crc pypst_reader.Block.verify_data_block
    pypst_reader.Block.verify_tree_block pypst_reader.Bytes.field pypst_reader.Bytes.from_bytes
    pypst_reader.Bytes.need pypst_reader.Bytes.slice pypst_reader.Crc.compute_crc
    pypst_reader.Crc.compute_sig pypst_reader.Crc.crc_register pypst_reader.Crc.zlib_crc32
    pypst_reader.Encode.Tables.key_data_i pypst_reader.Encode.Tables.key_data_r
    pypst_reader.Encode.Tables.key_data_s pypst_reader.Encode.cyclic_byte
    pypst_reader.Encode.decode_block pypst_reader.Encode.decode_permute
    pypst_reader.Encode.encode_decode_cyclic pypst_reader.Encode.lookup
    pypst_reader.Ids.BlockId.block_id pypst_reader.Ids.BlockId.byte_index
    pypst_reader.Ids.BlockId.is_internal pypst_reader.Ids.BlockId.page_id
    pypst_reader.Ids.BlockId.search_key pypst_reader.Limits.add pypst_reader.Limits.check_allocation
    pypst_reader.Limits.check_depth pypst_reader.Limits.contains pypst_reader.Limits.visited_set
    pypst_reader.Page.Entries.block_entry_key pypst_reader.Page.Entries.unpack_block_entry
    pypst_reader.Page.Entries.unpack_intermediate pypst_reader.Page.check_fields
    pypst_reader.Page.check_trailer pypst_reader.Page.from_byte pypst_reader.Page.is_signed
    pypst_reader.Page.page_entries pypst_reader.Page.parse pypst_reader.Page.same_type
    pypst_reader.Page.signature pypst_reader.Page.unpack_entries pypst_reader.Page.unpack_trailer
    pypst_reader.Page.verify
read_hello = refl

length-read_data_example :
    (length hello ≤ 8176) ⊎ (length hello ≤ store_reader.limits.max_allocation)
length-read_data_example = length-read_data store_reader hello_id hello read_hello

abbrev subnode_id : BlockId
subnode_id = record { raw = 10 }

abbrev subnodes : List SubNodeLeafEntry
subnodes = record { node = record { raw = 0x671 }; data_block = hello_id; sub_node = none } ∷ []

read_subnodes : read_subnode_tree store_reader subnode_id ≡ ok subnodes
unfolding pypst_reader.BTree.Trees.find_block pypst_reader.BTree.bisect
    pypst_reader.BTree.bisect_right pypst_reader.BTree.check_intermediate pypst_reader.BTree.child
    pypst_reader.BTree.child_at pypst_reader.BTree.choose pypst_reader.BTree.find_from
    pypst_reader.BTree.find_key pypst_reader.BTree.find_leaf pypst_reader.BTree.keys_fit
    pypst_reader.BTree.read pypst_reader.BTree.read_page pypst_reader.BTree.search_page
    pypst_reader.Block.Walks.has pypst_reader.Block.Walks.next_levels
    pypst_reader.Block.Walks.on_sub_node pypst_reader.Block.Walks.read_subnode_tree
    pypst_reader.Block.Walks.set_default pypst_reader.Block.Walks.set_defaults
    pypst_reader.Block.Walks.subnodes_from pypst_reader.Block.block_size pypst_reader.Block.find
    pypst_reader.Block.read_allocation pypst_reader.Block.read_subnode_block
    pypst_reader.Block.subnode_shape pypst_reader.Block.tree_entry_size
    pypst_reader.Block.unpack_sub_intermediate pypst_reader.Block.unpack_sub_leaf
    pypst_reader.Block.unpack_trailer pypst_reader.Block.verify_block_id
    pypst_reader.Block.verify_crc pypst_reader.Block.verify_tree_block pypst_reader.Bytes.field
    pypst_reader.Bytes.from_bytes pypst_reader.Bytes.need pypst_reader.Bytes.slice
    pypst_reader.Crc.compute_crc pypst_reader.Crc.compute_sig pypst_reader.Crc.crc_register
    pypst_reader.Crc.zlib_crc32 pypst_reader.Ids.BlockId.block_id
    pypst_reader.Ids.BlockId.byte_index pypst_reader.Ids.BlockId.is_internal
    pypst_reader.Ids.BlockId.page_id pypst_reader.Ids.BlockId.search_key
    pypst_reader.Ids.NodeId.node_id pypst_reader.Limits.add pypst_reader.Limits.check_count
    pypst_reader.Limits.check_depth pypst_reader.Limits.contains pypst_reader.Limits.visited_set
    pypst_reader.Page.Entries.block_entry_key pypst_reader.Page.Entries.sub_of
    pypst_reader.Page.Entries.unpack_block_entry pypst_reader.Page.Entries.unpack_intermediate
    pypst_reader.Page.check_fields pypst_reader.Page.check_trailer pypst_reader.Page.from_byte
    pypst_reader.Page.is_signed pypst_reader.Page.page_entries pypst_reader.Page.parse
    pypst_reader.Page.same_type pypst_reader.Page.signature pypst_reader.Page.unpack_entries
    pypst_reader.Page.unpack_trailer pypst_reader.Page.verify
read_subnodes = refl

read_subnode_tree-Settles_example : Settles (read_subnode_tree store_reader subnode_id)
read_subnode_tree-Settles_example = read_subnode_tree-Settles store_reader subnode_id

read_subnode_tree-Unique_example :
    Unique subnodes × (length subnodes ≤ store_reader.limits.max_items)
read_subnode_tree-Unique_example =
    read_subnode_tree-Unique store_reader subnode_id subnodes read_subnodes

abbrev some_node : NodeId
some_node = record { raw = 0x671 }
