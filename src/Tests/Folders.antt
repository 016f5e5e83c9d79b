-- ===== src/Tests/Folders.antt =====
-- The theorems on folders at a small store.
use pypst_reader.Prelude.{◌≤◌, ◌≡◌, ◌+◌, [], ◌∷◌, length, none, refl}
use pypst_reader.Ids.NodeId.{NodeIdType}
use pypst_reader.Limits.{default_limits, visited_set}
use pypst_reader.Limits.Visited.{Distinct}
use pypst_reader.Encode.{CryptMethod}
use pypst_reader.Header.{Header, Version}
use pypst_reader.Root.{AmapStatus}
use pypst_reader.Heap.Ids.{HeapNodeType}
use pypst_reader.PropContext.{PropertyContext}
use pypst_reader.Trace.{yielded}
use pypst_reader.Store.Open.{Store}
use pypst_reader.Folder.{Folder}
use pypst_reader.Folder.Walk.{walk, walk_from}
use pypst_reader.Folder.Visits.{visited_ids, walk-Distinct}
use pypst_reader.Folder.Fuel.{walk_fuel}
use pypst_reader.Tests.Data.{store_root, store_reader, properties_block, heap_over}

abbrev properties : PropertyContext
properties = record {
  heap = heap_over HeapNodeType.properties 28 properties_block;
  tree = record { key_size = 2; entry_size = 6; levels = 0; root = record { raw = 0x40 } };
  limits = default_limits;
  codepage = none;
  records = none;
}

abbrev header : Header
header = record {
  version = Version.unicode;
  client_version = 19;
  crypt_method = CryptMethod.none;
  next_block = record { raw = 12 };
  next_page = record { raw = 9 };
  unique_value = 5;
  root = record {
    file_eof_index = record { value = 640 };
    amap_last_index = record { value = 0 };
    amap_free_size = record { value = 0 };
    pmap_free_size = record { value = 0 };
    node_btree = store_root;
    block_btree = store_root;
    amap_is_valid = AmapStatus.invalid;
  };
}

abbrev small_store : Store
small_store = record {
  header = header;
  reader = store_reader;
  limits = default_limits;
  codepage = none;
  properties = properties;
  named = none;
}

abbrev root_folder : Folder
root_folder = record {
  node = record { raw = 0x122 };
  properties = properties;
  tables = (NodeIdType.hierarchy_table, none) ∷ [];
}

-- A folder without a hierarchy table is the only one of its walk.
one_folder : visited_ids (walk small_store none root_folder) ≡ 0x122 ∷ []
unfolding pypst_reader.BTree.Trees.find_block pypst_reader.BTree.Trees.find_node
    pypst_reader.BTree.bisect pypst_reader.BTree.bisect_right pypst_reader.BTree.check_intermediate
    pypst_reader.BTree.child pypst_reader.BTree.child_at pypst_reader.BTree.choose
    pypst_reader.BTree.find_from pypst_reader.BTree.find_key pypst_reader.BTree.find_leaf
    pypst_reader.BTree.keys_fit pypst_reader.BTree.read pypst_reader.BTree.read_page
    pypst_reader.BTree.search_page pypst_reader.Block.Walks.data_blocks_from
    pypst_reader.Block.Walks.data_fuel pypst_reader.Block.Walks.from_root
    pypst_reader.Block.Walks.get pypst_reader.Block.Walks.has pypst_reader.Block.Walks.join
    pypst_reader.Block.Walks.mark pypst_reader.Block.Walks.next_levels
    pypst_reader.Block.Walks.on_data_node pypst_reader.Block.Walks.on_sub_node
    pypst_reader.Block.Walks.read_data pypst_reader.Block.Walks.read_data_blocks
    pypst_reader.Block.Walks.read_subnode_tree pypst_reader.Block.Walks.set_default
    pypst_reader.Block.Walks.set_defaults pypst_reader.Block.Walks.subnodes_from
    pypst_reader.Block.Walks.with_depth pypst_reader.Block.block_size pypst_reader.Block.cyclic_key
    pypst_reader.Block.data_shape pypst_reader.Block.find pypst_reader.Block.read_allocation
    pypst_reader.Block.read_data_tree pypst_reader.Block.read_subnode_block
    pypst_reader.Block.subnode_shape pypst_reader.Block.tree_entry_size
    pypst_reader.Block.unpack_child pypst_reader.Block.unpack_sub_intermediate
    pypst_reader.Block.unpack_sub_leaf pypst_reader.Block.unpack_trailer
    pypst_reader.Block.verify_block_id pypst_reader.Block.verify_crc
    pypst_reader.Block.verify_data_block pypst_reader.Block.verify_tree_block
    pypst_reader.Bytes.field pypst_reader.Bytes.from_bytes pypst_reader.Bytes.need
    pypst_reader.Bytes.slice pypst_reader.Crc.compute_crc pypst_reader.Crc.compute_sig
    pypst_reader.Crc.crc_register pypst_reader.Crc.zlib_crc32 pypst_reader.Encode.Tables.key_data_i
    pypst_reader.Encode.Tables.key_data_r pypst_reader.Encode.Tables.key_data_s
    pypst_reader.Encode.cyclic_byte pypst_reader.Encode.decode_block
    pypst_reader.Encode.decode_permute pypst_reader.Encode.encode_decode_cyclic
    pypst_reader.Encode.lookup pypst_reader.Folder.Ids.ids_from pypst_reader.Folder.Ids.table_ids
    pypst_reader.Folder.Walk.enter pypst_reader.Folder.Walk.walk pypst_reader.Folder.Walk.walk_from
    pypst_reader.Folder.cached_table pypst_reader.Folder.folder pypst_reader.Folder.is_folder
    pypst_reader.Folder.keep_table pypst_reader.Folder.open_all pypst_reader.Folder.opened_table
    pypst_reader.Folder.read_ids pypst_reader.Folder.row_ids pypst_reader.Folder.set_table
    pypst_reader.Folder.subfolder_ids pypst_reader.Folder.subfolders pypst_reader.Folder.table
    pypst_reader.Folder.table_at pypst_reader.Heap.Ids.as_heap pypst_reader.Heap.Ids.block_index
    pypst_reader.Heap.Ids.from_wire pypst_reader.Heap.Ids.heap_id pypst_reader.Heap.Ids.index
    pypst_reader.Heap.Ids.is_heap pypst_reader.Heap.Ids.unpack_fill_levels
    pypst_reader.Heap.Ids.unpack_header pypst_reader.Heap.PageMap.block_header
    pypst_reader.Heap.PageMap.count pypst_reader.Heap.PageMap.is_bitmap_block
    pypst_reader.Heap.PageMap.offset_at pypst_reader.Heap.PageMap.parse_page_map
    pypst_reader.Heap.PageMap.scan pypst_reader.Heap.PageMap.scan_all
    pypst_reader.Heap.PageMap.words pypst_reader.Heap.block pypst_reader.Heap.block_of
    pypst_reader.Heap.cached pypst_reader.Heap.count_items pypst_reader.Heap.found_or_parse
    pypst_reader.Heap.fresh_page_map pypst_reader.Heap.from_node pypst_reader.Heap.get
    pypst_reader.Heap.get_hnid pypst_reader.Heap.get_hnid_blocks pypst_reader.Heap.heap_node
    pypst_reader.Heap.item pypst_reader.Heap.item_or_sub_node pypst_reader.Heap.page_map
    pypst_reader.Heap.sub_node_data pypst_reader.HeapTree.Records.check_type
    pypst_reader.HeapTree.Records.is_key_size pypst_reader.HeapTree.Records.unpack_header
    pypst_reader.HeapTree.heap_tree pypst_reader.Ids.BlockId.block_id
    pypst_reader.Ids.BlockId.byte_index pypst_reader.Ids.BlockId.is_internal
    pypst_reader.Ids.BlockId.page_id pypst_reader.Ids.BlockId.search_key
    pypst_reader.Ids.NodeId.from_parts pypst_reader.Ids.NodeId.id_type pypst_reader.Ids.NodeId.index
    pypst_reader.Ids.NodeId.node_id pypst_reader.Ids.NodeId.some_type
    pypst_reader.Ids.NodeId.type_of_value pypst_reader.Ids.NodeId.type_value pypst_reader.Limits.add
    pypst_reader.Limits.check_allocation pypst_reader.Limits.check_count
    pypst_reader.Limits.check_depth pypst_reader.Limits.contains pypst_reader.Limits.visited_set
    pypst_reader.Page.Entries.block_entry_key pypst_reader.Page.Entries.node_entry_key
    pypst_reader.Page.Entries.parent_of pypst_reader.Page.Entries.sub_of
    pypst_reader.Page.Entries.unpack_block_entry pypst_reader.Page.Entries.unpack_intermediate
    pypst_reader.Page.Entries.unpack_node_entry pypst_reader.Page.check_fields
    pypst_reader.Page.check_trailer pypst_reader.Page.from_byte pypst_reader.Page.is_signed
    pypst_reader.Page.page_entries pypst_reader.Page.parse pypst_reader.Page.same_type
    pypst_reader.Page.signature pypst_reader.Page.unpack_entries pypst_reader.Page.unpack_trailer
    pypst_reader.Page.verify pypst_reader.PropContext.context_of
    pypst_reader.PropContext.is_properties pypst_reader.PropContext.over_tree
    pypst_reader.PropContext.property_context pypst_reader.PropType.Decode.base_of
    pypst_reader.PropType.Decode.decode pypst_reader.PropType.Decode.decode_mv_binary
    pypst_reader.PropType.Decode.decode_mv_string8 pypst_reader.PropType.Decode.decode_mv_unicode
    pypst_reader.PropType.Decode.decode_rest pypst_reader.PropType.Filetime.filetime_to_datetime
    pypst_reader.PropType.Filetime.timedelta pypst_reader.PropType.Multi.check_count
    pypst_reader.PropType.Multi.cut pypst_reader.PropType.Multi.cut_all
    pypst_reader.PropType.Multi.decode_boolean pypst_reader.PropType.Multi.decode_float
    pypst_reader.PropType.Multi.decode_guid pypst_reader.PropType.Multi.decode_int
    pypst_reader.PropType.Multi.decode_mv_fixed pypst_reader.PropType.Multi.decode_mv_guid
    pypst_reader.PropType.Multi.decode_null pypst_reader.PropType.Multi.decode_object
    pypst_reader.PropType.Multi.decode_one pypst_reader.PropType.Multi.decode_systime
    pypst_reader.PropType.Multi.decode_text pypst_reader.PropType.Multi.each
    pypst_reader.PropType.Multi.exact pypst_reader.PropType.Multi.item_between
    pypst_reader.PropType.Multi.mv_variable_items pypst_reader.PropType.Multi.offsets
    pypst_reader.PropType.Multi.pieces pypst_reader.PropType.Text.before_nul
    pypst_reader.PropType.Text.decode_string8 pypst_reader.PropType.Text.decode_string8_bytes
    pypst_reader.PropType.Text.decode_unicode pypst_reader.PropType.Text.find_double
    pypst_reader.PropType.Text.lookup_codepage pypst_reader.PropType.Text.refused
    pypst_reader.PropType.Text.truncate pypst_reader.PropType.Text.utf_16_le
    pypst_reader.PropType.Value.signed pypst_reader.PropType.code pypst_reader.PropType.from_wire
    pypst_reader.PropType.member pypst_reader.PropType.named pypst_reader.Store.Open.node_context
    pypst_reader.Store.find pypst_reader.TableContext.Cells.by_id
    pypst_reader.TableContext.Cells.cell_record pypst_reader.TableContext.Cells.check_offset
    pypst_reader.TableContext.Cells.inline_start pypst_reader.TableContext.Cells.record_of
    pypst_reader.TableContext.Info.bitmap_size pypst_reader.TableContext.Info.check_existence_bitmap
    pypst_reader.TableContext.Info.check_region pypst_reader.TableContext.Info.check_reserved
    pypst_reader.TableContext.Info.check_row_header_fits
    pypst_reader.TableContext.Info.existence_bitmap_size pypst_reader.TableContext.Info.is_long
    pypst_reader.TableContext.Info.is_table pypst_reader.TableContext.Info.row_width
    pypst_reader.TableContext.Info.shape_found pypst_reader.TableContext.Info.shape_of
    pypst_reader.TableContext.Info.unpack pypst_reader.TableContext.Info.unpack_column
    pypst_reader.TableContext.Info.unpack_columns pypst_reader.TableContext.Info.validate
    pypst_reader.TableContext.Info.validate_column pypst_reader.TableContext.Info.validate_columns
    pypst_reader.TableContext.Info.width pypst_reader.TableContext.Open.matrix_blocks
    pypst_reader.TableContext.Open.read_by_id pypst_reader.TableContext.Open.read_info
    pypst_reader.TableContext.Open.read_value pypst_reader.TableContext.RowMatrix.check_rows
    pypst_reader.TableContext.RowMatrix.last pypst_reader.TableContext.RowMatrix.matrix_of
    pypst_reader.TableContext.RowMatrix.row_bytes pypst_reader.TableContext.RowMatrix.row_count_of
    pypst_reader.TableContext.RowMatrix.row_counts pypst_reader.TableContext.RowMatrix.starts_from
    pypst_reader.TableContext.RowMatrix.total pypst_reader.TableContext.cached_matrix
    pypst_reader.TableContext.context_of pypst_reader.TableContext.keep_matrix
    pypst_reader.TableContext.put pypst_reader.TableContext.read_cell
    pypst_reader.TableContext.read_column pypst_reader.TableContext.read_columns
    pypst_reader.TableContext.read_matrix pypst_reader.TableContext.read_row
    pypst_reader.TableContext.row pypst_reader.TableContext.row_count
    pypst_reader.TableContext.table_context pypst_reader.Trace.yielded
one_folder = refl

walk-Distinct_example :
    Distinct (visited_ids (walk small_store none root_folder))
    × (length (yielded (walk small_store none root_folder)) ≤ 134217728)
walk-Distinct_example = walk-Distinct small_store none root_folder

walk_fuel_example :
    walk_from small_store 64 (3 + (2 + 134217728)) ((root_folder, 0) ∷ []) (visited_set 134217728)
    ≡ walk small_store none root_folder
walk_fuel_example = walk_fuel small_store none root_folder 3
