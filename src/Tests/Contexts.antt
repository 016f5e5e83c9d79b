-- ===== src/Tests/Contexts.antt =====
-- The theorems on property contexts and named properties at small heaps.
use pypst_reader.Prelude.{◌≤◌, ◌<◌, ◌+◌, ◌≡◌, refl, [], ◌∷◌, some, none, false, arith}
use pypst_reader.Error.{ok}
use pypst_reader.Limits.{default_limits}
use pypst_reader.Heap.Ids.{HeapNodeType}
use pypst_reader.Heap.Coherent.{IsCoherent}
use pypst_reader.BTree.Lookup.{here}
use pypst_reader.PropType.{PropType}
use pypst_reader.PropContext.{PropertyContext, all_records, get}
use pypst_reader.PropContext.Records.{PropertyRecord}
use pypst_reader.PropContext.Sorted.{Ascending, all_records-Ascending}
use pypst_reader.PropContext.Keeps
use pypst_reader.NamedProp.Entry.{NameIdEntry, prop_id}
use pypst_reader.NamedProp.State.{NamedPropertyMap}
use pypst_reader.NamedProp.Lists.{index_entries, entry_of}
use pypst_reader.NamedProp.Streams.{bucket_count}
use pypst_reader.NamedProp.Indexed.{index_entries-In, bucket_count-bounds}
use pypst_reader.Tests.Data.{properties_block, heap_over}

abbrev context : PropertyContext
context = record {
  heap = heap_over HeapNodeType.properties 28 properties_block;
  tree = record { key_size = 2; entry_size = 6; levels = 0; root = record { raw = 0x40 } };
  limits = default_limits;
  codepage = none;
  records = none;
}

abbrev bucket_record : PropertyRecord
bucket_record = record { prop_id = 1; prop_type = PropType.long; raw = 3 }

read_records : (all_records context).0 ≡ ok (bucket_record ∷ [])
unfolding pypst_reader.Bytes.field pypst_reader.Bytes.from_bytes pypst_reader.Bytes.need
    pypst_reader.Bytes.slice pypst_reader.Heap.Ids.block_index pypst_reader.Heap.Ids.from_wire
    pypst_reader.Heap.Ids.heap_id pypst_reader.Heap.Ids.index pypst_reader.Heap.Ids.is_null
    pypst_reader.Heap.Ids.unpack_fill_levels pypst_reader.Heap.Ids.unpack_from
    pypst_reader.Heap.Ids.unpack_header pypst_reader.Heap.PageMap.block_header
    pypst_reader.Heap.PageMap.count pypst_reader.Heap.PageMap.is_bitmap_block
    pypst_reader.Heap.PageMap.offset_at pypst_reader.Heap.PageMap.parse_page_map
    pypst_reader.Heap.PageMap.scan pypst_reader.Heap.PageMap.scan_all
    pypst_reader.Heap.PageMap.words pypst_reader.Heap.block pypst_reader.Heap.block_of
    pypst_reader.Heap.cached pypst_reader.Heap.count_items pypst_reader.Heap.found_or_parse
    pypst_reader.Heap.fresh_page_map pypst_reader.Heap.get pypst_reader.Heap.item
    pypst_reader.Heap.page_map pypst_reader.HeapTree.Entries.down
    pypst_reader.HeapTree.Entries.fold_entries pypst_reader.HeapTree.Entries.leaves
    pypst_reader.HeapTree.Entries.next_level pypst_reader.HeapTree.Records.consume
    pypst_reader.HeapTree.Records.index_records pypst_reader.HeapTree.Records.leaf_records
    pypst_reader.HeapTree.page pypst_reader.Limits.add pypst_reader.Limits.check_count
    pypst_reader.Limits.contains pypst_reader.Limits.visited_set
    pypst_reader.PropContext.Records.add_record pypst_reader.PropContext.Records.has_id
    pypst_reader.PropContext.Records.insert pypst_reader.PropContext.Records.sort
    pypst_reader.PropContext.Records.unpack pypst_reader.PropContext.all_records
    pypst_reader.PropContext.cached_or_load pypst_reader.PropContext.loaded
    pypst_reader.PropType.code pypst_reader.PropType.from_wire pypst_reader.PropType.member
    pypst_reader.PropType.named
read_records = refl

all_records-Ascending_example :
    Ascending (bucket_record ∷ [])
    × (1 ≤ 65536)
    × (1 ≤ 134217728)
    × ((all_records context).1.records ≡ some (bucket_record ∷ []))
    × (all_records (all_records context).1 ≡ (ok (bucket_record ∷ []), (all_records context).1))
all_records-Ascending_example = all_records-Ascending context (bucket_record ∷ []) refl read_records

context-IsCoherent : IsCoherent context.heap
unfolding pypst_reader.Heap.cached
context-IsCoherent i m hit b at = absurd (ground arith)

get-IsCoherent_example : IsCoherent (get context 1).1.heap
get-IsCoherent_example = Keeps.get-IsCoherent context 1 context-IsCoherent

abbrev names : NamedPropertyMap
names = record {
  properties = context;
  limits = default_limits;
  guids = none;
  entries = none;
  by_prop_id = none;
  by_name = none;
}

read_bucket_count : (bucket_count names).0 ≡ ok 3
unfolding pypst_reader.BTree.Trees.find_block pypst_reader.BTree.bisect
    pypst_reader.BTree.bisect_right pypst_reader.BTree.check_intermediate pypst_reader.BTree.child
    pypst_reader.BTree.child_at pypst_reader.BTree.choose pypst_reader.BTree.find_from
    pypst_reader.BTree.find_key pypst_reader.BTree.find_leaf pypst_reader.BTree.keys_fit
    pypst_reader.BTree.read pypst_reader.BTree.read_page pypst_reader.BTree.search_page
    pypst_reader.Block.Walks.data_blocks_from pypst_reader.Block.Walks.data_fuel
    pypst_reader.Block.Walks.from_root pypst_reader.Block.Walks.get pypst_reader.Block.Walks.join
    pypst_reader.Block.Walks.mark pypst_reader.Block.Walks.on_data_node
    pypst_reader.Block.Walks.read_data pypst_reader.Block.Walks.read_data_blocks
    pypst_reader.Block.Walks.with_depth pypst_reader.Block.block_size pypst_reader.Block.cyclic_key
    pypst_reader.Block.data_shape pypst_reader.Block.find pypst_reader.Block.read_allocation
    pypst_reader.Block.read_data_tree pypst_reader.Block.tree_entry_size
    pypst_reader.Block.unpack_child pypst_reader.Block.unpack_trailer
    pypst_reader.Block.verify_block_id pypst_reader.Block.verify_crc
    pypst_reader.Block.verify_data_block pypst_reader.Block.verify_tree_block
    pypst_reader.Bytes.field pypst_reader.Bytes.from_bytes pypst_reader.Bytes.need
    pypst_reader.Bytes.slice pypst_reader.Bytes.to_bytes pypst_reader.Crc.compute_crc
    pypst_reader.Crc.compute_sig pypst_reader.Crc.crc_register pypst_reader.Crc.zlib_crc32
    pypst_reader.Encode.Tables.key_data_i pypst_reader.Encode.Tables.key_data_r
    pypst_reader.Encode.Tables.key_data_s pypst_reader.Encode.cyclic_byte
    pypst_reader.Encode.decode_block pypst_reader.Encode.decode_permute
    pypst_reader.Encode.encode_decode_cyclic pypst_reader.Encode.lookup
    pypst_reader.Heap.Ids.as_heap pypst_reader.Heap.Ids.block_index pypst_reader.Heap.Ids.from_wire
    pypst_reader.Heap.Ids.heap_id pypst_reader.Heap.Ids.index pypst_reader.Heap.Ids.is_heap
    pypst_reader.Heap.Ids.is_null pypst_reader.Heap.Ids.unpack_fill_levels
    pypst_reader.Heap.Ids.unpack_from pypst_reader.Heap.Ids.unpack_header
    pypst_reader.Heap.PageMap.block_header pypst_reader.Heap.PageMap.count
    pypst_reader.Heap.PageMap.is_bitmap_block pypst_reader.Heap.PageMap.offset_at
    pypst_reader.Heap.PageMap.parse_page_map pypst_reader.Heap.PageMap.scan
    pypst_reader.Heap.PageMap.scan_all pypst_reader.Heap.PageMap.words pypst_reader.Heap.block
    pypst_reader.Heap.block_of pypst_reader.Heap.cached pypst_reader.Heap.count_items
    pypst_reader.Heap.found_or_parse pypst_reader.Heap.fresh_page_map pypst_reader.Heap.get
    pypst_reader.Heap.get_hnid pypst_reader.Heap.item pypst_reader.Heap.item_or_sub_node
    pypst_reader.Heap.page_map pypst_reader.Heap.sub_node_data pypst_reader.HeapTree.Entries.down
    pypst_reader.HeapTree.Entries.fold_entries pypst_reader.HeapTree.Entries.leaves
    pypst_reader.HeapTree.Entries.next_level pypst_reader.HeapTree.Records.consume
    pypst_reader.HeapTree.Records.index_records pypst_reader.HeapTree.Records.leaf_records
    pypst_reader.HeapTree.page pypst_reader.Ids.BlockId.block_id pypst_reader.Ids.BlockId.byte_index
    pypst_reader.Ids.BlockId.is_internal pypst_reader.Ids.BlockId.page_id
    pypst_reader.Ids.BlockId.search_key pypst_reader.Limits.add pypst_reader.Limits.check_allocation
    pypst_reader.Limits.check_count pypst_reader.Limits.check_depth pypst_reader.Limits.contains
    pypst_reader.Limits.visited_set pypst_reader.NamedProp.Entry.name_id_entry
    pypst_reader.NamedProp.Entry.named_property_guid pypst_reader.NamedProp.Entry.unpack_entries
    pypst_reader.NamedProp.Entry.unpack_from pypst_reader.NamedProp.Lists.highest
    pypst_reader.NamedProp.Streams.as_bytes pypst_reader.NamedProp.Streams.bounded_count
    pypst_reader.NamedProp.Streams.bucket_count pypst_reader.NamedProp.Streams.cached_entries
    pypst_reader.NamedProp.Streams.check_highest pypst_reader.NamedProp.Streams.check_some_bucket
    pypst_reader.NamedProp.Streams.count_of pypst_reader.NamedProp.Streams.entries
    pypst_reader.NamedProp.Streams.entries_in pypst_reader.NamedProp.Streams.keep_entries
    pypst_reader.NamedProp.Streams.max_items pypst_reader.NamedProp.Streams.stream
    pypst_reader.NamedProp.Streams.stream_of pypst_reader.Page.Entries.block_entry_key
    pypst_reader.Page.Entries.unpack_block_entry pypst_reader.Page.Entries.unpack_intermediate
    pypst_reader.Page.check_fields pypst_reader.Page.check_trailer pypst_reader.Page.from_byte
    pypst_reader.Page.is_signed pypst_reader.Page.page_entries pypst_reader.Page.parse
    pypst_reader.Page.same_type pypst_reader.Page.signature pypst_reader.Page.unpack_entries
    pypst_reader.Page.unpack_trailer pypst_reader.Page.verify
    pypst_reader.PropContext.Records.add_record pypst_reader.PropContext.Records.find_record
    pypst_reader.PropContext.Records.has_id pypst_reader.PropContext.Records.inline_width
    pypst_reader.PropContext.Records.insert pypst_reader.PropContext.Records.is_heap_only
    pypst_reader.PropContext.Records.sort pypst_reader.PropContext.Records.unpack
    pypst_reader.PropContext.all_records pypst_reader.PropContext.cached_or_load
    pypst_reader.PropContext.decoded pypst_reader.PropContext.loaded pypst_reader.PropContext.read
    pypst_reader.PropContext.read_as pypst_reader.PropType.Decode.base_of
    pypst_reader.PropType.Decode.decode pypst_reader.PropType.Decode.decode_mv_binary
    pypst_reader.PropType.Decode.decode_mv_string8 pypst_reader.PropType.Decode.decode_mv_unicode
    pypst_reader.PropType.Decode.decode_rest pypst_reader.PropType.Filetime.filetime_to_datetime
    pypst_reader.PropType.Filetime.timedelta pypst_reader.PropType.Multi.check_count
    pypst_reader.PropType.Multi.cut pypst_reader.PropType.Multi.cut_all
    pypst_reader.PropType.Multi.decode_boolean pypst_reader.PropType.Multi.decode_float
    pypst_reader.PropType.Multi.decode_guid pypst_reader.PropType.Multi.decode_int
    pypst_reader.PropType.Multi.decode_mv_fixed pypst_reader.PropType.Multi.decode_mv_guid
    pypst_reader.PropType.Multi.decode_null pypst_reader.PropType.Multi.decode_object
    pypst_reader.PropType.Multi.decode_one pypst_reader.PropType.Multi.decode_systime
    pypst_reader.PropType.Multi.decode_text pypst_reader.PropType.Multi.each
    pypst_reader.PropType.Multi.exact pypst_reader.PropType.Multi.item_between
    pypst_reader.PropType.Multi.mv_variable_items pypst_reader.PropType.Multi.offsets
    pypst_reader.PropType.Multi.pieces pypst_reader.PropType.Text.before_nul
    pypst_reader.PropType.Text.decode_string8 pypst_reader.PropType.Text.decode_string8_bytes
    pypst_reader.PropType.Text.decode_unicode pypst_reader.PropType.Text.find_double
    pypst_reader.PropType.Text.lookup_codepage pypst_reader.PropType.Text.refused
    pypst_reader.PropType.Text.truncate pypst_reader.PropType.Text.utf_16_le
    pypst_reader.PropType.Value.signed pypst_reader.PropType.code pypst_reader.PropType.from_wire
    pypst_reader.PropType.member pypst_reader.PropType.named pypst_reader.TableContext.Info.is_long
read_bucket_count = refl

kept_records : (bucket_count names).1.properties.records ≡ some (bucket_record ∷ [])
unfolding pypst_reader.BTree.Trees.find_block pypst_reader.BTree.bisect
    pypst_reader.BTree.bisect_right pypst_reader.BTree.check_intermediate pypst_reader.BTree.child
    pypst_reader.BTree.child_at pypst_reader.BTree.choose pypst_reader.BTree.find_from
    pypst_reader.BTree.find_key pypst_reader.BTree.find_leaf pypst_reader.BTree.keys_fit
    pypst_reader.BTree.read pypst_reader.BTree.read_page pypst_reader.BTree.search_page
    pypst_reader.Block.Walks.data_blocks_from pypst_reader.Block.Walks.data_fuel
    pypst_reader.Block.Walks.from_root pypst_reader.Block.Walks.get pypst_reader.Block.Walks.join
    pypst_reader.Block.Walks.mark pypst_reader.Block.Walks.on_data_node
    pypst_reader.Block.Walks.read_data pypst_reader.Block.Walks.read_data_blocks
    pypst_reader.Block.Walks.with_depth pypst_reader.Block.block_size pypst_reader.Block.cyclic_key
    pypst_reader.Block.data_shape pypst_reader.Block.find pypst_reader.Block.read_allocation
    pypst_reader.Block.read_data_tree pypst_reader.Block.tree_entry_size
    pypst_reader.Block.unpack_child pypst_reader.Block.unpack_trailer
    pypst_reader.Block.verify_block_id pypst_reader.Block.verify_crc
    pypst_reader.Block.verify_data_block pypst_reader.Block.verify_tree_block
    pypst_reader.Bytes.field pypst_reader.Bytes.from_bytes pypst_reader.Bytes.need
    pypst_reader.Bytes.slice pypst_reader.Bytes.to_bytes pypst_reader.Crc.compute_crc
    pypst_reader.Crc.compute_sig pypst_reader.Crc.crc_register pypst_reader.Crc.zlib_crc32
    pypst_reader.Encode.Tables.key_data_i pypst_reader.Encode.Tables.key_data_r
    pypst_reader.Encode.Tables.key_data_s pypst_reader.Encode.cyclic_byte
    pypst_reader.Encode.decode_block pypst_reader.Encode.decode_permute
    pypst_reader.Encode.encode_decode_cyclic pypst_reader.Encode.lookup
    pypst_reader.Heap.Ids.as_heap pypst_reader.Heap.Ids.block_index pypst_reader.Heap.Ids.from_wire
    pypst_reader.Heap.Ids.heap_id pypst_reader.Heap.Ids.index pypst_reader.Heap.Ids.is_heap
    pypst_reader.Heap.Ids.is_null pypst_reader.Heap.Ids.unpack_fill_levels
    pypst_reader.Heap.Ids.unpack_from pypst_reader.Heap.Ids.unpack_header
    pypst_reader.Heap.PageMap.block_header pypst_reader.Heap.PageMap.count
    pypst_reader.Heap.PageMap.is_bitmap_block pypst_reader.Heap.PageMap.offset_at
    pypst_reader.Heap.PageMap.parse_page_map pypst_reader.Heap.PageMap.scan
    pypst_reader.Heap.PageMap.scan_all pypst_reader.Heap.PageMap.words pypst_reader.Heap.block
    pypst_reader.Heap.block_of pypst_reader.Heap.cached pypst_reader.Heap.count_items
    pypst_reader.Heap.found_or_parse pypst_reader.Heap.fresh_page_map pypst_reader.Heap.get
    pypst_reader.Heap.get_hnid pypst_reader.Heap.item pypst_reader.Heap.item_or_sub_node
    pypst_reader.Heap.page_map pypst_reader.Heap.sub_node_data pypst_reader.HeapTree.Entries.down
    pypst_reader.HeapTree.Entries.fold_entries pypst_reader.HeapTree.Entries.leaves
    pypst_reader.HeapTree.Entries.next_level pypst_reader.HeapTree.Records.consume
    pypst_reader.HeapTree.Records.index_records pypst_reader.HeapTree.Records.leaf_records
    pypst_reader.HeapTree.page pypst_reader.Ids.BlockId.block_id pypst_reader.Ids.BlockId.byte_index
    pypst_reader.Ids.BlockId.is_internal pypst_reader.Ids.BlockId.page_id
    pypst_reader.Ids.BlockId.search_key pypst_reader.Limits.add pypst_reader.Limits.check_allocation
    pypst_reader.Limits.check_count pypst_reader.Limits.check_depth pypst_reader.Limits.contains
    pypst_reader.Limits.visited_set pypst_reader.NamedProp.Entry.name_id_entry
    pypst_reader.NamedProp.Entry.named_property_guid pypst_reader.NamedProp.Entry.unpack_entries
    pypst_reader.NamedProp.Entry.unpack_from pypst_reader.NamedProp.Lists.highest
    pypst_reader.NamedProp.Streams.as_bytes pypst_reader.NamedProp.Streams.bounded_count
    pypst_reader.NamedProp.Streams.bucket_count pypst_reader.NamedProp.Streams.cached_entries
    pypst_reader.NamedProp.Streams.check_highest pypst_reader.NamedProp.Streams.check_some_bucket
    pypst_reader.NamedProp.Streams.count_of pypst_reader.NamedProp.Streams.entries
    pypst_reader.NamedProp.Streams.entries_in pypst_reader.NamedProp.Streams.keep_entries
    pypst_reader.NamedProp.Streams.max_items pypst_reader.NamedProp.Streams.stream
    pypst_reader.NamedProp.Streams.stream_of pypst_reader.Page.Entries.block_entry_key
    pypst_reader.Page.Entries.unpack_block_entry pypst_reader.Page.Entries.unpack_intermediate
    pypst_reader.Page.check_fields pypst_reader.Page.check_trailer pypst_reader.Page.from_byte
    pypst_reader.Page.is_signed pypst_reader.Page.page_entries pypst_reader.Page.parse
    pypst_reader.Page.same_type pypst_reader.Page.signature pypst_reader.Page.unpack_entries
    pypst_reader.Page.unpack_trailer pypst_reader.Page.verify
    pypst_reader.PropContext.Records.add_record pypst_reader.PropContext.Records.find_record
    pypst_reader.PropContext.Records.has_id pypst_reader.PropContext.Records.inline_width
    pypst_reader.PropContext.Records.insert pypst_reader.PropContext.Records.is_heap_only
    pypst_reader.PropContext.Records.sort pypst_reader.PropContext.Records.unpack
    pypst_reader.PropContext.all_records pypst_reader.PropContext.cached_or_load
    pypst_reader.PropContext.decoded pypst_reader.PropContext.loaded pypst_reader.PropContext.read
    pypst_reader.PropContext.read_as pypst_reader.PropType.Decode.base_of
    pypst_reader.PropType.Decode.decode pypst_reader.PropType.Decode.decode_mv_binary
    pypst_reader.PropType.Decode.decode_mv_string8 pypst_reader.PropType.Decode.decode_mv_unicode
    pypst_reader.PropType.Decode.decode_rest pypst_reader.PropType.Filetime.filetime_to_datetime
    pypst_reader.PropType.Filetime.timedelta pypst_reader.PropType.Multi.check_count
    pypst_reader.PropType.Multi.cut pypst_reader.PropType.Multi.cut_all
    pypst_reader.PropType.Multi.decode_boolean pypst_reader.PropType.Multi.decode_float
    pypst_reader.PropType.Multi.decode_guid pypst_reader.PropType.Multi.decode_int
    pypst_reader.PropType.Multi.decode_mv_fixed pypst_reader.PropType.Multi.decode_mv_guid
    pypst_reader.PropType.Multi.decode_null pypst_reader.PropType.Multi.decode_object
    pypst_reader.PropType.Multi.decode_one pypst_reader.PropType.Multi.decode_systime
    pypst_reader.PropType.Multi.decode_text pypst_reader.PropType.Multi.each
    pypst_reader.PropType.Multi.exact pypst_reader.PropType.Multi.item_between
    pypst_reader.PropType.Multi.mv_variable_items pypst_reader.PropType.Multi.offsets
    pypst_reader.PropType.Multi.pieces pypst_reader.PropType.Text.before_nul
    pypst_reader.PropType.Text.decode_string8 pypst_reader.PropType.Text.decode_string8_bytes
    pypst_reader.PropType.Text.decode_unicode pypst_reader.PropType.Text.find_double
    pypst_reader.PropType.Text.lookup_codepage pypst_reader.PropType.Text.refused
    pypst_reader.PropType.Text.truncate pypst_reader.PropType.Text.utf_16_le
    pypst_reader.PropType.Value.signed pypst_reader.PropType.code pypst_reader.PropType.from_wire
    pypst_reader.PropType.member pypst_reader.PropType.named pypst_reader.TableContext.Info.is_long
kept_records = refl

bucket_count-bounds_example : (1 < 0x1000 + 3) × (0x1000 + 3 ≤ 0xFFFF)
bucket_count-bounds_example =
    bucket_count-bounds names 3 (bucket_record ∷ []) bucket_record read_bucket_count kept_records
      (here [])

abbrev first_entry : NameIdEntry
first_entry = record {
  name_id = 0x8233;
  guid = record { raw = 3 };
  prop_index = 2;
  is_string = false;
}

index_first : index_entries (first_entry ∷ []) [] ≡ ok ((0x8002, first_entry) ∷ [])
unfolding pypst_reader.NamedProp.Entry.prop_id pypst_reader.NamedProp.Lists.has_entry
    pypst_reader.NamedProp.Lists.index_entries
index_first = refl

index_entries-In_example :
    entry_of ((0x8002, first_entry) ∷ []) (prop_id first_entry) ≡ some first_entry
index_entries-In_example =
    index_entries-In (first_entry ∷ []) [] ((0x8002, first_entry) ∷ []) first_entry index_first
      (here [])
