-- ===== src/Tests/Tables.antt =====
-- The theorems on table contexts at small tables.
use pypst_reader.Prelude.{
  ℕ, ◌≡◌, ◌≢◌, refl, ◌⊎◌, ◌↔◌, ◌%◌, List, [], ◌∷◌, length, Bool, true, false, some, none,
}
use pypst_reader.Error.{Result, ok, err, stuck, format, escaped}
use pypst_reader.Bytes.{Bytes}
use pypst_reader.Limits.{default_limits}
use pypst_reader.Heap.Ids.{HeapNodeType}
use pypst_reader.BTree.Lookup.{here}
use pypst_reader.PropType.{PropType}
use pypst_reader.PropType.Value.{PropValue, Scalar, pos}
use pypst_reader.TableContext.Info.{
  ColumnDescriptor, TableContextInfo, unpack, validate, row_width, shape_of, check_existence_bitmap,
}
use pypst_reader.TableContext.RowMatrix.{Matrix, matrix_of, row_bytes}
use pypst_reader.TableContext.Starts.{rows_of}
use pypst_reader.TableContext.RowBytes.{row_at, row_bytes-rows_of}
use pypst_reader.TableContext.Cells.{CellRecord, small, cell_record}
use pypst_reader.TableContext.Validated.{
  is_in_header, cell_record-Outcome, check_existence_bitmap-Regions,
}
use pypst_reader.TableContext.Width.{matrix_of-escaped}
use pypst_reader.TableContext.State.{TableContext}
use pypst_reader.TableContext.{TableRow, table_context, row_index, find_row, row}
use pypst_reader.TableContext.Indexed.{find_row-row}
use pypst_reader.Tests.Data.{table_block, heap_over}

abbrev find_in : ℕ → Result TableContext → Result TableRow
find_in i (ok c) = (find_row i c).0
find_in i (err e) = err e
find_in i stuck = stuck

abbrev cell_of : Bytes → CellRecord
cell_of bs = record { kind = small; raw = 0; data_bytes = bs }

-- The whole way from the heap to the row.
find_seven :
    find_in 7 (table_context (heap_over HeapNodeType.table 76 table_block) none none)
    ≡ ok (record {
      id = 7;
      unique = 1;
      cells =
          (0x67F2, PropValue.one (Scalar.int (pos 7)))
          ∷ (0x67F3, PropValue.one (Scalar.int (pos 1)))
          ∷ [];
      records = some (cell_of (7 ∷ 0 ∷ 0 ∷ 0 ∷ [])) ∷ some (cell_of (1 ∷ 0 ∷ 0 ∷ 0 ∷ [])) ∷ [];
    })
unfolding pypst_reader.BTree.Trees.find_block pypst_reader.BTree.bisect
    pypst_reader.BTree.bisect_right pypst_reader.BTree.check_intermediate pypst_reader.BTree.child
    pypst_reader.BTree.child_at pypst_reader.BTree.choose pypst_reader.BTree.find_from
    pypst_reader.BTree.find_key pypst_reader.BTree.find_leaf pypst_reader.BTree.keys_fit
    pypst_reader.BTree.read pypst_reader.BTree.read_page pypst_reader.BTree.search_page
    pypst_reader.Block.Walks.data_blocks_from pypst_reader.Block.Walks.data_fuel
    pypst_reader.Block.Walks.from_root pypst_reader.Block.Walks.get pypst_reader.Block.Walks.join
    pypst_reader.Block.Walks.mark pypst_reader.Block.Walks.on_data_node
    pypst_reader.Block.Walks.read_data pypst_reader.Block.Walks.read_data_blocks
    pypst_reader.Block.Walks.with_depth pypst_reader.Block.block_size pypst_reader.Block.cyclic_key
    pypst_reader.Block.data_shape pypst_reader.Block.find pypst_reader.Block.read_allocation
    pypst_reader.Block.read_data_tree pypst_reader.Block.tree_entry_size
    pypst_reader.Block.unpack_child pypst_reader.Block.unpack_trailer
    pypst_reader.Block.verify_block_id pypst_reader.Block.verify_crc
    pypst_reader.Block.verify_data_block pypst_reader.Block.verify_tree_block
    pypst_reader.Bytes.field pypst_reader.Bytes.from_bytes pypst_reader.Bytes.need
    pypst_reader.Bytes.slice pypst_reader.Crc.compute_crc pypst_reader.Crc.compute_sig
    pypst_reader.Crc.crc_register pypst_reader.Crc.zlib_crc32 pypst_reader.Encode.Tables.key_data_i
    pypst_reader.Encode.Tables.key_data_r pypst_reader.Encode.Tables.key_data_s
    pypst_reader.Encode.cyclic_byte pypst_reader.Encode.decode_block
    pypst_reader.Encode.decode_permute pypst_reader.Encode.encode_decode_cyclic
    pypst_reader.Encode.lookup pypst_reader.Heap.Ids.as_heap pypst_reader.Heap.Ids.block_index
    pypst_reader.Heap.Ids.from_wire pypst_reader.Heap.Ids.heap_id pypst_reader.Heap.Ids.index
    pypst_reader.Heap.Ids.is_heap pypst_reader.Heap.Ids.is_null
    pypst_reader.Heap.Ids.unpack_fill_levels pypst_reader.Heap.Ids.unpack_from
    pypst_reader.Heap.Ids.unpack_header pypst_reader.Heap.PageMap.block_header
    pypst_reader.Heap.PageMap.count pypst_reader.Heap.PageMap.is_bitmap_block
    pypst_reader.Heap.PageMap.offset_at pypst_reader.Heap.PageMap.parse_page_map
    pypst_reader.Heap.PageMap.scan pypst_reader.Heap.PageMap.scan_all
    pypst_reader.Heap.PageMap.words pypst_reader.Heap.block pypst_reader.Heap.block_of
    pypst_reader.Heap.cached pypst_reader.Heap.count_items pypst_reader.Heap.found_or_parse
    pypst_reader.Heap.fresh_page_map pypst_reader.Heap.get pypst_reader.Heap.get_hnid
    pypst_reader.Heap.get_hnid_blocks pypst_reader.Heap.item pypst_reader.Heap.item_or_sub_node
    pypst_reader.Heap.page_map pypst_reader.Heap.sub_node_data pypst_reader.HeapTree.Entries.down
    pypst_reader.HeapTree.Entries.fold_entries pypst_reader.HeapTree.Entries.leaves
    pypst_reader.HeapTree.Entries.next_level pypst_reader.HeapTree.Records.check_type
    pypst_reader.HeapTree.Records.consume pypst_reader.HeapTree.Records.index_records
    pypst_reader.HeapTree.Records.is_key_size pypst_reader.HeapTree.Records.leaf_records
    pypst_reader.HeapTree.Records.unpack_header pypst_reader.HeapTree.heap_tree
    pypst_reader.HeapTree.page pypst_reader.Ids.BlockId.block_id pypst_reader.Ids.BlockId.byte_index
    pypst_reader.Ids.BlockId.is_internal pypst_reader.Ids.BlockId.page_id
    pypst_reader.Ids.BlockId.search_key pypst_reader.Limits.add pypst_reader.Limits.check_allocation
    pypst_reader.Limits.check_count pypst_reader.Limits.check_depth pypst_reader.Limits.contains
    pypst_reader.Limits.visited_set pypst_reader.Page.Entries.block_entry_key
    pypst_reader.Page.Entries.unpack_block_entry pypst_reader.Page.Entries.unpack_intermediate
    pypst_reader.Page.check_fields pypst_reader.Page.check_trailer pypst_reader.Page.from_byte
    pypst_reader.Page.is_signed pypst_reader.Page.page_entries pypst_reader.Page.parse
    pypst_reader.Page.same_type pypst_reader.Page.signature pypst_reader.Page.unpack_entries
    pypst_reader.Page.unpack_trailer pypst_reader.Page.verify pypst_reader.PropType.Decode.base_of
    pypst_reader.PropType.Decode.decode pypst_reader.PropType.Decode.decode_mv_binary
    pypst_reader.PropType.Decode.decode_mv_string8 pypst_reader.PropType.Decode.decode_mv_unicode
    pypst_reader.PropType.Decode.decode_rest pypst_reader.PropType.Filetime.filetime_to_datetime
    pypst_reader.PropType.Filetime.timedelta pypst_reader.PropType.Multi.check_count
    pypst_reader.PropType.Multi.cut pypst_reader.PropType.Multi.cut_all
    pypst_reader.PropType.Multi.decode_boolean pypst_reader.PropType.Multi.decode_float
    pypst_reader.PropType.Multi.decode_guid pypst_reader.PropType.Multi.decode_int
    pypst_reader.PropType.Multi.decode_mv_fixed pypst_reader.PropType.Multi.decode_mv_guid
    pypst_reader.PropType.Multi.decode_null pypst_reader.PropType.Multi.decode_object
    pypst_reader.PropType.Multi.decode_one pypst_reader.PropType.Multi.decode_systime
    pypst_reader.PropType.Multi.decode_text pypst_reader.PropType.Multi.each
    pypst_reader.PropType.Multi.exact pypst_reader.PropType.Multi.item_between
    pypst_reader.PropType.Multi.mv_variable_items pypst_reader.PropType.Multi.offsets
    pypst_reader.PropType.Multi.pieces pypst_reader.PropType.Text.before_nul
    pypst_reader.PropType.Text.decode_string8 pypst_reader.PropType.Text.decode_string8_bytes
    pypst_reader.PropType.Text.decode_unicode pypst_reader.PropType.Text.find_double
    pypst_reader.PropType.Text.lookup_codepage pypst_reader.PropType.Text.refused
    pypst_reader.PropType.Text.truncate pypst_reader.PropType.Text.utf_16_le
    pypst_reader.PropType.Value.signed pypst_reader.PropType.code pypst_reader.PropType.from_wire
    pypst_reader.PropType.member pypst_reader.PropType.named pypst_reader.TableContext.Cells.by_id
    pypst_reader.TableContext.Cells.cell_record pypst_reader.TableContext.Cells.check_offset
    pypst_reader.TableContext.Cells.inline_start pypst_reader.TableContext.Cells.record_of
    pypst_reader.TableContext.Info.bitmap_size pypst_reader.TableContext.Info.check_existence_bitmap
    pypst_reader.TableContext.Info.check_region pypst_reader.TableContext.Info.check_reserved
    pypst_reader.TableContext.Info.check_row_header_fits
    pypst_reader.TableContext.Info.existence_bitmap_size pypst_reader.TableContext.Info.is_long
    pypst_reader.TableContext.Info.is_table pypst_reader.TableContext.Info.row_width
    pypst_reader.TableContext.Info.shape_found pypst_reader.TableContext.Info.shape_of
    pypst_reader.TableContext.Info.unpack pypst_reader.TableContext.Info.unpack_column
    pypst_reader.TableContext.Info.unpack_columns pypst_reader.TableContext.Info.validate
    pypst_reader.TableContext.Info.validate_column pypst_reader.TableContext.Info.validate_columns
    pypst_reader.TableContext.Info.width pypst_reader.TableContext.Open.matrix_blocks
    pypst_reader.TableContext.Open.read_by_id pypst_reader.TableContext.Open.read_info
    pypst_reader.TableContext.Open.read_value pypst_reader.TableContext.RowIndex.add_row
    pypst_reader.TableContext.RowIndex.is_row pypst_reader.TableContext.RowIndex.ordinal
    pypst_reader.TableContext.RowMatrix.check_rows pypst_reader.TableContext.RowMatrix.last
    pypst_reader.TableContext.RowMatrix.matrix_of pypst_reader.TableContext.RowMatrix.row_bytes
    pypst_reader.TableContext.RowMatrix.row_count_of pypst_reader.TableContext.RowMatrix.row_counts
    pypst_reader.TableContext.RowMatrix.starts_from pypst_reader.TableContext.RowMatrix.total
    pypst_reader.TableContext.cached_index pypst_reader.TableContext.cached_matrix
    pypst_reader.TableContext.find_row pypst_reader.TableContext.keep_index
    pypst_reader.TableContext.keep_matrix pypst_reader.TableContext.put
    pypst_reader.TableContext.read_cell pypst_reader.TableContext.read_column
    pypst_reader.TableContext.read_columns pypst_reader.TableContext.read_matrix
    pypst_reader.TableContext.read_row pypst_reader.TableContext.row
    pypst_reader.TableContext.row_found pypst_reader.TableContext.row_index
    pypst_reader.TableContext.table_context
find_seven = refl

-- A table of one binary column, in the first eight bytes of a row.
abbrev early_column : ColumnDescriptor
early_column = record {
  prop_type = PropType.binary;
  prop_id = 0x0FF9;
  offset = 4;
  size = 4;
  existence_bit = 0;
}

abbrev early_info : TableContextInfo
early_info = record {
  end_4byte = 8;
  end_2byte = 8;
  end_1byte = 8;
  end_bitmap = 9;
  row_index = record { raw = 0x40 };
  rows = none;
  deprecated_index = 0;
  columns = early_column ∷ [];
}

accepts_early : validate early_info ≡ ok tt
unfolding pypst_reader.TableContext.Info.bitmap_size pypst_reader.TableContext.Info.check_region
    pypst_reader.TableContext.Info.check_reserved
    pypst_reader.TableContext.Info.existence_bitmap_size pypst_reader.TableContext.Info.is_long
    pypst_reader.TableContext.Info.shape_found pypst_reader.TableContext.Info.shape_of
    pypst_reader.TableContext.Info.validate pypst_reader.TableContext.Info.validate_column
    pypst_reader.TableContext.Info.validate_columns pypst_reader.TableContext.Info.width
accepts_early = refl

abbrev early_row : Bytes
early_row = 7 ∷ 0 ∷ 0 ∷ 0 ∷ 32 ∷ 0 ∷ 0 ∷ 0 ∷ 128 ∷ []

early_row_size : length early_row ≡ row_width early_info
unfolding pypst_reader.TableContext.Info.row_width
early_row_size = refl

cell_record-Outcome_example :
    ((is_in_header early_column (shape_of PropType.binary) ≡ true)
      × (cell_record early_info early_row early_column ≡ err format))
    ⊎ ((is_in_header early_column (shape_of PropType.binary) ≡ false)
        × (r : CellRecord) × (cell_record early_info early_row early_column ≡ ok r))
cell_record-Outcome_example =
    cell_record-Outcome early_info early_column early_row accepts_early (here []) early_row_size

early_bitmap_size : 9 ≡ row_width early_info
unfolding pypst_reader.TableContext.Info.row_width
early_bitmap_size = refl

check_existence_bitmap-Regions_example :
    ((early_column.existence_bit ≡ length early_info.columns)
      × (length early_info.columns % 8 ≡ 0)
      × (check_existence_bitmap 0 (128 ∷ []) ≡ err format))
    ⊎ (((early_column.existence_bit ≢ length early_info.columns)
          ⊎ (length early_info.columns % 8 ≢ 0))
        × (b : Bool) × (check_existence_bitmap 0 (128 ∷ []) ≡ ok b))
check_existence_bitmap-Regions_example =
    check_existence_bitmap-Regions early_info early_column (128 ∷ []) accepts_early (here [])
      early_bitmap_size

-- Two blocks: two rows and two bytes that are left over, and one row.
abbrev two_blocks : List Bytes
two_blocks =
    (1 ∷ 0 ∷ 0 ∷ 0 ∷ 0 ∷ 0 ∷ 0 ∷ 0 ∷ 0 ∷ 2 ∷ 0 ∷ 0 ∷ 0 ∷ 0 ∷ 0 ∷ 0 ∷ 0 ∷ 0 ∷ 9 ∷ 9 ∷ [])
    ∷ early_row
    ∷ []

abbrev two_blocks_matrix : Matrix
two_blocks_matrix = record { blocks = two_blocks; counts = 2 ∷ 1 ∷ []; starts = 0 ∷ 2 ∷ 3 ∷ [] }

read_two_blocks : matrix_of early_info default_limits two_blocks ≡ ok two_blocks_matrix
unfolding pypst_reader.Limits.check_count pypst_reader.TableContext.Info.check_row_header_fits
    pypst_reader.TableContext.Info.row_width pypst_reader.TableContext.RowMatrix.check_rows
    pypst_reader.TableContext.RowMatrix.last pypst_reader.TableContext.RowMatrix.matrix_of
    pypst_reader.TableContext.RowMatrix.row_count_of pypst_reader.TableContext.RowMatrix.row_counts
    pypst_reader.TableContext.RowMatrix.starts_from
read_two_blocks = refl

row_bytes-rows_of_example :
    row_bytes two_blocks_matrix (row_width early_info) 2
    ≡ row_at (rows_of (row_width early_info) two_blocks) 2
row_bytes-rows_of_example =
    row_bytes-rows_of early_info default_limits two_blocks two_blocks_matrix 2 read_two_blocks

row_two : row_bytes two_blocks_matrix 9 2 ≡ ok early_row
unfolding pypst_reader.BTree.bisect pypst_reader.BTree.bisect_right pypst_reader.Bytes.slice
    pypst_reader.TableContext.RowMatrix.last pypst_reader.TableContext.RowMatrix.row_bytes
row_two = refl

-- A schema without columns, whose rows have no bytes: it is read and accepted.
abbrev empty_schema : Bytes
empty_schema =
    124 ∷ 0 ∷ 0 ∷ 0 ∷ 0 ∷ 0 ∷ 0 ∷ 0 ∷ 0 ∷ 0 ∷ 64 ∷ 0 ∷ 0 ∷ 0 ∷ 128 ∷ 0 ∷ 0 ∷ 0 ∷ 0 ∷ 0 ∷ 0 ∷ 0 ∷ []

abbrev empty_info : TableContextInfo
empty_info = record {
  end_4byte = 0;
  end_2byte = 0;
  end_1byte = 0;
  end_bitmap = 0;
  row_index = record { raw = 0x40 };
  rows = some (record { raw = 0x80 });
  deprecated_index = 0;
  columns = [];
}

accepts_empty : unpack empty_schema ≡ ok empty_info
unfolding pypst_reader.Bytes.field pypst_reader.Bytes.from_bytes pypst_reader.Bytes.need
    pypst_reader.Bytes.slice pypst_reader.Heap.Ids.from_wire pypst_reader.Heap.Ids.heap_id
    pypst_reader.PropType.code pypst_reader.PropType.from_wire pypst_reader.PropType.member
    pypst_reader.PropType.named pypst_reader.TableContext.Info.bitmap_size
    pypst_reader.TableContext.Info.check_region pypst_reader.TableContext.Info.check_reserved
    pypst_reader.TableContext.Info.existence_bitmap_size pypst_reader.TableContext.Info.is_long
    pypst_reader.TableContext.Info.is_table pypst_reader.TableContext.Info.shape_found
    pypst_reader.TableContext.Info.shape_of pypst_reader.TableContext.Info.unpack
    pypst_reader.TableContext.Info.unpack_column pypst_reader.TableContext.Info.unpack_columns
    pypst_reader.TableContext.Info.validate pypst_reader.TableContext.Info.validate_column
    pypst_reader.TableContext.Info.validate_columns pypst_reader.TableContext.Info.width
accepts_empty = refl

abbrev one_block : List Bytes
one_block = (1 ∷ []) ∷ []

matrix_of-escaped_example :
    (matrix_of empty_info default_limits one_block ≡ err escaped)
    ↔ ((row_width empty_info ≡ 0) × (one_block ≢ []))
matrix_of-escaped_example = matrix_of-escaped empty_info default_limits one_block

abbrev table : TableContext
table = record {
  heap = heap_over HeapNodeType.table 76 table_block;
  limits = default_limits;
  codepage = none;
  info = early_info;
  tree = record { key_size = 4; entry_size = 4; levels = 0; root = record { raw = 0x60 } };
  index = none;
  matrix = none;
}

read_index : (row_index table).0 ≡ ok ((7, 0) ∷ [])
unfolding pypst_reader.Bytes.field pypst_reader.Bytes.from_bytes pypst_reader.Bytes.need
    pypst_reader.Bytes.slice pypst_reader.Heap.Ids.block_index pypst_reader.Heap.Ids.from_wire
    pypst_reader.Heap.Ids.heap_id pypst_reader.Heap.Ids.index pypst_reader.Heap.Ids.is_null
    pypst_reader.Heap.Ids.unpack_fill_levels pypst_reader.Heap.Ids.unpack_from
    pypst_reader.Heap.Ids.unpack_header pypst_reader.Heap.PageMap.block_header
    pypst_reader.Heap.PageMap.count pypst_reader.Heap.PageMap.is_bitmap_block
    pypst_reader.Heap.PageMap.offset_at pypst_reader.Heap.PageMap.parse_page_map
    pypst_reader.Heap.PageMap.scan pypst_reader.Heap.PageMap.scan_all
    pypst_reader.Heap.PageMap.words pypst_reader.Heap.block pypst_reader.Heap.block_of
    pypst_reader.Heap.cached pypst_reader.Heap.count_items pypst_reader.Heap.found_or_parse
    pypst_reader.Heap.fresh_page_map pypst_reader.Heap.get pypst_reader.Heap.item
    pypst_reader.Heap.page_map pypst_reader.HeapTree.Entries.down
    pypst_reader.HeapTree.Entries.fold_entries pypst_reader.HeapTree.Entries.leaves
    pypst_reader.HeapTree.Entries.next_level pypst_reader.HeapTree.Records.consume
    pypst_reader.HeapTree.Records.index_records pypst_reader.HeapTree.Records.leaf_records
    pypst_reader.HeapTree.page pypst_reader.Limits.add pypst_reader.Limits.check_count
    pypst_reader.Limits.contains pypst_reader.Limits.visited_set
    pypst_reader.TableContext.RowIndex.add_row pypst_reader.TableContext.RowIndex.is_row
    pypst_reader.TableContext.cached_index pypst_reader.TableContext.keep_index
    pypst_reader.TableContext.row_index
read_index = refl

find_row-row_example : find_row 7 table ≡ row 0 (row_index table).1
find_row-row_example = find_row-row table ((7, 0) ∷ []) (7, 0) refl read_index (here [])
