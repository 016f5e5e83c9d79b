-- ===== src/TableContext/Cells.antt =====
-- `CellRecord`, `_cell_record` and `_check_offset` of src/pypstreader/ltp/table_context.py.
use pypst_reader.Prelude.{
  ℕ, ◌+◌, Bool, false, ◌&&◌, ◌||◌, [], ltb, ◌==◌, if◌then◌else◌, Option, none, some,
}
use pypst_reader.Error.{Result, ok, err, format, ◌>>=◌, ◌>>◌}
use pypst_reader.Bytes.{Bytes, need, u32, slice}
use pypst_reader.Ids.NodeId.{NodeId}
use pypst_reader.Heap.Ids.{HeapId, HeapNodeId, is_heap}
use pypst_reader.TableContext.Info.{
  ColumnDescriptor, TableContextInfo, Shape, shape_of, is_long, one_byte, two_byte, four_byte,
  eight_byte, by_hnid,
}

pub data CellKind : Type 0 where
  small heap node : CellKind

pub record CellRecord : Type 0 where
  pub kind : CellKind
  pub raw : ℕ
  pub data_bytes : Bytes

unfoldable pub hnid : CellRecord → Option HeapNodeId
hnid r = elim r.kind [
  | small ↦ none
  | heap ↦ some (record { raw = r.raw })
  | node ↦ some (record { raw = r.raw })
]

unfoldable pub heap_of : CellRecord → Option HeapId
heap_of r = elim r.kind [ small ↦ none | heap ↦ some (record { raw = r.raw }) | node ↦ none ]

unfoldable pub node_of : CellRecord → Option NodeId
node_of r = elim r.kind [ small ↦ none | heap ↦ none | node ↦ some (record { raw = r.raw }) ]

unfoldable pub is_null : CellRecord → Bool
is_null r = elim r.kind [ small ↦ false | heap ↦ r.raw == 0 | node ↦ r.raw == 0 ]

unfoldable pub check_offset : ColumnDescriptor → ℕ → ℕ → Result ℕ
check_offset c low high =
    if ltb c.offset low || ltb high (c.offset + c.size) then err format else ok c.offset

abbrev pub inline_cell : Bytes → ColumnDescriptor → ℕ → Result CellRecord
inline_cell row c start = ok (record { kind = small; raw = 0; data_bytes = slice row start c.size })

-- HEAP if the id is one of the heap, else NODE.
unfoldable pub by_id : ℕ → CellRecord
unfolding is_heap
by_id raw = record {
  kind = if is_heap (record { raw = raw }) then heap else node;
  raw = raw;
  data_bytes = [];
}

-- The offset of an inline cell, in the order of the source's tests.
unfoldable pub inline_start : TableContextInfo → ColumnDescriptor → Shape → Result ℕ
unfolding check_offset is_long
inline_start info c one_byte = check_offset c info.end_2byte info.end_1byte
inline_start info c two_byte = check_offset c info.end_4byte info.end_2byte
inline_start info c shape =
    if is_long c.prop_type && (c.offset == 0 || c.offset == 4)
    then ok c.offset
    else check_offset c 8 info.end_4byte

unfoldable pub record_of :
    TableContextInfo → Bytes → ColumnDescriptor → Option Shape → Result CellRecord
unfolding check_offset by_id inline_start
record_of info row c (some by_hnid) = do
  start ← check_offset c 8 info.end_4byte
  need 4 row start
  ok (by_id (u32 row start))
record_of info row c (some one_byte) = do
  start ← inline_start info c one_byte
  inline_cell row c start
record_of info row c (some two_byte) = do
  start ← inline_start info c two_byte
  inline_cell row c start
record_of info row c (some four_byte) = do
  start ← inline_start info c four_byte
  inline_cell row c start
record_of info row c (some eight_byte) = do
  start ← inline_start info c eight_byte
  inline_cell row c start
record_of info row c none = do start ← inline_start info c eight_byte; inline_cell row c start

-- `_cell_record`
unfoldable pub cell_record : TableContextInfo → Bytes → ColumnDescriptor → Result CellRecord
unfolding record_of shape_of
cell_record info row c = record_of info row c (shape_of c.prop_type)
