-- ===== src/TableContext.antt =====
-- src/pypstreader/ltp/table_context.py: the rows of one node.
--
-- A context is its state: an operation takes it and returns its result with the context after it,
-- an error included. The blocks' page maps, the row index and the row matrix are kept once read.
pub mod Info
pub mod RowMatrix
pub mod RowIndex
pub mod Starts
pub mod RowBytes
pub mod Validated
pub mod Width
pub mod Indexed
pub mod Cells
pub mod Open
pub mod State
use pypst_reader.Prelude.{
  ℕ, zero, suc, ◌+◌, ◌-◌, Bool, true, false, List, [], ◌∷◌, ◌++◌, length, ◌==◌, not, if◌then◌else◌,
  Option, none, some,
}
use pypst_reader.Error.{Result, ok, err, stuck, format, not_found}
use pypst_reader.Bytes.{Bytes, need, u32, slice}
use pypst_reader.Limits.{Limits, check_count}
use pypst_reader.Ids.BlockId.{BlockId}
use pypst_reader.Block.{BlockReader}
use pypst_reader.Heap.State.{HeapNode}
use pypst_reader.Heap.{from_node, or_limits}
use pypst_reader.HeapTree.Records.{HeapTreeHeader}
use pypst_reader.HeapTree.Entries.{fold_entries}
use pypst_reader.PropType.{PropType}
use pypst_reader.PropType.Value.{PropValue, Codec}
use pypst_reader.TableContext.Info.{
  ColumnDescriptor, TableContextInfo, is_table, check_existence_bitmap, row_width,
}
use pypst_reader.TableContext.RowMatrix.{Matrix, matrix_of, last, row_bytes}
use pypst_reader.TableContext.RowIndex.{add_row, ordinal}
use pypst_reader.TableContext.Cells.{CellRecord, cell_record}
use pypst_reader.TableContext.Open.{read_info, matrix_blocks, read_value}
use pypst_reader.TableContext.State.{TableContext, Action, pure, lift, in_heap, ◌>>=◌, ◌>>◌}

opened :
    Limits
    → Option Codec
    → Result (TableContextInfo × HeapTreeHeader) × HeapNode
    → Result TableContext
opened limits codepage (ok (info, tree), h) = ok (record {
  heap = h;
  limits = limits;
  codepage = codepage;
  info = info;
  tree = tree;
  index = none;
  matrix = none;
})
opened limits codepage (err e, h) = err e
opened limits codepage (stuck, h) = stuck

-- TableContext(heap, limits, codepage=…)
unfoldable pub table_context : HeapNode → Option Limits → Option Codec → Result TableContext
unfolding is_table opened read_info
table_context h limits codepage =
    if is_table h.header.client_signature
    then opened (or_limits limits h.limits) codepage (read_info h.header.user_root h)
    else err format

-- TableContext.from_node(reader, entry, limits, codepage=…)
unfoldable pub context_of :
    BlockReader → BlockId → Option BlockId → Option Limits → Option Codec → Result TableContext
unfolding table_context
context_of reader data_block sub_node limits codepage =
    elim (from_node reader data_block sub_node limits) [
      | ok h ↦ table_context h limits codepage
      | err e ↦ err e
      | stuck ↦ stuck
    ]

-- The row index after the loop that reads it.
unfoldable pub keep_index : List (ℕ × ℕ) → Action (List (ℕ × ℕ))
keep_index found c = (ok found, record c { index = some found })

unfoldable pub cached_index : Option (List (ℕ × ℕ)) → Action (List (ℕ × ℕ))
unfolding fold_entries keep_index
cached_index (some found) c = (ok found, c)
cached_index none c =
    (do found ← in_heap (fold_entries c.tree (add_row c.limits.max_items) []); keep_index found) c

-- The property `row_index`.
unfoldable pub row_index : Action (List (ℕ × ℕ))
unfolding cached_index
row_index c = cached_index c.index c

unfoldable pub keep_matrix : Matrix → Action Matrix
keep_matrix m c = (ok m, record c { matrix = some m })

unfoldable pub cached_matrix : Option Matrix → Action Matrix
unfolding matrix_blocks matrix_of keep_matrix
cached_matrix (some m) c = (ok m, c)
cached_matrix none c =
    (do
      blocks ← in_heap (matrix_blocks c.limits c.info.rows)
      m ← lift (matrix_of c.info c.limits blocks)
      keep_matrix m)
      c

-- `_read_matrix`
unfoldable pub read_matrix : Action Matrix
unfolding cached_matrix
read_matrix c = cached_matrix c.matrix c

unfoldable pub row_count : Action ℕ
unfolding read_matrix last
row_count = do m ← read_matrix; pure (last m.starts)

pub record TableRow : Type 0 where
  pub id : ℕ
  pub unique : ℕ
  pub cells : List (ℕ × PropValue)
  pub records : List (Option CellRecord)

-- cells[prop_id] = value: a key that is there keeps its place.
unfoldable pub put : ℕ → PropValue → List (ℕ × PropValue) → List (ℕ × PropValue)
put i v [] = (i, v) ∷ []
put i v ((k, w) ∷ rest) = if k == i then (k, v) ∷ rest else (k, w) ∷ put i v rest

-- The cells and records so far.
abbrev pub Cells : Type 0
Cells = List (ℕ × PropValue) × List (Option CellRecord)

unfoldable pub read_cell : CellRecord → PropType → Action PropValue
unfolding read_value
read_cell r t c = in_heap (read_value c.codepage c.limits.max_mv_items r t) c

-- The body of the loop over the columns, once the existence bit is known.
unfoldable pub read_column : Bytes → ColumnDescriptor → Cells → Bool → Action Cells
unfolding cell_record read_cell put
read_column row column (cells, records) false c = (ok (cells, records ++ none ∷ []), c)
read_column row column (cells, records) true c =
    (do
      r ← lift (cell_record c.info row column)
      v ← read_cell r column.prop_type
      pure (put column.prop_id v cells, records ++ some r ∷ []))
      c

unfoldable pub read_columns : Bytes → Bytes → List ColumnDescriptor → Cells → Action Cells
unfolding read_column check_existence_bitmap
read_columns row bitmap [] found = pure found
read_columns row bitmap (column ∷ columns) found = do
  present ← lift (check_existence_bitmap column.existence_bit bitmap)
  found' ← read_column row column found present
  read_columns row bitmap columns found'

-- `_read_row`
unfoldable pub read_row : Bytes → Action TableRow
unfolding read_columns
read_row row c =
    (do
      lift (need 8 row 0)
      let bitmap = slice row c.info.end_1byte (c.info.end_bitmap - c.info.end_1byte)
      found ← read_columns row bitmap c.info.columns ([], [])
      pure (record { id = u32 row 0; unique = u32 row 4; cells = found.0; records = found.1 }))
      c

unfoldable pub row : ℕ → Action TableRow
unfolding read_matrix row_bytes row_width read_row
row index c =
    (do m ← read_matrix; bytes ← lift (row_bytes m (row_width c.info) index); read_row bytes) c

-- The rows from `index` on: `count` of them.
unfoldable pub rows_from : ℕ → ℕ → Action (List TableRow)
unfolding row
rows_from zero index = pure []
rows_from (suc count) index = do r ← row index; rest ← rows_from count (index + 1); pure (r ∷ rest)

-- list(self.rows())
unfoldable pub rows : Action (List TableRow)
unfolding row_count rows_from
rows = do count ← row_count; rows_from count 0

unfoldable pub row_found : Option ℕ → Action TableRow
unfolding row
row_found none = lift (err not_found)
row_found (some index) = row index

unfoldable pub find_row : ℕ → Action TableRow
unfolding row_index ordinal row_found
find_row row_id = do index ← row_index; row_found (ordinal index row_id)
