-- ===== src/TableContext/Open.antt =====
-- What a table context of src/pypstreader/ltp/table_context.py reads through its heap.
use pypst_reader.Prelude.{ℕ, zero, suc, ◌&&◌, List, [], ◌==◌, Option, none, some}
use pypst_reader.Error.{format, require}
use pypst_reader.Bytes.{Bytes}
use pypst_reader.Limits.{Limits, check_allocation}
use pypst_reader.Heap.Ids.{HeapId, HeapNodeId}
use pypst_reader.Heap.State.{Action, pure, lift, ◌>>=◌, ◌>>◌}
use pypst_reader.Heap.{get, get_hnid, get_hnid_blocks}
use pypst_reader.HeapTree.Records.{HeapTreeHeader}
use pypst_reader.HeapTree.{heap_tree}
use pypst_reader.PropType.{PropType}
use pypst_reader.PropType.Value.{PropValue, Scalar, Codec}
use pypst_reader.PropType.Decode.{decode}
use pypst_reader.TableContext.Info.{TableContextInfo, unpack}
use pypst_reader.TableContext.RowMatrix.{total}
use pypst_reader.TableContext.Cells.{CellRecord, small, heap, node}

-- The TCINFO and the row index's tree, as `__init__` reads them.
unfoldable pub read_info : HeapId → Action (TableContextInfo × HeapTreeHeader)
unfolding heap_tree unpack
read_info user_root = do
  item ← get user_root
  info ← lift (unpack item)
  tree ← heap_tree info.row_index
  lift (require (tree.key_size == 4 && tree.entry_size == 4) format)
  pure (info, tree)

-- The matrix's blocks: none for a table without a matrix.
unfoldable pub matrix_blocks : Limits → Option HeapNodeId → Action (List Bytes)
unfolding total get_hnid_blocks
matrix_blocks limits none = pure []
matrix_blocks limits (some hnid) = do
  blocks ← get_hnid_blocks hnid
  lift (check_allocation (total blocks) limits.max_allocation)
  pure blocks

-- The value that an id names; none for the id 0.
unfoldable pub read_by_id : Option Codec → ℕ → PropType → ℕ → Action PropValue
unfolding get_hnid decode
read_by_id codepage max_items t zero = pure (PropValue.one Scalar.nothing)
read_by_id codepage max_items t (suc raw) = do
  bytes ← get_hnid (record { raw = suc raw })
  lift (decode codepage max_items t bytes)

-- `read_cell`
unfoldable pub read_value : Option Codec → ℕ → CellRecord → PropType → Action PropValue
unfolding read_by_id
read_value codepage max_items r t = elim r.kind [
  | small ↦ lift (decode codepage max_items t r.data_bytes)
  | heap ↦ read_by_id codepage max_items t r.raw
  | node ↦ read_by_id codepage max_items t r.raw
]
