-- ===== src/TableContext/RowMatrix.antt =====
-- The row matrix of src/pypstreader/ltp/table_context.py: its blocks, and where each one's rows start.
use pypst_reader.Prelude.{
  ℕ, zero, suc, ◌+◌, ◌-◌, ◌*◌, ◌/◌, List, [], ◌∷◌, length, ltb, ◌==◌, if◌then◌else◌, get_or,
}
use pypst_reader.Error.{Result, ok, err, format, escaped, ◌>>=◌, ◌>>◌}
use pypst_reader.Bytes.{Bytes, slice}
use pypst_reader.Limits.{Limits, check_count}
use pypst_reader.BTree.{bisect_right}
use pypst_reader.TableContext.Info.{TableContextInfo, row_width, check_row_header_fits}

-- `_matrix`, `_counts` and `_starts`, which are set together.
pub record Matrix : Type 0 where
  pub blocks : List Bytes
  pub counts : List ℕ
  pub starts : List ℕ

-- len(block) // width: a division by zero is no error of the hierarchy.
unfoldable pub row_count_of : ℕ → Bytes → Result ℕ
row_count_of width block = if width == 0 then err escaped else ok (length block / width)

unfoldable pub row_counts : ℕ → List Bytes → Result (List ℕ)
unfolding row_count_of
row_counts width [] = ok []
row_counts width (b ∷ blocks) = do
  n ← row_count_of width b
  rest ← row_counts width blocks
  ok (n ∷ rest)

-- The rows before each block, and at last all of them.
unfoldable pub starts_from : ℕ → List ℕ → List ℕ
starts_from n [] = n ∷ []
starts_from n (c ∷ counts) = n ∷ starts_from (n + c) counts

-- `_starts[-1]`
unfoldable pub last : List ℕ → ℕ
last xs = get_or xs (length xs - 1) 0

unfoldable pub total : List Bytes → ℕ
total [] = 0
total (b ∷ blocks) = length b + total blocks

-- `check_row_header_fits` once there is a row.
unfoldable pub check_rows : TableContextInfo → ℕ → Result (Unit {0})
unfolding check_row_header_fits
check_rows info zero = ok tt
check_rows info (suc n) = check_row_header_fits info

-- `_read_matrix` once the blocks are read.
unfoldable pub matrix_of : TableContextInfo → Limits → List Bytes → Result Matrix
unfolding row_counts starts_from last check_rows row_width
matrix_of info limits blocks = do
  counts ← row_counts (row_width info) blocks
  check_rows info (last (starts_from 0 counts))
  check_count (last (starts_from 0 counts)) limits.max_items
  ok (record { blocks = blocks; counts = counts; starts = starts_from 0 counts })

-- `_row_bytes` once the matrix is read.
unfoldable pub row_bytes : Matrix → ℕ → ℕ → Result Bytes
unfolding last
row_bytes m width index =
    if ltb index (last m.starts)
    then (let block = bisect_right m.starts index - 1 in
        ok (slice (get_or m.blocks block []) ((index - get_or m.starts block 0) * width) width))
    else err format
