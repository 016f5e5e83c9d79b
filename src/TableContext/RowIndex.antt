-- ===== src/TableContext/RowIndex.antt =====
-- The dictionary of the property `row_index` of src/pypstreader/ltp/table_context.py: its keys are
-- row ids, and its values the rows' ordinals in the matrix.
use pypst_reader.Prelude.{
  ℕ, ◌+◌, Bool, true, false, List, [], ◌∷◌, ◌++◌, length, ◌==◌, not, if◌then◌else◌, Option, none,
  some,
}
use pypst_reader.Error.{Result, ok, format, require, ◌>>◌}
use pypst_reader.Bytes.{Bytes, need, u32}
use pypst_reader.Limits.{check_count}

-- found.get(row_id)
unfoldable pub ordinal : List (ℕ × ℕ) → ℕ → Option ℕ
ordinal [] row_id = none
ordinal ((k, v) ∷ rest) row_id = if k == row_id then some v else ordinal rest row_id

-- `row_id in found`
unfoldable pub is_row : List (ℕ × ℕ) → ℕ → Bool
is_row [] row_id = false
is_row ((k, v) ∷ rest) row_id = if k == row_id then true else is_row rest row_id

-- The body of the loop over the tree.
unfoldable pub add_row : ℕ → List (ℕ × ℕ) → Bytes × Bytes → Result (List (ℕ × ℕ))
unfolding is_row
add_row ceiling found (key, value) = do
  need 4 key 0
  need 4 value 0
  require (not (is_row found (u32 key 0))) format
  check_count (length found + 1) ceiling
  ok (found ++ (u32 key 0, u32 value 0) ∷ [])
