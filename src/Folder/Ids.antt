-- ===== src/Folder/Ids.antt =====
-- `Folder._row_ids` of src/pypstreader/messaging/folder.py: the ids that a table's rows name.
use pypst_reader.Prelude.{ℕ, zero, suc, ◌+◌, List, [], ◌∷◌}
use pypst_reader.Limits.{check_count}
use pypst_reader.Ids.NodeId.{NodeId, node_id}
use pypst_reader.TableContext.State.{Action, pure, lift, ◌>>=◌, ◌>>◌}
use pypst_reader.TableContext.{row, row_count}

-- The rows from `index` on, of which `count` are left: `index` ids have been read.
unfoldable pub ids_from : ℕ → ℕ → ℕ → Action (List NodeId)
unfolding row node_id
ids_from ceiling zero index = pure []
ids_from ceiling (suc count) index = do
  r ← row index
  lift (check_count (index + 1) ceiling)
  node ← lift (node_id r.id)
  rest ← ids_from ceiling count (index + 1)
  pure (node ∷ rest)

unfoldable pub table_ids : ℕ → Action (List NodeId)
unfolding row_count ids_from
table_ids ceiling = do count ← row_count; ids_from ceiling count 0
