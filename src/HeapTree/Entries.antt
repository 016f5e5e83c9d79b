-- ===== src/HeapTree/Entries.antt =====
-- `HeapTree.__iter__` and `entries` of src/pypstreader/ltp/tree.py: every record, level by level.
--
-- A loop over the generator is a fold: the body `step` runs on a record before the next page is
-- read, and an error of the body ends the walk there.
use pypst_reader.Prelude.{ℕ, zero, suc, ◌+◌, List, [], ◌∷◌, ◌++◌, map, length, if◌then◌else◌}
use pypst_reader.Error.{Result, ok}
use pypst_reader.Bytes.{Bytes}
use pypst_reader.Limits.{VisitedSet, visited_set, check_count}
use pypst_reader.Heap.Ids.{HeapId, is_null}
use pypst_reader.Heap.State.{Action, pure, lift, ◌>>=◌, ◌>>◌}
use pypst_reader.HeapTree.Records.{
  HeapTreeHeader, record_count, index_records, leaf_records, consume,
}
use pypst_reader.HeapTree.{page}

abbrev pub child_of : Bytes × HeapId → HeapId
child_of r = r.1

module _ (header : HeapTreeHeader) (max_items : ℕ) where
  -- The children of the pages of one level, in order.
  unfoldable pub next_level : List HeapId → VisitedSet → Action (List HeapId × VisitedSet)
  next_level [] visited = pure ([], visited)
  next_level (hid ∷ pages) visited = do
    p ← page hid (header.key_size + 4) visited
    records ←
        lift (index_records header.key_size p.0 (record_count (length p.0) (header.key_size + 4)) 0)
    q ← next_level pages p.1
    pure (map child_of records ++ q.0, q.1)

  -- for _level in range(header.levels)
  unfoldable pub down : ℕ → List HeapId → VisitedSet → Action (List HeapId × VisitedSet)
  down zero pages visited = pure (pages, visited)
  down (suc level) pages visited = do
    q ← next_level pages visited
    lift (check_count (length q.0) max_items)
    down level q.0 q.1

  -- The loop over the leaf pages, with the number of records so far.
  unfoldable pub leaves {ℓ} :
      {S : Type ℓ} → (S → Bytes × Bytes → Result S) → List HeapId → VisitedSet → ℕ → S → Action S
  leaves step [] visited count s = pure s
  leaves step (hid ∷ pages) visited count s = do
    p ← page hid (header.key_size + header.entry_size) visited
    let stride = header.key_size + header.entry_size
    let records =
        leaf_records header.key_size header.entry_size p.0 (record_count (length p.0) stride) 0
    lift (check_count (count + length records) max_items)
    s' ← lift (consume step records s)
    leaves step pages p.1 (count + length records) s'

-- for key, value in tree: s = step(s, (key, value))
unfoldable pub fold_entries {ℓ} :
    {S : Type ℓ} → HeapTreeHeader → (S → Bytes × Bytes → Result S) → S → Action S
fold_entries header step s h =
    (if is_null header.root then pure s else (do
      q ←
          down header h.limits.max_items header.levels (header.root ∷ [])
            (visited_set h.limits.max_items)
      leaves header h.limits.max_items step q.0 q.1 0 s))
      h

abbrev pub keep_record : List (Bytes × Bytes) → Bytes × Bytes → Result (List (Bytes × Bytes))
keep_record found r = ok (found ++ r ∷ [])

-- list(self)
unfoldable pub entries : HeapTreeHeader → Action (List (Bytes × Bytes))
unfolding fold_entries
entries header = fold_entries header keep_record []
