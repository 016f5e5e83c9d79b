-- ===== src/HeapTree.antt =====
-- src/pypstreader/ltp/tree.py: the B-tree on heap, a map from fixed-size keys to values.
--
-- An operation is an action of the heap's state, since it reads pages through `HeapNode.get`. A
-- page is cut into its records as the source's range over it counts them. The tree's own state is
-- its header, read once.
pub mod Records
pub mod Entries
pub mod Actions
pub mod Keeps
pub mod Walk
pub mod Values
use pypst_reader.Prelude.{
  ℕ, zero, suc, ◌+◌, ◌/◌, ◌%◌, List, ◌==◌, length, if◌then◌else◌, Option, none, some,
}
use pypst_reader.Error.{format, require}
use pypst_reader.Bytes.{Bytes, from_bytes}
use pypst_reader.Limits.{VisitedSet, visited_set, add, check_depth}
use pypst_reader.Heap.Ids.{HeapId, is_null}
use pypst_reader.Heap.State.{Action, pure, lift, ◌>>=◌, ◌>>◌}
use pypst_reader.Heap.{get}
use pypst_reader.HeapTree.Records.{
  HeapTreeHeader, unpack_header, record_count, index_records, leaf_records, choose_child,
  find_record,
}

-- HeapTree(heap, root): the header is read through the heap, and its levels are bounded.
unfoldable pub heap_tree : HeapId → Action HeapTreeHeader
heap_tree root h =
    (do
      item ← get root
      header ← lift (unpack_header item)
      lift (check_depth header.levels h.limits.max_heap_tree_depth)
      pure header)
      h

-- `_page`: the item, a whole number of records, and the visited set with its id.
unfoldable pub page : HeapId → ℕ → VisitedSet → Action (Bytes × VisitedSet)
page hid record_size visited = do
  visited' ← lift (add visited hid.raw)
  bytes ← get hid
  lift (require (length bytes % record_size == 0) format)
  pure (bytes, visited')

module _ (header : HeapTreeHeader) (key : Bytes) where
  -- The leaf page that the descent ends on.
  unfoldable pub find_in_leaf : HeapId → VisitedSet → Action (Option Bytes)
  unfolding find_record
  find_in_leaf hid visited = do
    p ← page hid (header.key_size + header.entry_size) visited
    pure (
        find_record key (
          leaf_records header.key_size header.entry_size p.0
            (record_count (length p.0) (header.key_size + header.entry_size)) 0))

  -- A level of the descent, and the levels below.
  unfoldable pub on_chosen :
      Option HeapId → (HeapId → Action (Option Bytes)) → Action (Option Bytes)
  on_chosen none next = pure none
  on_chosen (some hid) next = next hid

  unfoldable pub descend : ℕ → HeapId → VisitedSet → Action (Option Bytes)
  descend zero hid visited = find_in_leaf hid visited
  descend (suc level) hid visited = do
    p ← page hid (header.key_size + 4) visited
    records ←
        lift (index_records header.key_size p.0 (record_count (length p.0) (header.key_size + 4)) 0)
    on_chosen (choose_child (from_bytes key) none records) (λ child. descend level child p.1)

  unfoldable pub find : Action (Option Bytes)
  find h =
      (do
        lift (require (length key == header.key_size) format)
        if is_null header.root
            then pure none
            else descend header.levels header.root (visited_set h.limits.max_items))
        h
