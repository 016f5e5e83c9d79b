-- ===== src/BTree/Trees.antt =====
-- `_leaf_entries`, `NodeBTree` and `BlockBTree` of src/pypstreader/ndb/btree.py.
use pypst_reader.Prelude.{ℕ, ◌+◌, length}
use pypst_reader.Error.{Result, ok, err, stuck}
use pypst_reader.Bytes.{Bytes}
use pypst_reader.Limits.{Limits, check_count}
use pypst_reader.Trace.{Trace, done, raised, exhausted, yield_, yield_all}
use pypst_reader.Ids.NodeId.{NodeId}
use pypst_reader.Ids.BlockId.{BlockId, search_key}
use pypst_reader.Ids.Refs.{PageRef}
use pypst_reader.Page.Entries.{
  bbt, nbt, BlockBTreeEntry, unpack_block_entry, block_entry_key, NodeBTreeEntry, unpack_node_entry,
  node_entry_key,
}
use pypst_reader.Page.{LeafKind, intermediate, leaf, BTreePage}
use pypst_reader.BTree.{find_key, pages}

module _ {E : Type 0} (limits : Limits) where
  -- The consumer of `pages` in `_leaf_entries`: `count` is what has been counted so far.
  unfoldable pub leaf_entries_from : ℕ → Trace (BTreePage E) → Trace E
  leaf_entries_from count done = done
  leaf_entries_from count (raised e) = raised e
  leaf_entries_from count exhausted = exhausted
  leaf_entries_from count (yield_ page rest) = elim page.entries [
    | intermediate es ↦ leaf_entries_from count rest
    | leaf es ↦ elim (check_count (count + length es) limits.max_items) [
      | ok u ↦ yield_all es (leaf_entries_from (count + length es) rest)
      | err e ↦ raised e
      | stuck ↦ exhausted
    ]
  ]

unfoldable pub leaf_entries : {E : Type 0} → LeafKind E → Bytes → Limits → PageRef → Trace E
unfolding leaf_entries_from
leaf_entries kind file limits root = leaf_entries_from limits 0 (pages kind file limits root)

abbrev pub node_kind : LeafKind NodeBTreeEntry
node_kind = record {
  page_type = nbt;
  entry_size = 32;
  unpack = unpack_node_entry;
  key = node_entry_key;
}

abbrev pub block_kind : LeafKind BlockBTreeEntry
block_kind = record {
  page_type = bbt;
  entry_size = 24;
  unpack = unpack_block_entry;
  key = block_entry_key;
}

-- NodeBTree(f, root, limits).find(key)
unfoldable pub find_node : Bytes → Limits → PageRef → NodeId → Result NodeBTreeEntry
find_node file limits root key = find_key node_kind file limits root key.raw

-- BlockBTree(f, root, limits).find(key): the reserved bit of the id is ignored.
unfoldable pub find_block : Bytes → Limits → PageRef → BlockId → Result BlockBTreeEntry
find_block file limits root key = find_key block_kind file limits root (search_key key)
