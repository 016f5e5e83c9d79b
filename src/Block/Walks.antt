-- ===== src/Block/Walks.antt =====
-- The walks of src/pypstreader/ndb/block.py over a data tree and over a subnode tree. They run on
-- fuel, and `stuck` stands for fuel that ran out.
use pypst_reader.Prelude.{
  ℕ, zero, suc, ◌+◌, Bool, true, false, ◌||◌, List, [], ◌∷◌, ◌++◌, length, ◌==◌, if◌then◌else◌,
  Option, none, some,
}
use pypst_reader.Error.{Result, ok, stuck, ◌>>=◌, ◌>>◌}
use pypst_reader.Bytes.{Bytes}
use pypst_reader.Limits.{VisitedSet, visited_set, add, check_depth, check_count, check_allocation}
use pypst_reader.Ids.NodeId.{NodeId}
use pypst_reader.Ids.BlockId.{BlockId, is_internal, search_key}
use pypst_reader.Page.Entries.{NodeBTreeEntry}
use pypst_reader.Block.{
  BlockReader, DataNode, data_node, x_node, read_data_tree, SubNodeLeafEntry,
  SubNodeIntermediateEntry, SubNode, sub_leaf, sub_intermediate, read_subnode_block,
}

unfoldable pub with_depth : List BlockId → ℕ → List (BlockId × ℕ)
with_depth [] depth = []
with_depth (b ∷ bs) depth = (b, depth) ∷ with_depth bs depth

-- An internal block is bounded and marked before it is read.
unfoldable pub mark : BlockReader → BlockId → ℕ → VisitedSet → Bool → Result VisitedSet
mark r child depth visited false = ok visited
mark r child depth visited true = do
  check_depth depth r.limits.max_xblock_depth
  add visited (search_key child)

-- What the loop does with a node: `push` goes on with an internal block's children on the stack,
-- `next` with one more part.
unfoldable pub on_data_node :
    BlockReader
    → DataNode
    → List Bytes
    → ℕ
    → (List BlockId → Result (List Bytes))
    → (List Bytes → ℕ → Result (List Bytes))
    → Result (List Bytes)
on_data_node r (x_node x) parts assembled push next = push x.entries
on_data_node r (data_node d) parts assembled push next = do
  check_allocation (assembled + length d.bytes) r.limits.max_allocation
  next (parts ++ d.bytes ∷ []) (assembled + length d.bytes)

unfoldable pub data_blocks_from :
    BlockReader → ℕ → List (BlockId × ℕ) → VisitedSet → List Bytes → ℕ → Result (List Bytes)
unfolding with_depth
data_blocks_from r zero stack visited parts assembled = stuck
data_blocks_from r (suc fuel) [] visited parts assembled = ok parts
data_blocks_from r (suc fuel) ((child, depth) ∷ stack) visited parts assembled = do
  visited' ← mark r child depth visited (is_internal child)
  node ← read_data_tree r child
  on_data_node r node parts assembled
      (λ children.
        data_blocks_from r fuel (with_depth children (depth + 1) ++ stack) visited' parts assembled)
      (λ parts' assembled'. data_blocks_from r fuel stack visited' parts' assembled')

-- Each round marks a block or assembles a byte.
unfoldable pub data_fuel : BlockReader → ℕ
data_fuel r = r.limits.max_items + r.limits.max_allocation + 2

unfoldable pub from_root : BlockReader → BlockId → DataNode → Result (List Bytes)
from_root r block (data_node d) = ok (d.bytes ∷ [])
from_root r block (x_node x) = do
  check_allocation x.total_size r.limits.max_allocation
  visited ← add (visited_set r.limits.max_items) (search_key block)
  data_blocks_from r (data_fuel r) (with_depth x.entries 2) visited [] 0

unfoldable pub read_data_blocks : BlockReader → BlockId → Result (List Bytes)
unfolding from_root
read_data_blocks r block = do root ← read_data_tree r block; from_root r block root

-- b"".join(parts)
unfoldable pub join : List Bytes → Bytes
join [] = []
join (b ∷ bs) = b ++ join bs

unfoldable pub read_data : BlockReader → BlockId → Result Bytes
unfolding join
read_data r block = do parts ← read_data_blocks r block; ok (join parts)

-- A dict keyed by the entries' nodes, in the order of insertion.
unfoldable pub get : List SubNodeLeafEntry → NodeId → Option SubNodeLeafEntry
get [] n = none
get (e ∷ es) n = if e.node.raw == n.raw then some e else get es n

unfoldable pub has : List SubNodeLeafEntry → NodeId → Bool
has [] n = false
has (e ∷ es) n = e.node.raw == n.raw || has es n

-- entries.setdefault(entry.node, entry)
unfoldable pub set_default : List SubNodeLeafEntry → SubNodeLeafEntry → List SubNodeLeafEntry
unfolding has
set_default d e = if has d e.node then d else d ++ e ∷ []

unfoldable pub set_defaults : List SubNodeLeafEntry → List SubNodeLeafEntry → List SubNodeLeafEntry
unfolding set_default
set_defaults d [] = d
set_defaults d (e ∷ es) = set_defaults (set_default d e) es

unfoldable pub next_levels : List SubNodeIntermediateEntry → ℕ → List (BlockId × ℕ)
next_levels [] depth = []
next_levels (e ∷ es) depth = (e.next_level, depth) ∷ next_levels es depth

unfoldable pub on_sub_node :
    BlockReader
    → SubNode
    → List SubNodeLeafEntry
    → ℕ
    → (List SubNodeIntermediateEntry → Result (List SubNodeLeafEntry))
    → (List SubNodeLeafEntry → ℕ → Result (List SubNodeLeafEntry))
    → Result (List SubNodeLeafEntry)
unfolding set_defaults
on_sub_node r (sub_intermediate es) entries count push next = push es
on_sub_node r (sub_leaf es) entries count push next = do
  check_count (count + length es) r.limits.max_items
  next (set_defaults entries es) (count + length es)

unfoldable pub subnodes_from :
    BlockReader
    → ℕ
    → List (BlockId × ℕ)
    → VisitedSet
    → List SubNodeLeafEntry
    → ℕ
    → Result (List SubNodeLeafEntry)
unfolding next_levels on_sub_node
subnodes_from r zero stack visited entries count = stuck
subnodes_from r (suc fuel) [] visited entries count = ok entries
subnodes_from r (suc fuel) ((child, depth) ∷ stack) visited entries count = do
  check_depth depth r.limits.max_subnode_depth
  visited' ← add visited (search_key child)
  node ← read_subnode_block r child
  on_sub_node r node entries count
      (λ es. subnodes_from r fuel (next_levels es (depth + 1) ++ stack) visited' entries count)
      (λ entries' count'. subnodes_from r fuel stack visited' entries' count')

-- Each round marks a block.
unfoldable pub read_subnode_tree : BlockReader → BlockId → Result (List SubNodeLeafEntry)
unfolding subnodes_from
read_subnode_tree r block =
    subnodes_from r (r.limits.max_items + 2) ((block, 1) ∷ []) (visited_set r.limits.max_items) [] 0

unfoldable pub node_data_blocks : BlockReader → NodeBTreeEntry → Result (List Bytes)
node_data_blocks r entry = read_data_blocks r entry.data_block

unfoldable pub node_data : BlockReader → NodeBTreeEntry → Result Bytes
node_data r entry = read_data r entry.data_block
