-- ===== src/Heap.antt =====
-- src/pypstreader/ltp/heap.py: the heap over one node's data blocks.
--
-- A `HeapNode` is the object's state: `page_maps` and `items_seen` change when a page map is first
-- used. An operation is an `Action`: it takes the heap and returns its result with the heap after
-- it, an error included.
pub mod Ids
pub mod PageMap
pub mod State
pub mod Spans
pub mod Items
pub mod Coherent
use pypst_reader.Prelude.{
  ℕ, zero, suc, ◌+◌, ◌-◌, Bool, true, false, List, [], ◌∷◌, ltb, leb, ◌==◌, length, if◌then◌else◌,
  Option, none, some, get_elem?,
}
use pypst_reader.Error.{Result, ok, err, stuck, format, not_found}
use pypst_reader.Bytes.{Bytes, slice}
use pypst_reader.Limits.{Limits, check_count}
use pypst_reader.Ids.NodeId.{NodeId}
use pypst_reader.Ids.BlockId.{BlockId}
use pypst_reader.Page.Entries.{NodeBTreeEntry}
use pypst_reader.Block.{BlockReader, SubNodeLeafEntry}
use pypst_reader.Block.Walks
use pypst_reader.Block.Walks.{read_data_blocks, read_subnode_tree, read_data}
use pypst_reader.Heap.Ids.{
  HeapId, HeapNodeId, HeapNodeHeader, unpack_header, index, block_index, as_heap,
}
use pypst_reader.Heap.PageMap.{HeapPageMap, count, offset_at, parse_page_map}
use pypst_reader.Heap.State.{Action, pure, raise, lift, ◌>>=◌, HeapNode}

-- HeapNode(blocks, subnodes=…, reader=…, limits=…)
unfoldable pub heap_node :
    List Bytes → List SubNodeLeafEntry → Option BlockReader → Limits → Result HeapNode
heap_node [] subnodes reader limits = err format
heap_node (first ∷ rest) subnodes reader limits = elim (unpack_header first) [
  | ok header ↦ ok (record {
    blocks = first ∷ rest;
    subnodes = subnodes;
    reader = reader;
    limits = limits;
    header = header;
    page_maps = [];
    items_seen = 0;
  })
  | err e ↦ err e
  | stuck ↦ stuck
]

-- `limits` if they are given, else those of the reader or the heap.
abbrev pub or_limits : Option Limits → Limits → Limits
or_limits none default = default
or_limits (some limits) default = limits

with_subnodes : BlockReader → Limits → List Bytes → Result (List SubNodeLeafEntry) → Result HeapNode
with_subnodes reader limits blocks (ok subnodes) = heap_node blocks subnodes (some reader) limits
with_subnodes reader limits blocks (err e) = err e
with_subnodes reader limits blocks stuck = stuck

-- `reader.read_subnode_tree(entry.sub_node) if entry.sub_node is not None else {}`
subnodes_of : BlockReader → Option BlockId → Result (List SubNodeLeafEntry)
subnodes_of reader none = ok []
subnodes_of reader (some sub) = read_subnode_tree reader sub

with_blocks : BlockReader → Limits → Option BlockId → Result (List Bytes) → Result HeapNode
with_blocks reader limits sub_node (ok blocks) =
    with_subnodes reader limits blocks (subnodes_of reader sub_node)
with_blocks reader limits sub_node (err e) = err e
with_blocks reader limits sub_node stuck = stuck

-- HeapNode.from_node(reader, entry, limits): the node's data blocks and its sub-node tree.
unfoldable pub from_node : BlockReader → BlockId → Option BlockId → Option Limits → Result HeapNode
unfolding heap_node with_subnodes subnodes_of with_blocks
from_node reader data_block sub_node limits =
    with_blocks reader (or_limits limits reader.limits) sub_node
      (read_data_blocks reader data_block)

unfoldable pub block_of : Option Bytes → Result Bytes
block_of none = err format
block_of (some b) = ok b

unfoldable pub block : HeapNode → ℕ → Result Bytes
unfolding block_of
block h i = block_of (get_elem? h.blocks i)

unfoldable pub cached : ℕ → List (ℕ × HeapPageMap) → Option HeapPageMap
cached i [] = none
cached i ((k, m) ∷ rest) = if k == i then some m else cached i rest

-- `_items_seen` is raised before the check, and the map is kept after it.
abbrev pub counted : ℕ → HeapPageMap → ℕ → Result (Unit {0}) → Action HeapPageMap
counted i m seen (ok u) h = (ok m, record h { items_seen = seen; page_maps = (i, m) ∷ h.page_maps })
counted i m seen (err e) h = (err e, record h { items_seen = seen })
counted i m seen stuck h = (stuck, h)

unfoldable pub count_items : ℕ → HeapPageMap → Action HeapPageMap
count_items i m h =
    let seen = h.items_seen + count m in
    counted i m seen (check_count seen h.limits.max_heap_items) h

unfoldable pub fresh_page_map : ℕ → Action HeapPageMap
unfolding count_items block
fresh_page_map i h = (do b ← lift (block h i); m ← lift (parse_page_map i b); count_items i m) h

unfoldable pub found_or_parse : Option HeapPageMap → ℕ → Action HeapPageMap
unfolding fresh_page_map
found_or_parse (some m) i h = (ok m, h)
found_or_parse none i h = fresh_page_map i h

unfoldable pub page_map : ℕ → Action HeapPageMap
unfolding found_or_parse cached
page_map i h = found_or_parse (cached i h.page_maps) i h

-- The span of an item in its block: the checks of `get` after the page map.
unfoldable pub item : Bytes → HeapPageMap → ℕ → Result Bytes
item b m zero = err format
item b m (suc i) =
    let start = offset_at m i in
    let end = offset_at m (suc i) in
    if ltb (count m) (suc i)
    then err format
    else if start == end
    then err format
    else ok (slice b start (end - start))

unfoldable pub get : HeapId → Action Bytes
unfolding page_map item
get hid h =
    (do
      b ← lift (block h (block_index hid))
      m ← page_map (block_index hid)
      lift (item b m (index hid)))
      h

found : Option SubNodeLeafEntry → Option BlockReader → Result Bytes
found (some e) (some r) = read_data r e.data_block
found _ _ = err not_found

-- The sub-node path of `get_hnid`.
unfoldable pub sub_node_data : HeapNode → NodeId → Result Bytes
unfolding found
sub_node_data h n = found (Walks.get h.subnodes n) h.reader

unfoldable pub item_or_sub_node : HeapNodeId → Option HeapId → Action Bytes
item_or_sub_node hnid (some hid) h = get hid h
item_or_sub_node hnid none h = (sub_node_data h (record { raw = hnid.raw }), h)

unfoldable pub get_hnid : HeapNodeId → Action Bytes
unfolding get sub_node_data item_or_sub_node
get_hnid hnid h = item_or_sub_node hnid (as_heap hnid) h

found_blocks : Option SubNodeLeafEntry → Option BlockReader → Result (List Bytes)
found_blocks (some e) (some r) = read_data_blocks r e.data_block
found_blocks _ _ = err not_found

abbrev pub as_block : Result Bytes × HeapNode → Result (List Bytes) × HeapNode
as_block (ok bs, h) = (ok (bs ∷ []), h)
as_block (err e, h) = (err e, h)
as_block (stuck, h) = (stuck, h)

blocks_or_item : HeapNodeId → Option HeapId → Action (List Bytes)
blocks_or_item hnid (some hid) h = as_block (get hid h)
blocks_or_item hnid none h =
    (found_blocks (Walks.get h.subnodes (record { raw = hnid.raw })) h.reader, h)

-- The bytes of `get_hnid`, as the blocks in which they are stored.
unfoldable pub get_hnid_blocks : HeapNodeId → Action (List Bytes)
unfolding get found_blocks blocks_or_item
get_hnid_blocks hnid h = blocks_or_item hnid (as_heap hnid) h
