-- ===== src/PropContext.antt =====
-- src/pypstreader/ltp/prop_context.py: the properties of one node.
--
-- A context holds its heap, whose page maps change as values are read, and the records, which are
-- read once. An operation returns its result and the context after it.
pub mod Records
pub mod Sorted
pub mod Keeps
use pypst_reader.Prelude.{
  ℕ, Bool, true, false, ◌&&◌, List, [], ◌∷◌, ◌==◌, length, not, if◌then◌else◌, Option, none, some,
}
use pypst_reader.Error.{Result, ok, err, stuck, format}
use pypst_reader.Bytes.{Bytes, to_bytes}
use pypst_reader.Limits.{Limits, default_limits}
use pypst_reader.Ids.BlockId.{BlockId}
use pypst_reader.Block.{BlockReader}
use pypst_reader.Heap.Ids.{HeapNodeType, HeapNodeId, is_heap}
use pypst_reader.Heap.State.{HeapNode}
use pypst_reader.Heap.{get_hnid, from_node, or_limits}
use pypst_reader.HeapTree.Records.{HeapTreeHeader}
use pypst_reader.HeapTree.Entries.{fold_entries}
use pypst_reader.HeapTree.{heap_tree}
use pypst_reader.PropType.{PropType}
use pypst_reader.PropType.Value.{PropValue, Scalar, Codec}
use pypst_reader.PropType.Decode.{decode}
use pypst_reader.PropContext.Records.{
  PropertyRecord, inline_width, is_heap_only, add_record, sort, find_record, has_id,
}

pub record PropertyContext : Type 0 where
  pub heap : HeapNode
  pub tree : HeapTreeHeader
  pub limits : Limits
  pub codepage : Option Codec
  pub records : Option (List PropertyRecord)

-- `heap.client_signature is not HeapNodeType.PROPERTIES`
unfoldable pub is_properties : HeapNodeType → Bool
is_properties HeapNodeType.properties = true
is_properties t = false

-- The last check of `__init__`, on the heap after the tree's header was read.
unfoldable pub over_tree :
    Limits → Option Codec → Result HeapTreeHeader × HeapNode → Result PropertyContext
over_tree limits codepage (ok tree, heap) =
    if tree.key_size == 2 && tree.entry_size == 6
    then ok
        (record { heap = heap; tree = tree; limits = limits; codepage = codepage; records = none })
    else err format
over_tree limits codepage (err e, heap) = err e
over_tree limits codepage (stuck, heap) = stuck

-- PropertyContext(heap, limits, codepage=…)
unfoldable pub property_context : HeapNode → Option Limits → Option Codec → Result PropertyContext
unfolding is_properties over_tree
property_context h limits codepage =
    if is_properties h.header.client_signature
    then over_tree (or_limits limits h.limits) codepage (heap_tree h.header.user_root h)
    else err format

-- PropertyContext.from_node(reader, entry, limits, codepage=…)
unfoldable pub context_of :
    BlockReader → BlockId → Option BlockId → Option Limits → Option Codec → Result PropertyContext
unfolding property_context
context_of reader data_block sub_node limits codepage =
    elim (from_node reader data_block sub_node limits) [
      | ok h ↦ property_context h limits codepage
      | err e ↦ err e
      | stuck ↦ stuck
    ]

-- What `records` does with the dictionary that the loop has built.
unfoldable pub loaded :
    PropertyContext
    → Result (List PropertyRecord) × HeapNode
    → Result (List PropertyRecord) × PropertyContext
unfolding sort
loaded c (ok found, h) = (ok (sort found), record c { heap = h; records = some (sort found) })
loaded c (err e, h) = (err e, record c { heap = h })
loaded c (stuck, h) = (stuck, record c { heap = h })

unfoldable pub cached_or_load :
    PropertyContext → Option (List PropertyRecord) → Result (List PropertyRecord) × PropertyContext
unfolding loaded
cached_or_load c (some records) = (ok records, c)
cached_or_load c none =
    loaded c (fold_entries c.tree (add_record c.limits.max_property_count) [] c.heap)

-- The property `records`.
unfoldable pub all_records : PropertyContext → Result (List PropertyRecord) × PropertyContext
unfolding cached_or_load
all_records c = cached_or_load c c.records

-- `decode` on what `get_hnid` returned.
unfoldable pub decoded :
    PropertyContext → PropType → Result Bytes × HeapNode → Result PropValue × PropertyContext
decoded c t (ok bs, h) = (decode c.codepage c.limits.max_mv_items t bs, record c { heap = h })
decoded c t (err e, h) = (err e, record c { heap = h })
decoded c t (stuck, h) = (stuck, record c { heap = h })

-- `read` by the width of an inline value: none of the inline types has a code page or a count.
unfoldable pub read_as :
    PropertyContext → PropertyRecord → Option ℕ → Result PropValue × PropertyContext
unfolding decoded is_heap_only
read_as c r (some width) =
    (decode c.codepage default_limits.max_mv_items r.prop_type (to_bytes width r.raw), c)
read_as c r none =
    if r.raw == 0
    then (ok (PropValue.one Scalar.nothing), c)
    else if is_heap_only r.prop_type && not (is_heap (record { raw = r.raw }))
    then (err format, c)
    else decoded c r.prop_type (get_hnid (record { raw = r.raw }) c.heap)

unfoldable pub read : PropertyContext → PropertyRecord → Result PropValue × PropertyContext
unfolding read_as inline_width
read c r = read_as c r (inline_width r.prop_type)

unfoldable pub read_found :
    PropertyContext → Option PropertyRecord → Result PropValue × PropertyContext
unfolding read
read_found c none = (ok (PropValue.one Scalar.nothing), c)
read_found c (some r) = read c r

unfoldable pub get_in :
    ℕ → Result (List PropertyRecord) × PropertyContext → Result PropValue × PropertyContext
unfolding read_found find_record
get_in prop_id (ok records, c) = read_found c (find_record prop_id records)
get_in prop_id (err e, c) = (err e, c)
get_in prop_id (stuck, c) = (stuck, c)

unfoldable pub get : PropertyContext → ℕ → Result PropValue × PropertyContext
unfolding get_in all_records
get c prop_id = get_in prop_id (all_records c)

-- len(self)
unfoldable pub size_in : Result (List PropertyRecord) × PropertyContext → Result ℕ × PropertyContext
size_in (ok records, c) = (ok (length records), c)
size_in (err e, c) = (err e, c)
size_in (stuck, c) = (stuck, c)

unfoldable pub size : PropertyContext → Result ℕ × PropertyContext
unfolding size_in all_records
size c = size_in (all_records c)

-- `prop_id in self`
unfoldable pub contains_in :
    ℕ → Result (List PropertyRecord) × PropertyContext → Result Bool × PropertyContext
unfolding has_id
contains_in prop_id (ok records, c) = (ok (has_id records prop_id), c)
contains_in prop_id (err e, c) = (err e, c)
contains_in prop_id (stuck, c) = (stuck, c)

unfoldable pub contains : PropertyContext → ℕ → Result Bool × PropertyContext
unfolding contains_in all_records
contains c prop_id = contains_in prop_id (all_records c)

abbrev pub Items : Type 0
Items = List (ℕ × PropValue)

-- One value before the rest, which are not read once a read has failed.
unfoldable pub item_then :
    ℕ
    → Result PropValue × PropertyContext
    → Result Items × PropertyContext
    → Result Items × PropertyContext
item_then i (ok v, c) (ok vs, c') = (ok ((i, v) ∷ vs), c')
item_then i (ok v, c) (err e, c') = (err e, c')
item_then i (ok v, c) (stuck, c') = (stuck, c')
item_then i (err e, c) rest = (err e, c)
item_then i (stuck, c) rest = (stuck, c)

unfoldable pub read_each : List PropertyRecord → PropertyContext → Result Items × PropertyContext
unfolding item_then read
read_each [] c = (ok [], c)
read_each (r ∷ records) c =
    let first = read c r in item_then r.prop_id first (read_each records first.1)

-- list(self)
unfoldable pub items_in :
    Result (List PropertyRecord) × PropertyContext → Result Items × PropertyContext
unfolding read_each
items_in (ok records, c) = read_each records c
items_in (err e, c) = (err e, c)
items_in (stuck, c) = (stuck, c)

unfoldable pub items : PropertyContext → Result Items × PropertyContext
unfolding items_in all_records
items c = items_in (all_records c)
