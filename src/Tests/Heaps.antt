-- ===== src/Tests/Heaps.antt =====
-- The theorems on heaps at a small heap.
use pypst_reader.Prelude.{some, ◌<◌, ◌≤◌, ◌≡◌, refl, [], ◌∷◌, length, arith, none}
use pypst_reader.Error.{ok}
use pypst_reader.Bytes.{Bytes, IsBytes, slice, u16, u64}
use pypst_reader.Limits.{default_limits}
use pypst_reader.Heap
use pypst_reader.Heap.Ids.{HeapId, index, block_index}
use pypst_reader.Heap.PageMap.{HeapPageMap, parse_page_map}
use pypst_reader.Heap.Spans.{IsMap, parse_page_map-IsMap}
use pypst_reader.Heap.Coherent
use pypst_reader.Heap.Coherent.{get-IsCoherent, get_exact}
use pypst_reader.HeapTree.Records.{HeapTreeHeader}
use pypst_reader.HeapTree.{find}
use pypst_reader.HeapTree.Values.{length-find}
use pypst_reader.Tests.Data.{tree_heap}
use pypst_reader.Tests.Data.{heap_block, small_heap}

abbrev small_map : HeapPageMap
small_map = record { offsets = 12 ∷ 16 ∷ []; free_count = 0; fill_levels = none }

parse_small_map : parse_page_map 0 heap_block ≡ ok small_map
unfolding pypst_reader.Bytes.field pypst_reader.Bytes.from_bytes pypst_reader.Bytes.need
    pypst_reader.Bytes.slice pypst_reader.Heap.Ids.from_wire pypst_reader.Heap.Ids.heap_id
    pypst_reader.Heap.Ids.unpack_fill_levels pypst_reader.Heap.Ids.unpack_header
    pypst_reader.Heap.PageMap.block_header pypst_reader.Heap.PageMap.count
    pypst_reader.Heap.PageMap.is_bitmap_block pypst_reader.Heap.PageMap.parse_page_map
    pypst_reader.Heap.PageMap.scan pypst_reader.Heap.PageMap.scan_all
    pypst_reader.Heap.PageMap.words
parse_small_map = refl

parse_page_map-IsMap_example : IsMap (length heap_block) small_map
parse_page_map-IsMap_example = parse_page_map-IsMap 0 heap_block small_map parse_small_map

abbrev first_item : HeapId
first_item = record { raw = 0x20 }

no_maps-IsCoherent : Coherent.IsCoherent small_heap
unfolding pypst_reader.Heap.cached
no_maps-IsCoherent i m hit b at = absurd (ground arith)

get_first : (Heap.get first_item small_heap).0 ≡ ok (97 ∷ 98 ∷ 99 ∷ 100 ∷ [])
unfolding pypst_reader.Bytes.field pypst_reader.Bytes.from_bytes pypst_reader.Bytes.need
    pypst_reader.Bytes.slice pypst_reader.Heap.Ids.block_index pypst_reader.Heap.Ids.from_wire
    pypst_reader.Heap.Ids.heap_id pypst_reader.Heap.Ids.index
    pypst_reader.Heap.Ids.unpack_fill_levels pypst_reader.Heap.Ids.unpack_header
    pypst_reader.Heap.PageMap.block_header pypst_reader.Heap.PageMap.count
    pypst_reader.Heap.PageMap.is_bitmap_block pypst_reader.Heap.PageMap.offset_at
    pypst_reader.Heap.PageMap.parse_page_map pypst_reader.Heap.PageMap.scan
    pypst_reader.Heap.PageMap.scan_all pypst_reader.Heap.PageMap.words pypst_reader.Heap.block
    pypst_reader.Heap.block_of pypst_reader.Heap.cached pypst_reader.Heap.count_items
    pypst_reader.Heap.found_or_parse pypst_reader.Heap.fresh_page_map pypst_reader.Heap.get
    pypst_reader.Heap.item pypst_reader.Heap.page_map pypst_reader.Limits.check_count
get_first = refl

get_exact_example :
    (b : Bytes) × (m : HeapPageMap) × (Heap.block small_heap (block_index first_item) ≡ ok b)
    × (parse_page_map (block_index first_item) b ≡ ok m)
    × (Heap.item b m (index first_item) ≡ ok (97 ∷ 98 ∷ 99 ∷ 100 ∷ []))
    × (0 < 4)
    × (4 ≤ length b)
get_exact_example =
    get_exact first_item small_heap (97 ∷ 98 ∷ 99 ∷ 100 ∷ []) no_maps-IsCoherent get_first

abbrev tree_header : HeapTreeHeader
tree_header = record { key_size = 2; entry_size = 6; levels = 0; root = record { raw = 0x40 } }

abbrev one_key : Bytes
one_key = 1 ∷ 0 ∷ []

abbrev six_bytes : Bytes
six_bytes = 10 ∷ 11 ∷ 12 ∷ 13 ∷ 14 ∷ 15 ∷ []

find_one : (find tree_header one_key tree_heap).0 ≡ ok (some six_bytes)
unfolding pypst_reader.Bytes.field pypst_reader.Bytes.from_bytes pypst_reader.Bytes.need
    pypst_reader.Bytes.slice pypst_reader.Heap.Ids.block_index pypst_reader.Heap.Ids.from_wire
    pypst_reader.Heap.Ids.heap_id pypst_reader.Heap.Ids.index pypst_reader.Heap.Ids.is_null
    pypst_reader.Heap.Ids.unpack_fill_levels pypst_reader.Heap.Ids.unpack_from
    pypst_reader.Heap.Ids.unpack_header pypst_reader.Heap.PageMap.block_header
    pypst_reader.Heap.PageMap.count pypst_reader.Heap.PageMap.is_bitmap_block
    pypst_reader.Heap.PageMap.offset_at pypst_reader.Heap.PageMap.parse_page_map
    pypst_reader.Heap.PageMap.scan pypst_reader.Heap.PageMap.scan_all
    pypst_reader.Heap.PageMap.words pypst_reader.Heap.block pypst_reader.Heap.block_of
    pypst_reader.Heap.cached pypst_reader.Heap.count_items pypst_reader.Heap.found_or_parse
    pypst_reader.Heap.fresh_page_map pypst_reader.Heap.get pypst_reader.Heap.item
    pypst_reader.Heap.page_map pypst_reader.HeapTree.Records.choose_child
    pypst_reader.HeapTree.Records.find_record pypst_reader.HeapTree.Records.index_records
    pypst_reader.HeapTree.Records.leaf_records pypst_reader.HeapTree.Records.same_bytes
    pypst_reader.HeapTree.descend pypst_reader.HeapTree.find pypst_reader.HeapTree.find_in_leaf
    pypst_reader.HeapTree.on_chosen pypst_reader.HeapTree.page pypst_reader.Limits.add
    pypst_reader.Limits.check_count pypst_reader.Limits.contains pypst_reader.Limits.visited_set
find_one = refl

tree_heap-IsCoherent : Coherent.IsCoherent tree_heap
unfolding pypst_reader.Heap.cached
tree_heap-IsCoherent i m hit b at = absurd (ground arith)

length-find_example : length six_bytes ≡ 6
length-find_example = length-find tree_header one_key tree_heap six_bytes find_one
