-- ===== src/BTree.antt =====
-- src/pypstreader/ndb/btree.py: the walks over the node and block B-trees.
--
-- A file is the list of its bytes, which no operation changes: `seek` and `read` are `slice`. A
-- tree is a kind of leaf entry, the file, the reference of its root page and the limits. The
-- generators `pages` and `_leaf_entries` are traces: what they yield, and how they end. The walks
-- run on fuel: `stuck` and `exhausted` stand for fuel that ran out.
pub mod Trees
pub mod Cache
pub mod Bounded
pub mod Walk
pub mod Lookup
use pypst_reader.Prelude.{
  ℕ, zero, suc, ◌+◌, ◌-◌, ◌/◌, ◌<◌, Bool, true, false, List, [], ◌∷◌, ◌++◌, map, ◌==◌, ltb, leb,
  length, if◌then◌else◌, Option, none, some, get_elem?, get_or,
}
use pypst_reader.Error.{Result, ok, err, stuck, format, not_found, require, ◌>>=◌, ◌>>◌}
use pypst_reader.Bytes.{Bytes, slice}
use pypst_reader.Limits.{Limits, VisitedSet, visited_set, add, check_depth, check_count}
use pypst_reader.Ids.NodeId.{NodeId}
use pypst_reader.Ids.BlockId.{BlockId, ByteIndex, search_key}
use pypst_reader.Ids.Refs.{PageRef}
use pypst_reader.Page.Entries.{
  PageType, nbt, bbt, IntermediateEntry, BlockBTreeEntry, unpack_block_entry, block_entry_key,
  NodeBTreeEntry, unpack_node_entry, node_entry_key,
}
use pypst_reader.Page.{LeafKind, PageEntries, intermediate, leaf, BTreePage, same_type, parse}
use pypst_reader.Trace.{Trace, done, raised, exhausted, yield_}

-- The bytes of the page at `index`.
unfoldable pub read_page : Bytes → ByteIndex → Limits → Result Bytes
read_page file index limits = do
  require (leb (index.value + 512) limits.max_file_size) format
  require (length (slice file index.value 512) == 512) format
  ok (slice file index.value 512)

-- bisect.bisect_right(keys, key), on fuel.
unfoldable pub bisect : ℕ → List ℕ → ℕ → ℕ → ℕ → ℕ
bisect zero keys key lo hi = lo
bisect (suc fuel) keys key lo hi =
    let mid = (lo + hi) / 2 in
    let left = bisect fuel keys key lo mid in
    let right = bisect fuel keys key (mid + 1) hi in
    if ltb lo hi then (if ltb key (get_or keys mid 0) then left else right) else lo

-- The interval halves, and the fuel is its length.
unfoldable pub bisect_right : List ℕ → ℕ → ℕ
unfolding bisect
bisect_right keys key = bisect (length keys) keys key 0 (length keys)

abbrev pub entry_key : IntermediateEntry → ℕ
entry_key e = e.key

-- entries[position - 1], or nothing at position 0.
unfoldable pub child_at : List IntermediateEntry → ℕ → Option IntermediateEntry
child_at es zero = none
child_at es (suc n) = get_elem? es n

-- The child that holds `key`.
unfoldable pub choose : List IntermediateEntry → ℕ → Option IntermediateEntry
unfolding bisect_right child_at
choose es key = child_at es (bisect_right (map entry_key es) key)

-- The zero-extended NID rule on the keys of an intermediate page.
unfoldable pub keys_fit : List IntermediateEntry → Result (Unit {0})
keys_fit [] = ok tt
keys_fit (e ∷ es) = do require (leb e.key 0xFFFFFFFF) format; keys_fit es

module _ {E : Type 0} (kind : LeafKind E) (file : Bytes) (limits : Limits) where
  -- `_check_intermediate`
  unfoldable pub check_intermediate : PageEntries E → Result (Unit {0})
  unfolding same_type keys_fit
  check_intermediate (leaf es) = ok tt
  check_intermediate (intermediate es) = if same_type kind.page_type nbt then keys_fit es else ok tt

  unfoldable pub read : ByteIndex → Result (BTreePage E)
  read index = do
    page_bytes ← read_page file index limits
    page ← parse kind page_bytes
    check_intermediate page.entries
    ok page

  -- `_child` with no cache: the page, and the visited set with its offset.
  unfoldable pub child : PageRef → ℕ → VisitedSet → Result (BTreePage E × VisitedSet)
  child ref depth visited = do
    check_depth depth limits.max_btree_depth
    visited' ← add visited ref.index.value
    page ← read ref.index
    ok (page, visited')

  -- `for entry in page.entries: if entry.key == key: return entry`
  unfoldable pub find_leaf : ℕ → List E → Result E
  find_leaf key [] = err not_found
  find_leaf key (e ∷ es) = if kind.key e == key then ok e else find_leaf key es

  -- What `_find` does on a page: `next` goes on from the child.
  unfoldable pub search_page : ℕ → PageEntries E → (PageRef → Result E) → Result E
  search_page key (leaf es) next = find_leaf key es
  search_page key (intermediate es) next = elim (choose es key) [
    | none ↦ err not_found
    | some entry ↦ next entry.ref
  ]

  unfoldable pub find_from : ℕ → ℕ → PageRef → ℕ → VisitedSet → Result E
  find_from zero key ref depth visited = stuck
  find_from (suc fuel) key ref depth visited = do
    (page, visited') ← child ref depth visited
    search_page key page.entries (λ next. find_from fuel key next (depth + 1) visited')

  -- Depths 0 to `max_btree_depth` pass, and one more is refused.
  unfoldable pub find_key : PageRef → ℕ → Result E
  find_key root key =
      find_from (limits.max_btree_depth + 2) key root 0 (visited_set limits.max_items)

  unfoldable pub children : ℕ → List IntermediateEntry → List (PageRef × ℕ)
  children depth [] = []
  children depth (e ∷ es) = (e.ref, depth) ∷ children depth es

  -- The stack after a page: the children, the first on top.
  unfoldable pub push_children : PageEntries E → ℕ → List (PageRef × ℕ) → List (PageRef × ℕ)
  unfolding children
  push_children (leaf es) depth stack = stack
  push_children (intermediate es) depth stack = children (depth + 1) es ++ stack

  unfoldable pub pages_from : ℕ → List (PageRef × ℕ) → VisitedSet → Trace (BTreePage E)
  pages_from zero stack visited = exhausted
  pages_from (suc fuel) [] visited = done
  pages_from (suc fuel) ((ref, depth) ∷ stack) visited = elim (child ref depth visited) [
    | ok p ↦ yield_ p.0 (pages_from fuel (push_children p.0.entries depth stack) p.1)
    | err e ↦ raised e
    | stuck ↦ exhausted
  ]

  -- Each round visits a page, `max_items` at most; the last two find the stack empty or refuse.
  unfoldable pub pages : PageRef → Trace (BTreePage E)
  pages root = pages_from (limits.max_items + 2) ((root, 0) ∷ []) (visited_set limits.max_items)
