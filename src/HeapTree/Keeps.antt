-- ===== src/HeapTree/Keeps.antt =====
-- A lookup in a B-tree on heap: the heap's cached page maps, and the size of what it returns.
use pypst_reader.Prelude.{
  ℕ, zero, suc, Bool, true, false, ◌==◌, Option, none, some, if◌then◌else◌, length,
}
use pypst_reader.Error.{require, format}
use pypst_reader.Bytes.{Bytes, from_bytes}
use pypst_reader.Limits.{VisitedSet, visited_set}
use pypst_reader.Heap.Ids.{HeapId, is_null}
use pypst_reader.Heap.State.{Action, pure, lift, HeapNode}
use pypst_reader.Heap.Coherent.{IsCoherent}
use pypst_reader.HeapTree.Records.{HeapTreeHeader, index_records, choose_child}
use pypst_reader.HeapTree.Actions.{Keeps, then-Keeps, page-Keeps}
use pypst_reader.HeapTree.{page, find_in_leaf, on_chosen, descend, find}

module _ (header : HeapTreeHeader) (key : Bytes) where
  find_in_leaf-Keeps :
      (hid : HeapId) (visited : VisitedSet) → Keeps (find_in_leaf header key hid visited)
  unfolding find_in_leaf
  find_in_leaf-Keeps hid visited =
      then-Keeps (page hid _ visited) _ (page-Keeps hid _ visited) (λ p h c. c)

  on_chosen-Keeps :
      (chosen : Option HeapId) (next : HeapId → Action (Option Bytes))
      → ((hid : HeapId) → Keeps (next hid))
      → Keeps (on_chosen header key chosen next)
  unfolding on_chosen
  on_chosen-Keeps none next k h c = c
  on_chosen-Keeps (some hid) next k h c = k hid h c

  descend-Keeps :
      (level : ℕ) (hid : HeapId) (visited : VisitedSet)
      → Keeps (descend header key level hid visited)
  unfolding descend
  descend-Keeps zero hid visited = find_in_leaf-Keeps hid visited
  descend-Keeps (suc level) hid visited =
      then-Keeps (page hid _ visited) _ (page-Keeps hid _ visited) (λ p.
        then-Keeps (lift (index_records header.key_size p.0 _ 0)) _ (λ h c. c)
          (λ records.
            on_chosen-Keeps (choose_child (from_bytes key) none records) _
              (λ child. descend-Keeps level child p.1)))

  rooted :
      (empty : Bool) (m : Action (Option Bytes)) → Keeps m → Keeps (if empty then pure none else m)
  rooted true m k h c = c
  rooted false m k h c = k h c

  -- A lookup in a B-tree on heap, whatever it answers, keeps every cached page map the one that its
  -- block parses to.
  pub find-IsCoherent : (h : HeapNode) → IsCoherent h → IsCoherent (find header key h).1
  unfolding find
  find-IsCoherent h c =
      then-Keeps (lift (require (length key == header.key_size) format)) _ (λ g d. d)
        (λ u.
          rooted (is_null header.root) _
            (descend-Keeps header.levels header.root (visited_set h.limits.max_items)))
        h c
