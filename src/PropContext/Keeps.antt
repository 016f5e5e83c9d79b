-- ===== src/PropContext/Keeps.antt =====
-- The heap of a property context of src/pypstreader/ltp/prop_context.py after a read.
use pypst_reader.Prelude.{ℕ, ◌&&◌, ◌==◌, not, List, [], Option, none, some, Bool-cases, inl, inr}
use pypst_reader.Error.{Result, ok, err, stuck}
use pypst_reader.Bytes.{Bytes}
use pypst_reader.Heap.Ids.{is_heap}
use pypst_reader.Heap.State.{HeapNode}
use pypst_reader.Heap.{get_hnid}
use pypst_reader.Heap.Coherent.{IsCoherent, get_hnid-IsCoherent}
use pypst_reader.HeapTree.Entries.{fold_entries}
use pypst_reader.HeapTree.Walk.{fold_entries-Keeps}
use pypst_reader.PropType.{PropType}
use pypst_reader.PropContext.Records.{
  PropertyRecord, add_record, inline_width, is_heap_only, find_record,
}
use pypst_reader.PropContext.{
  PropertyContext, loaded, cached_or_load, all_records, decoded, read_as, read, read_found, get_in,
  get,
}

loaded-IsCoherent :
    (c : PropertyContext) (r : Result (List PropertyRecord) × HeapNode)
    → IsCoherent r.1
    → IsCoherent (loaded c r).1.heap
unfolding loaded
loaded-IsCoherent c (ok found, h) k = k
loaded-IsCoherent c (err e, h) k = k
loaded-IsCoherent c (stuck, h) k = k

cached_or_load-IsCoherent :
    (c : PropertyContext) (records : Option (List PropertyRecord))
    → IsCoherent c.heap
    → IsCoherent (cached_or_load c records).1.heap
unfolding cached_or_load
cached_or_load-IsCoherent c (some records) k = k
cached_or_load-IsCoherent c none k =
    loaded-IsCoherent c (fold_entries c.tree (add_record c.limits.max_property_count) [] c.heap)
      (fold_entries-Keeps c.tree (add_record c.limits.max_property_count) [] c.heap k)

decoded-IsCoherent :
    (c : PropertyContext) (t : PropType) (r : Result Bytes × HeapNode)
    → IsCoherent r.1
    → IsCoherent (decoded c t r).1.heap
unfolding decoded
decoded-IsCoherent c t (ok bs, h) k = k
decoded-IsCoherent c t (err e, h) k = k
decoded-IsCoherent c t (stuck, h) k = k

read_as-IsCoherent :
    (c : PropertyContext) (r : PropertyRecord) (width : Option ℕ)
    → IsCoherent c.heap
    → IsCoherent (read_as c r width).1.heap
unfolding read_as
read_as-IsCoherent c r (some width) k = k
read_as-IsCoherent c r none k = elim (Bool-cases (r.raw == 0)) [
  | inl zero_id ↦ rw zero_id k
  | inr named ↦
      elim (Bool-cases (is_heap_only r.prop_type && not (is_heap (record { raw = r.raw })))) [
        | inl wrong ↦ rw (named, wrong) k
        | inr allowed ↦
            rw (named, allowed)
              (decoded-IsCoherent c r.prop_type (get_hnid (record { raw = r.raw }) c.heap)
                (get_hnid-IsCoherent (record { raw = r.raw }) c.heap k))
      ]
]

read_found-IsCoherent :
    (c : PropertyContext) (r : Option PropertyRecord)
    → IsCoherent c.heap
    → IsCoherent (read_found c r).1.heap
unfolding read_found read
read_found-IsCoherent c none k = k
read_found-IsCoherent c (some r) k = read_as-IsCoherent c r (inline_width r.prop_type) k

get_in-IsCoherent :
    (prop_id : ℕ) (r : Result (List PropertyRecord) × PropertyContext)
    → IsCoherent r.1.heap
    → IsCoherent (get_in prop_id r).1.heap
unfolding get_in
get_in-IsCoherent prop_id (ok records, c) k =
    read_found-IsCoherent c (find_record prop_id records) k
get_in-IsCoherent prop_id (err e, c) k = k
get_in-IsCoherent prop_id (stuck, c) k = k

-- Reading a property, whatever comes of it, keeps every page map that the context's heap has cached
-- the one that its block parses to.
pub get-IsCoherent :
    (c : PropertyContext) (prop_id : ℕ) → IsCoherent c.heap → IsCoherent (get c prop_id).1.heap
unfolding get all_records
get-IsCoherent c prop_id k =
    get_in-IsCoherent prop_id (all_records c) (cached_or_load-IsCoherent c c.records k)
