-- ===== src/Heap/Items.antt =====
-- What `get` returns, and what it leaves of the heap's state.
use pypst_reader.Prelude.{
  ℕ, zero, suc, ◌-◌, ◌≤◌, ◌<◌, ◌≡◌, ap, arith, length, ltb, ◌==◌, Bool-cases, inl, inr,
}
use pypst_reader.Error.{ok, err, format, ok-injective}
use pypst_reader.Bytes.{Bytes, slice}
use pypst_reader.Bytes.RoundTrip.{length-slice}
use pypst_reader.Heap.PageMap.{HeapPageMap, count, offset_at}
use pypst_reader.Heap.Spans.{IsMap}
use pypst_reader.Heap.{item}

-- An item of a well-formed map is a non-empty piece of its block.
pub item_inside :
    (b : Bytes) (m : HeapPageMap) (i : ℕ) (out : Bytes)
    → IsMap (length b) m
    → item b m i ≡ ok out
    → (0 < length out) × (length out ≤ length b)
unfolding item
item_inside b m zero out w h = cc
item_inside b m (suc i) out w h = elim (Bool-cases (ltb (count m) (suc i))) [
  | inl past ↦ absurd (never (rw past at h))
  | inr there ↦ elim (Bool-cases (offset_at m i == offset_at m (suc i))) [
    | inl freed ↦ absurd (never (rw (there, freed) at h))
    | inr live ↦
        let inside : suc i ≤ count m = ground arith in
        let differs : ¬ (offset_at m i ≡ offset_at m (suc i)) = ground arith in
        let up = w.ordered i inside in
        let end = w.inside (suc i) inside in
        let cut : slice b (offset_at m i) (offset_at m (suc i) - offset_at m i) ≡ out =
          ok-injective (rw (there, live) at h) in
        let size =
          length-slice b (offset_at m i) (offset_at m (suc i) - offset_at m i) (omega arith) in
        (omega (arith, ap length cut), omega (arith, ap length cut))
  ]
]
  where
    never : err format ≡ ok out → ⊥
    never e = cc
