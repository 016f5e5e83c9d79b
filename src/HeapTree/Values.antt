-- ===== src/HeapTree/Values.antt =====
-- What a lookup in a B-tree on heap returns.
use mathlib.Core.Path.{subst}
use native.Mathlib.Nat.{div-mul-le_self, mul-le-mul_right}
use pypst_reader.Prelude.{
  ℕ, zero, suc, ◌+◌, ◌-◌, ◌*◌, ◌/◌, ◌%◌, ◌≤◌, ◌≡◌, refl, sym, ap, ◌∙◌, Bool, true, false, ltb, ◌==◌,
  Option, none, some, some_inj, if◌then◌else◌, length, arith, Bool-cases, inl, inr,
}
use pypst_reader.Error.{Result, ok, err, stuck, require, format, ok-injective, require-eq-ok}
use pypst_reader.Bytes.{Bytes, from_bytes, slice}
use pypst_reader.Bytes.RoundTrip.{length-slice}
use pypst_reader.Limits.{VisitedSet, visited_set, add}
use pypst_reader.Heap.Ids.{HeapId, is_null}
use pypst_reader.Heap.State.{Action, pure, continue, HeapNode}
use pypst_reader.Heap.{get}
use pypst_reader.HeapTree.Records.{
  HeapTreeHeader, record_count, index_records, leaf_records, choose_child, same_bytes, find_record,
}
use pypst_reader.HeapTree.{page, find_in_leaf, on_chosen, descend, find}

pub continue-eq-ok {ℓ κ} :
    {A : Type ℓ} {B : Type κ} (r : Result A) (f : A → Action B) (h : HeapNode) {out : B}
    → (continue r f h).0 ≡ ok out
    → (a : A) × (r ≡ ok a) × ((f a h).0 ≡ ok out)
continue-eq-ok (ok a) f h e = (a, refl, e)
continue-eq-ok (err x) f h e = cc
continue-eq-ok stuck f h e = cc

room_lem :
    (i count stride total : ℕ) → (i + suc count) * stride ≤ total → i * stride + stride ≤ total
room_lem i count stride total h = grind arith

count_lem : (c q t n : ℕ) → n ≡ q * suc t → c * suc t ≤ n + t → c * suc t ≤ n
count_lem c q t n e h = elim (Bool-cases (ltb q c)) [
  | inr few ↦ let below : c ≤ q = ground arith in omega (arith, e, mul-le-mul_right (suc t) below)
  | inl many ↦
      let above : suc q ≤ c = ground arith in
      let over : suc q * suc t ≤ c * suc t = mul-le-mul_right (suc t) above in
      absurd (absurd_lem (q * suc t) t n e (omega (arith, h, over)))
]
  where
    absurd_lem : (p t n : ℕ) → n ≡ p → p + suc t ≤ n + t → ⊥
    absurd_lem p t n e h = omega arith

same_lem : (n t : ℕ) → (n + t) / suc t ≡ 0 + record_count n (suc t)
same_lem n t =
    let sums : n + t ≡ n + suc t - 1 = omega arith in
    let first : ◌≡◌ {A = ℕ} (record_count n (suc t)) (0 + record_count n (suc t)) = omega arith in
    ap (λ m. m / suc t) sums ∙ first

-- A page of whole records has room for all that are counted.
whole_records : (n stride : ℕ) → n % stride ≡ 0 → (0 + record_count n stride) * stride ≤ n
whole_records n zero h = omega arith
whole_records n (suc t) h =
    let c = (n + t) / suc t in
    let fits : c * suc t ≤ n =
      count_lem c (n / suc t) t n (omega (arith, h)) (div-mul-le_self (n + t) (suc t)) in
    subst (λ k. k * suc t ≤ n) (same_lem n t) fits

page-whole :
    (hid : HeapId) (record_size : ℕ) (visited : VisitedSet) (h : HeapNode) (p : Bytes × VisitedSet)
    → (page hid record_size visited h).0 ≡ ok p
    → length p.0 % record_size ≡ 0
unfolding page
page-whole hid record_size visited h p e =
    let (v, _, e1) = continue-eq-ok (add visited hid.raw) _ h e in
    let (bytes, _, e2) = continue-eq-ok (get hid h).0 _ _ e1 in
    let (_, whole, e3) = continue-eq-ok (require (length bytes % record_size == 0) format) _ _ e2 in
    subst (λ (q : Bytes × VisitedSet). length q.0 % record_size ≡ 0) (ok-injective e3)
      (ground (arith, require-eq-ok _ _ whole))

length-find_record :
    (k e : ℕ) (bytes key : Bytes) (count i : ℕ) (v : Bytes)
    → (i + count) * (k + e) ≤ length bytes
    → find_record key (leaf_records k e bytes count i) ≡ some v
    → length v ≡ e
unfolding find_record leaf_records
length-find_record k e bytes key zero i v fits h = cc
length-find_record k e bytes key (suc count) i v fits h =
    elim (Bool-cases (same_bytes (slice bytes (i * (k + e)) k) key)) [
      | inl same ↦
          let there : slice bytes (i * (k + e) + k) e ≡ v = some_inj (rw same at h) in
          sym (ap length there)
          ∙ length-slice bytes (i * (k + e) + k) e
              (omega (arith, room_lem i count (k + e) (length bytes) fits))
      | inr other ↦
          length-find_record k e bytes key count (i + 1) v (omega (arith, fits)) (rw other at h)
    ]

module _ (header : HeapTreeHeader) (key : Bytes) where
  length-find_in_leaf :
      (hid : HeapId) (visited : VisitedSet) (h : HeapNode) (v : Bytes)
      → (find_in_leaf header key hid visited h).0 ≡ ok (some v)
      → length v ≡ header.entry_size
  unfolding find_in_leaf
  length-find_in_leaf hid visited h v e =
      let (p, at, found) =
        continue-eq-ok (page hid (header.key_size + header.entry_size) visited h).0 _ _ e in
      length-find_record header.key_size header.entry_size p.0 key _ 0 v
        (whole_records (length p.0) (header.key_size + header.entry_size)
          (page-whole hid (header.key_size + header.entry_size) visited h p at))
        (ok-injective found)

  length-on_chosen :
      (chosen : Option HeapId) (next : HeapId → Action (Option Bytes)) (h : HeapNode) (v : Bytes)
      → ((hid : HeapId) (g : HeapNode)
          → (next hid g).0 ≡ ok (some v)
          → length v ≡ header.entry_size)
      → (on_chosen header key chosen next h).0 ≡ ok (some v)
      → length v ≡ header.entry_size
  unfolding on_chosen
  length-on_chosen none next h v k e =
      let clash : ◌≡◌ {A = Option Bytes} none (some v) = ok-injective e in cc
  length-on_chosen (some hid) next h v k e = k hid h e

  length-descend :
      (level : ℕ) (hid : HeapId) (visited : VisitedSet) (h : HeapNode) (v : Bytes)
      → (descend header key level hid visited h).0 ≡ ok (some v)
      → length v ≡ header.entry_size
  unfolding descend
  length-descend zero hid visited h v e = length-find_in_leaf hid visited h v e
  length-descend (suc level) hid visited h v e =
      let (p, _, e1) = continue-eq-ok (page hid (header.key_size + 4) visited h).0 _ _ e in
      let (records, _, e2) = continue-eq-ok (index_records header.key_size p.0 _ 0) _ _ e1 in
      length-on_chosen (choose_child (from_bytes key) none records) _ _ v
        (λ child g. length-descend level child p.1 g v) e2

  rooted :
      (empty : Bool) (m : Action (Option Bytes)) (h : HeapNode) (v : Bytes)
      → ((m h).0 ≡ ok (some v) → length v ≡ header.entry_size)
      → ((if empty then pure none else m) h).0 ≡ ok (some v)
      → length v ≡ header.entry_size
  rooted true m h v k e = let clash : ◌≡◌ {A = Option Bytes} none (some v) = ok-injective e in cc
  rooted false m h v k e = k e

  -- A value that a lookup returns is `cbEnt` bytes long.
  pub length-find :
      (h : HeapNode) (v : Bytes)
      → (find header key h).0 ≡ ok (some v)
      → length v ≡ header.entry_size
  unfolding find
  length-find h v e =
      let (_, _, e1) = continue-eq-ok (require (length key == header.key_size) format) _ h e in
      rooted (is_null header.root) _ h v
        (length-descend header.levels header.root (visited_set h.limits.max_items) h v) e1
