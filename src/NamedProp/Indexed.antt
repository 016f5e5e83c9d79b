-- ===== src/NamedProp/Indexed.antt =====
-- The index of a named property map of src/pypstreader/messaging/named_prop.py by property id, and
-- the ids of its hash buckets.
use mathlib.Core.Path.{subst}
use pypst_reader.Prelude.{
  ℕ, ◌+◌, ◌-◌, ◌≤◌, ◌<◌, ◌≡◌, refl, sym, ap, ◌∙◌, arith, true, false, List, [], ◌∷◌, ◌++◌, ltb, leb,
  ◌==◌, not, Option, none, some, some_inj, if◌then◌else◌, ◌&&◌, Bool-cases, ◌⊎◌, inl, inr,
}
use pypst_reader.Error.{
  Result, ok, err, stuck, format, require, >>=-eq-ok, require-eq-ok, ok-injective,
}
use pypst_reader.BTree.Lookup.{In, here, there}
use pypst_reader.PropType.Value.{PropValue, Scalar, pos, negsuc}
use pypst_reader.PropContext.{PropertyContext, all_records, read, loaded, cached_or_load}
use pypst_reader.PropContext.Records.{PropertyRecord, find_record, add_record}
use pypst_reader.Heap.State.{HeapNode}
use pypst_reader.HeapTree.Entries.{fold_entries}
use pypst_reader.TableContext.Info.{is_long}
use pypst_reader.NamedProp.Entry.{NameIdEntry, prop_id}
use pypst_reader.NamedProp.State.{NamedPropertyMap, Action, continue}
use pypst_reader.NamedProp.Lists.{entry_of, has_entry, index_entries, highest}
use pypst_reader.NamedProp.Streams.{
  bounded_count, check_some_bucket, check_highest, count_of, bucket_count,
}

entry_of-append_old :
    (found : List (ℕ × NameIdEntry)) (k j : ℕ) (e : NameIdEntry) {a : NameIdEntry}
    → entry_of found j ≡ some a
    → entry_of (found ++ (k, e) ∷ []) j ≡ some a
unfolding entry_of
entry_of-append_old [] k j e h = cc
entry_of-append_old ((i, b) ∷ found) k j e h = elim (Bool-cases (i == j)) [
  | inl same ↦ rw same (rw same at h)
  | inr other ↦ rw other (entry_of-append_old found k j e (rw other at h))
]

entry_of-append_new :
    (found : List (ℕ × NameIdEntry)) (k : ℕ) (e : NameIdEntry)
    → has_entry found k ≡ false
    → entry_of (found ++ (k, e) ∷ []) k ≡ some e
unfolding entry_of has_entry
entry_of-append_new [] k e h = let same : (k == k) ≡ true = ground arith in rw same refl
entry_of-append_new ((i, b) ∷ found) k e h = elim (Bool-cases (i == k)) [
  | inl same ↦ absurd (ground (arith, same, h))
  | inr other ↦ rw other (entry_of-append_new found k e (rw other at h))
]

index_entries-keeps :
    (es : List NameIdEntry) (found out : List (ℕ × NameIdEntry)) (j : ℕ) (a : NameIdEntry)
    → index_entries es found ≡ ok out
    → entry_of found j ≡ some a
    → entry_of out j ≡ some a
unfolding index_entries
index_entries-keeps [] found out j a h at = subst (λ m. entry_of m j ≡ some a) (ok-injective h) at
index_entries-keeps (e ∷ es) found out j a h at =
    let (_, h1, h2) = >>=-eq-ok (require (not (has_entry found (prop_id e))) format) _ h in
    index_entries-keeps es (found ++ (prop_id e, e) ∷ []) out j a h2
      (entry_of-append_old found (prop_id e) j e at)

-- In an index that is built, every entry of the stream is the one under its own property id.
pub index_entries-In :
    (es : List NameIdEntry) (found out : List (ℕ × NameIdEntry)) (e : NameIdEntry)
    → index_entries es found ≡ ok out
    → In e es
    → entry_of out (prop_id e) ≡ some e
unfolding index_entries
index_entries-In [] found out e h i = elim i [ ]
index_entries-In (x ∷ es) found out e h (here xs) =
    let (_, h1, h2) = >>=-eq-ok (require (not (has_entry found (prop_id x))) format) _ h in
    let fresh : has_entry found (prop_id x) ≡ false = ground (arith, require-eq-ok _ _ h1) in
    index_entries-keeps es (found ++ (prop_id x, x) ∷ []) out (prop_id x) x h2
      (entry_of-append_new found (prop_id x) x fresh)
index_entries-In (x ∷ es) found out e h (there y xs i) =
    let (_, h1, h2) = >>=-eq-ok (require (not (has_entry found (prop_id x))) format) _ h in
    index_entries-In es (found ++ (prop_id x, x) ∷ []) out e h2 i

-- The highest id is above every id from 0x1000 on, and above the one so far.
abbrev AtMost : Option ℕ → ℕ → Type 0
AtMost none i = i < 0x1000
AtMost (some best) i = (i < 0x1000) ⊎ (i ≤ best)

highest-keeps :
    (records : List PropertyRecord) (best : Option ℕ) (i : ℕ)
    → AtMost best i
    → AtMost (highest records best) i
unfolding highest
highest-keeps [] best i h = h
highest-keeps (r ∷ records) none i h = elim (Bool-cases (leb 0x1000 r.prop_id)) [
  | inl bucket ↦ rw bucket (highest-keeps records (some r.prop_id) i (inl h))
  | inr other ↦ rw other (highest-keeps records none i h)
]
highest-keeps (r ∷ records) (some best) i h =
    elim (Bool-cases (leb 0x1000 r.prop_id && ltb best r.prop_id)) [
      | inl above ↦ rw above (
          highest-keeps records (some r.prop_id) i
            (elim h [ inl low ↦ inl low | inr le ↦ inr (ground (arith, above, le)) ]))
      | inr below ↦ rw below (highest-keeps records (some best) i h)
    ]

first_AtMost : (i : ℕ) → AtMost (if leb 0x1000 i then some i else none) i
first_AtMost i = elim (Bool-cases (leb 0x1000 i)) [
  | inl bucket ↦ rw bucket (inr (omega arith))
  | inr other ↦ rw other (ground arith)
]

next_AtMost : (best i : ℕ) → AtMost (some (if leb 0x1000 i && ltb best i then i else best)) i
next_AtMost best i = elim (Bool-cases (leb 0x1000 i && ltb best i)) [
  | inl above ↦ rw above (inr (omega arith))
  | inr below ↦ rw below (elim (Bool-cases (leb 0x1000 i)) [
    | inl bucket ↦ inr (ground (arith, bucket, below))
    | inr other ↦ inl (ground arith)
  ])
]

highest-AtMost :
    (records : List PropertyRecord) (best : Option ℕ) (r : PropertyRecord)
    → In r records
    → AtMost (highest records best) r.prop_id
unfolding highest
highest-AtMost [] best r i = elim i [ ]
highest-AtMost (x ∷ records) none r (here xs) =
    highest-keeps records (if leb 0x1000 x.prop_id then some x.prop_id else none) x.prop_id
      (first_AtMost x.prop_id)
highest-AtMost (x ∷ records) none r (there y xs i) =
    highest-AtMost records (if leb 0x1000 x.prop_id then some x.prop_id else none) r i
highest-AtMost (x ∷ records) (some best) r (here xs) =
    highest-keeps records
      (some (if leb 0x1000 x.prop_id && ltb best x.prop_id then x.prop_id else best)) x.prop_id
      (next_AtMost best x.prop_id)
highest-AtMost (x ∷ records) (some best) r (there y xs i) =
    highest-AtMost records
      (some (if leb 0x1000 x.prop_id && ltb best x.prop_id then x.prop_id else best)) r i

bounded_count-le : (v : PropValue) (n : ℕ) → bounded_count v ≡ ok n → n ≤ 0xEFFF
unfolding bounded_count
bounded_count-le (PropValue.one (Scalar.int (pos v))) n h = ground arith
bounded_count-le (PropValue.one (Scalar.int (negsuc v))) n h = cc
bounded_count-le (PropValue.one Scalar.nothing) n h = cc
bounded_count-le (PropValue.one (Scalar.float_bits w x)) n h = cc
bounded_count-le (PropValue.one (Scalar.bool b)) n h = cc
bounded_count-le (PropValue.one (Scalar.bytes b)) n h = cc
bounded_count-le (PropValue.one (Scalar.text b)) n h = cc
bounded_count-le (PropValue.one (Scalar.time b)) n h = cc
bounded_count-le (PropValue.one (Scalar.uuid b)) n h = cc
bounded_count-le (PropValue.one (Scalar.object_ref b)) n h = cc
bounded_count-le (PropValue.many vs) n h = cc

check_highest-lt :
    (n i : ℕ) (best : Option ℕ) {u : Unit {0}}
    → check_highest n best ≡ ok u
    → AtMost best i
    → (i < 0x1000) ⊎ (i < 0x1000 + n)
unfolding check_highest
check_highest-lt n i none h a = inl a
check_highest-lt n i (some best) h (inl low) = inl low
check_highest-lt n i (some best) h (inr le) =
    let inside : (best - 0x1000) < n = ground (arith, require-eq-ok _ _ h) in inr (omega arith)

continue-eq-ok {ℓ κ} :
    {A : Type ℓ} {B : Type κ} (r : Result A) (f : A → Action B) (m : NamedPropertyMap) {b : B}
    → (continue r f m).0 ≡ ok b
    → (a : A) × (r ≡ ok a) × (continue r f m ≡ f a m) × ((f a m).0 ≡ ok b)
continue-eq-ok (ok a) f m h = (a, refl, refl, h)
continue-eq-ok (err e) f m h = cc
continue-eq-ok stuck f m h = cc

loaded-some :
    (c : PropertyContext) (r : Result (List PropertyRecord) × HeapNode)
    (records : List PropertyRecord)
    → (loaded c r).0 ≡ ok records
    → (loaded c r).1.records ≡ some records
unfolding loaded
loaded-some c (ok found, h) records e = ap some (ok-injective e)
loaded-some c (err x, h) records e = cc
loaded-some c (stuck, h) records e = cc

-- Once the records are read, they are kept.
all_records-some :
    (c : PropertyContext) (kept : Option (List PropertyRecord)) (records : List PropertyRecord)
    → c.records ≡ kept
    → (cached_or_load c kept).0 ≡ ok records
    → (cached_or_load c kept).1.records ≡ some records
unfolding cached_or_load
all_records-some c (some found) records e h = e ∙ ap some (ok-injective h)
all_records-some c none records e h =
    loaded-some c (fold_entries c.tree (add_record c.limits.max_property_count) [] c.heap) records h

abbrev Bounded : ℕ → Result ℕ × NamedPropertyMap → Type 0
Bounded n out =
    (n ≤ 0xEFFF)
    × (records : List PropertyRecord) × (out.1.properties.records ≡ some records)
    × (check_highest n (highest records none) ≡ ok tt)

count_of-Bounded :
    (found : Option PropertyRecord) (m : NamedPropertyMap) (n : ℕ)
    → (count_of found m).0 ≡ ok n
    → Bounded n (count_of found m)
unfolding count_of all_records
count_of-Bounded none m n h = cc
count_of-Bounded (some r) m n h =
    let (_, _, p1, h1) = continue-eq-ok (require (is_long r.prop_type) format) _ m h in
    let (v, _, p2, h2) = continue-eq-ok (read m.properties r).0 _ _ h1 in
    let m2 = record m { properties = (read m.properties r).1 } in
    let (k, at, p3, h3) = continue-eq-ok (bounded_count v) _ m2 h2 in
    let (_, _, p4, h4) = continue-eq-ok (check_some_bucket k m2).0 _ _ h3 in
    let m4 = (check_some_bucket k m2).1 in
    let (records, read_ok, p5, h5) = continue-eq-ok (all_records m4.properties).0 _ _ h4 in
    let m5 = record m4 { properties = (all_records m4.properties).1 } in
    let (_, fits, p6, h6) = continue-eq-ok (check_highest k (highest records none)) _ m5 h5 in
    let kept = all_records-some m4.properties m4.properties.records records refl read_ok in
    let same = p1 ∙ p2 ∙ p3 ∙ p4 ∙ p5 ∙ p6 in
    subst (λ (t : ℕ). Bounded t (count_of (some r) m)) (ok-injective h6)
      (subst (λ out. Bounded k out) (sym same) (bounded_count-le v k at, records, kept, fits))

-- A number of buckets that is read leaves every property id of the map below the end of the
-- buckets, which is no more than 0xFFFF.
pub bucket_count-bounds :
    (m : NamedPropertyMap) (n : ℕ) (records : List PropertyRecord) (r : PropertyRecord)
    → (bucket_count m).0 ≡ ok n
    → (bucket_count m).1.properties.records ≡ some records
    → In r records
    → (r.prop_id < 0x1000 + n) × (0x1000 + n ≤ 0xFFFF)
unfolding bucket_count
bucket_count-bounds m n records r h kept i =
    let (found, read_ok, p, h1) = continue-eq-ok (all_records m.properties).0 _ _ h in
    let m1 = record m { properties = (all_records m.properties).1 } in
    let (le, others, kept', fits) =
      subst (Bounded n) (sym p) (count_of-Bounded (find_record 1 found) m1 n h1) in
    let e : others ≡ records = some_inj (sym kept' ∙ kept) in
    let fits' = subst (λ rs. check_highest n (highest rs none) ≡ ok tt) e fits in
    (
      elim (check_highest-lt n r.prop_id (highest records none) fits'
          (highest-AtMost records none r i)) [ inl low ↦ omega arith | inr below ↦ below ],
      omega arith,
    )
