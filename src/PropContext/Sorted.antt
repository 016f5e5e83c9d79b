-- ===== src/PropContext/Sorted.antt =====
-- The records of a property context: in order, no id twice, and how many.
use mathlib.Core.Path.{subst}
use pypst_reader.Prelude.{
  ℕ, suc, ◌+◌, ◌≤◌, ◌<◌, ◌≡◌, refl, sym, ap, ◌∙◌, arith, false, ◌||◌, List, [], ◌∷◌, ◌++◌, length,
  length-append, ltb, ◌==◌, not, All, none, some, Bool-cases, inl, inr,
}
use pypst_reader.Error.{
  Result, ok, err, stuck, format, require, >>=-eq-ok, require-eq-ok, ok-injective,
}
use pypst_reader.Bytes.{Bytes}
use pypst_reader.Limits.{check_count}
use pypst_reader.HeapTree.Entries.{fold_entries}
use pypst_reader.HeapTree.Walk.{fold_entries_inv, check_count-le}
use pypst_reader.PropContext.Records.{PropertyRecord, unpack, has_id, add_record, insert, sort}
use pypst_reader.Heap.State.{HeapNode}
use pypst_reader.PropContext.{PropertyContext, all_records, cached_or_load, loaded}

-- No property id occurs twice.
abbrev pub Unique : List PropertyRecord → Type 0
Unique [] = Unit
Unique (r ∷ rest) = (has_id rest r.prop_id ≡ false) × Unique rest

abbrev Above : ℕ → PropertyRecord → Type 0
Above i r = i < r.prop_id

-- The ids rise strictly.
abbrev pub Ascending : List PropertyRecord → Type 0
Ascending [] = Unit
Ascending (r ∷ rest) = All (Above r.prop_id) rest × Ascending rest

has_id-append :
    (xs : List PropertyRecord) (r : PropertyRecord) (i : ℕ)
    → has_id (xs ++ r ∷ []) i ≡ (has_id xs i || r.prop_id == i)
unfolding has_id
has_id-append [] r i = ground arith
has_id-append (x ∷ xs) r i = ground (arith, has_id-append xs r i)

Unique-append :
    (xs : List PropertyRecord) (r : PropertyRecord)
    → Unique xs
    → has_id xs r.prop_id ≡ false
    → Unique (xs ++ r ∷ [])
unfolding has_id
Unique-append [] r u f = (refl, tt)
Unique-append (x ∷ xs) r (fresh, u) f =
    (ground (arith, has_id-append xs r x.prop_id), Unique-append xs r u (ground arith))

has_id-insert :
    (r : PropertyRecord) (xs : List PropertyRecord) (i : ℕ)
    → has_id (insert r xs) i ≡ (r.prop_id == i || has_id xs i)
unfolding has_id insert
has_id-insert r [] i = refl
has_id-insert r (x ∷ xs) i = ground (arith, has_id-insert r xs i)

has_id-sort : (xs : List PropertyRecord) (i : ℕ) → has_id (sort xs) i ≡ has_id xs i
unfolding has_id sort
has_id-sort [] i = refl
has_id-sort (x ∷ xs) i =
    has_id-insert x (sort xs) i ∙ ap (λ b. x.prop_id == i || b) (has_id-sort xs i)

All-insert :
    (i : ℕ) (r : PropertyRecord) (xs : List PropertyRecord)
    → i < r.prop_id
    → All (Above i) xs
    → All (Above i) (insert r xs)
unfolding insert
All-insert i r [] h a = (h, tt)
All-insert i r (x ∷ xs) h (p, a) = elim (Bool-cases (ltb x.prop_id r.prop_id)) [
  | inl after ↦ rw after (p, All-insert i r xs h a)
  | inr before ↦ rw before (h, (p, a))
]

All-lower : (i j : ℕ) (xs : List PropertyRecord) → i < j → All (Above j) xs → All (Above i) xs
All-lower i j [] h a = tt
All-lower i j (x ∷ xs) h (p, a) = (omega arith, All-lower i j xs h a)

insert-Ascending :
    (r : PropertyRecord) (xs : List PropertyRecord)
    → Ascending xs
    → has_id xs r.prop_id ≡ false
    → Ascending (insert r xs)
unfolding insert has_id
insert-Ascending r [] a f = (tt, tt)
insert-Ascending r (x ∷ xs) (above, a) f = elim (Bool-cases (ltb x.prop_id r.prop_id)) [
  | inl after ↦
      rw after
        (All-insert x.prop_id r xs (ground arith) above, insert-Ascending r xs a (ground arith))
  | inr before ↦
      let less : r.prop_id < x.prop_id = ground arith in
      rw before ((less, All-lower r.prop_id x.prop_id xs less above), (above, a))
]

sort-Ascending : (xs : List PropertyRecord) → Unique xs → Ascending (sort xs)
unfolding sort
sort-Ascending [] u = tt
sort-Ascending (x ∷ xs) (fresh, u) =
    insert-Ascending x (sort xs) (sort-Ascending xs u) (has_id-sort xs x.prop_id ∙ fresh)

length-insert :
    (r : PropertyRecord) (xs : List PropertyRecord) → length (insert r xs) ≡ suc (length xs)
unfolding insert
length-insert r [] = refl
length-insert r (x ∷ xs) = ground (arith, length-insert r xs)

length-sort : (xs : List PropertyRecord) → length (sort xs) ≡ length xs
unfolding sort
length-sort [] = refl
length-sort (x ∷ xs) = length-insert x (sort xs) ∙ ap suc (length-sort xs)

-- What the loop over the tree keeps: no id twice, and the count within the ceiling.
abbrev Collected : ℕ → ℕ → List PropertyRecord → Type 0
Collected ceiling n found = Unique found × (length found ≡ n) × (length found ≤ ceiling)

add_record-Collected :
    (ceiling n : ℕ) (found : List PropertyRecord) (entry : Bytes × Bytes)
    (found' : List PropertyRecord)
    → Collected ceiling n found
    → add_record ceiling found entry ≡ ok found'
    → Collected ceiling (suc n) found'
unfolding add_record
add_record-Collected ceiling n found entry found' (u, count, le) h =
    let (r, h1, h2) = >>=-eq-ok (unpack entry) _ h in
    let (_, h3, h4) = >>=-eq-ok (require (not (has_id found r.prop_id)) format) _ h2 in
    let (_, h5, h6) = >>=-eq-ok (check_count (length found + 1) ceiling) _ h4 in
    let fresh : has_id found r.prop_id ≡ false = ground (arith, require-eq-ok _ _ h3) in
    let size = length-append found (r ∷ []) in
    let room = check_count-le (length found + 1) ceiling h5 in
    subst (Collected ceiling (suc n)) (ok-injective h6)
      (Unique-append found r u fresh, omega (arith, size), omega (arith, size, room))

loaded-eq-ok :
    (c : PropertyContext) (r : Result (List PropertyRecord) × HeapNode)
    (records : List PropertyRecord)
    → (loaded c r).0 ≡ ok records
    → (found : List PropertyRecord) × (r.0 ≡ ok found)
      × (sort found ≡ records)
      × ((loaded c r).1.records ≡ some records)
unfolding loaded
loaded-eq-ok c (ok found, h) records e = (found, refl, ok-injective e, ap some (ok-injective e))
loaded-eq-ok c (err x, h) records e = absurd (grind (arith, e))
loaded-eq-ok c (stuck, h) records e = absurd (grind (arith, e))

again_lem :
    (c : PropertyContext) (m : List PropertyRecord) → c.records ≡ some m → all_records c ≡ (ok m, c)
unfolding all_records cached_or_load
again_lem c m at = ap (cached_or_load c) at

-- The records that a context reads, when it has read none before, rise strictly by property id, so
-- that no id occurs twice, and are `max_property_count` and `max_items` at most; they are kept, and
-- a second read returns them and leaves the context as it is.
pub all_records-Ascending :
    (c : PropertyContext) (records : List PropertyRecord)
    → c.records ≡ none
    → (all_records c).0 ≡ ok records
    → Ascending records
      × (length records ≤ c.limits.max_property_count)
      × (length records ≤ c.heap.limits.max_items)
      × ((all_records c).1.records ≡ some records)
      × (all_records (all_records c).1 ≡ (ok records, (all_records c).1))
unfolding all_records cached_or_load
all_records-Ascending c records none_yet h0 =
    let h = subst (λ m. (cached_or_load c m).0 ≡ ok records) none_yet h0 in
    let step = add_record c.limits.max_property_count in
    let (found, walked, sorted, kept) =
      loaded-eq-ok c (fold_entries c.tree step [] c.heap) records h in
    let (n, within, (unique, size, room)) =
      fold_entries_inv step (Collected c.limits.max_property_count)
        (add_record-Collected c.limits.max_property_count) c.tree [] found c.heap
        (tt, refl, omega arith) walked in
    let count = ap length (sym sorted) ∙ length-sort found in
    let stays = subst (λ m. (cached_or_load c m).1.records ≡ some records) (sym none_yet) kept in
    (
      subst Ascending sorted (sort-Ascending found unique),
      omega (arith, count),
      omega (arith, count, size),
      stays,
      again_lem (cached_or_load c c.records).1 records stays,
    )
