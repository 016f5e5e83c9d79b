-- ===== src/TableContext/Indexed.antt =====
-- The row index of a table context in src/pypstreader/ltp/table_context.py: no row id occurs twice,
-- so that each id that the tree lists leads to its row.
use mathlib.Core.Path.{subst}
use pypst_reader.Prelude.{
  ℕ, suc, ◌+◌, ◌≤◌, ◌≡◌, ◌≢◌, refl, arith, true, false, List, [], ◌∷◌, ◌++◌, length, length-append,
  ◌==◌, not, none, some, Bool-cases, inl, inr,
}
use pypst_reader.Error.{
  Result, ok, err, stuck, format, require, >>=-eq-ok, require-eq-ok, ok-injective,
}
use pypst_reader.Bytes.{Bytes, need, u32}
use pypst_reader.Limits.{check_count}
use pypst_reader.BTree.Lookup.{In, here, there}
use pypst_reader.Heap.State.{HeapNode}
use pypst_reader.HeapTree.Entries.{fold_entries}
use pypst_reader.HeapTree.Walk.{fold_entries_inv}
use pypst_reader.TableContext.RowIndex.{ordinal, is_row, add_row}
use pypst_reader.TableContext.State.{TableContext, continue}
use pypst_reader.TableContext.{cached_index, keep_index, row_index, find_row, row_found, row}

-- No row id occurs twice.
abbrev pub Unique : List (ℕ × ℕ) → Type 0
Unique [] = Unit
Unique ((k, v) ∷ rest) = (is_row rest k ≡ false) × Unique rest

Unique-append :
    (xs : List (ℕ × ℕ)) (k v : ℕ) → Unique xs → is_row xs k ≡ false → Unique (xs ++ (k, v) ∷ [])
unfolding is_row
Unique-append [] k v u f = (refl, tt)
Unique-append ((j, w) ∷ xs) k v (fresh, u) f = elim (Bool-cases (j == k)) [
  | inl same ↦ absurd (ground (arith, same))
  | inr other ↦
      (is_row-append xs j k v fresh (ground arith), Unique-append xs k v u (rw other at f))
]
  where
    is_row-append :
        (xs : List (ℕ × ℕ)) (j k v : ℕ)
        → is_row xs j ≡ false
        → k ≢ j
        → is_row (xs ++ (k, v) ∷ []) j ≡ false
    is_row-append [] j k v h ne = ground arith
    is_row-append ((i, w) ∷ xs) j k v h ne = elim (Bool-cases (i == j)) [
      | inl same ↦ absurd (ground (arith, same))
      | inr other ↦ rw other (is_row-append xs j k v (rw other at h) ne)
    ]

-- What the loop over the tree keeps.
abbrev Collected : ℕ → ℕ → List (ℕ × ℕ) → Type 0
Collected ceiling n found = Unique found × (length found ≡ n)

add_row-Collected :
    (ceiling n : ℕ) (found : List (ℕ × ℕ)) (entry : Bytes × Bytes) (found' : List (ℕ × ℕ))
    → Collected ceiling n found
    → add_row ceiling found entry ≡ ok found'
    → Collected ceiling (suc n) found'
unfolding add_row
add_row-Collected ceiling n found (key, value) found' (u, count) h =
    let (_, h1, h2) = >>=-eq-ok (need 4 key 0) _ h in
    let (_, h3, h4) = >>=-eq-ok (need 4 value 0) _ h2 in
    let (_, h5, h6) = >>=-eq-ok (require (not (is_row found (u32 key 0))) format) _ h4 in
    let (_, h7, h8) = >>=-eq-ok (check_count (length found + 1) ceiling) _ h6 in
    let fresh : is_row found (u32 key 0) ≡ false = ground (arith, require-eq-ok _ _ h5) in
    let size = length-append found ((u32 key 0, u32 value 0) ∷ []) in
    subst (Collected ceiling (suc n)) (ok-injective h8)
      (Unique-append found (u32 key 0) (u32 value 0) u fresh, omega (arith, size))

-- Every pair of the list is what the lookup finds, if no id occurs twice.
ordinal-In :
    (found : List (ℕ × ℕ)) (p : ℕ × ℕ)
    → Unique found
    → In p found
    → (is_row found p.0 ≡ true) × (ordinal found p.0 ≡ some p.1)
unfolding is_row ordinal
ordinal-In [] p u i = elim i [ ]
ordinal-In ((k, v) ∷ found) p u (here xs) =
    let same : (k == k) ≡ true = ground arith in rw same (refl, refl)
ordinal-In ((k, v) ∷ found) p (fresh, u) (there x xs i) =
    let (is_there, at) = ordinal-In found p u i in
    elim (Bool-cases (k == p.0)) [
      | inl same ↦
          let e : k ≡ p.0 = ground arith in
          let clash = subst (λ (t : ℕ). is_row found t ≡ false) e fresh in
          absurd (ground (arith, clash, is_there))
      | inr other ↦ rw other (is_there, at)
    ]

keep_index-eq-ok :
    (c : TableContext) (r : Result (List (ℕ × ℕ)) × HeapNode) (found : List (ℕ × ℕ))
    → (continue r.0 keep_index (record c { heap = r.1 })).0 ≡ ok found
    → r.0 ≡ ok found
unfolding keep_index
keep_index-eq-ok c (ok xs, h) found e = e
keep_index-eq-ok c (err x, h) found e = absurd (grind (arith, e))
keep_index-eq-ok c (stuck, h) found e = absurd (grind (arith, e))

-- In a row index that is read, no row id occurs twice, and there are `max_items` ids at most.
pub row_index-Unique :
    (c : TableContext) (found : List (ℕ × ℕ))
    → c.index ≡ none
    → (row_index c).0 ≡ ok found
    → Unique found × (length found ≤ c.heap.limits.max_items)
unfolding row_index cached_index
row_index-Unique c found none_yet h0 =
    let h = subst (λ m. (cached_index m c).0 ≡ ok found) none_yet h0 in
    let step = add_row c.limits.max_items in
    let walked = keep_index-eq-ok c (fold_entries c.tree step [] c.heap) found h in
    let (n, within, found_ok) =
      fold_entries_inv step (Collected c.limits.max_items) (add_row-Collected c.limits.max_items)
        c.tree [] found c.heap (tt, refl) walked in
    (found_ok.0, omega (arith, found_ok.1, within))

-- A row id that the row index lists leads to the row of its ordinal: `find_row` is `row` there, in
-- the state after the index was read.
pub find_row-row :
    (c : TableContext) (found : List (ℕ × ℕ)) (p : ℕ × ℕ)
    → c.index ≡ none
    → (row_index c).0 ≡ ok found
    → In p found
    → find_row p.0 c ≡ row p.1 (row_index c).1
unfolding find_row row_found
find_row-row c found p none_yet h i =
    let (unique, within) = row_index-Unique c found none_yet h in
    let (_, at) = ordinal-In found p unique i in rw (h, at) refl
