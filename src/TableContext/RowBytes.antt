-- ===== src/TableContext/RowBytes.antt =====
-- The rows of a matrix, as one list: each block's whole rows, one block after the other.
use mathlib.Core.Path.{subst}
use pypst_reader.Prelude.{
  ℕ, zero, suc, ◌-◌, ◌*◌, ◌≤◌, ◌<◌, ◌≡◌, sym, ap, ◌∙◌, arith, List, [], length, ltb, Option, none,
  some, get_or, get_elem?, get_elem?_past, Bool-cases, inl, inr,
}
use pypst_reader.Error.{Result, ok, err, format, >>=-eq-ok, ok-injective}
use pypst_reader.Bytes.{Bytes, slice}
use pypst_reader.Limits.{Limits, check_count}
use pypst_reader.BTree.{bisect_right}
use pypst_reader.BTree.Lookup.{Splits, bisect_right-Splits}
use pypst_reader.TableContext.Info.{TableContextInfo, row_width}
use pypst_reader.TableContext.RowMatrix.{
  Matrix, row_counts, starts_from, last, matrix_of, row_bytes, check_rows,
}
use pypst_reader.TableContext.Starts.{
  rows_of, get_or-starts_from, length-starts_from, get_or-starts_from_end, blocks-Located,
}

abbrev as_row : Option Bytes → Result Bytes
as_row none = err format
as_row (some r) = ok r

abbrev pub row_at : List Bytes → ℕ → Result Bytes
row_at rows index = as_row (get_elem? rows index)

abbrev matrix_with : List Bytes → List ℕ → Matrix
matrix_with blocks counts = record {
  blocks = blocks;
  counts = counts;
  starts = starts_from 0 counts;
}

matrix_of_inv :
    (info : TableContextInfo) (limits : Limits) (blocks : List Bytes) (m : Matrix)
    → matrix_of info limits blocks ≡ ok m
    → (counts : List ℕ) × (row_counts (row_width info) blocks ≡ ok counts)
      × (matrix_with blocks counts ≡ m)
unfolding matrix_of
matrix_of_inv info limits blocks m h =
    let (counts, h1, h2) = >>=-eq-ok (row_counts (row_width info) blocks) _ h in
    let (_, _, h3) = >>=-eq-ok (check_rows info (last (starts_from 0 counts))) _ h2 in
    let (_, _, h4) = >>=-eq-ok (check_count (last (starts_from 0 counts)) limits.max_items) _ h3 in
    (counts, h1, ok-injective h4)

last-length_lem :
    (width : ℕ) (blocks : List Bytes) (counts : List ℕ)
    → row_counts width blocks ≡ ok counts
    → last (starts_from 0 counts) ≡ length (rows_of width blocks)
unfolding last
last-length_lem width blocks counts h =
    let size : length (starts_from 0 counts) - 1 ≡ length counts =
      omega (arith, length-starts_from 0 counts) in
    ap (λ (k : ℕ). get_or (starts_from 0 counts) k 0) size
    ∙ get_or-starts_from_end width 0 blocks counts h
    ∙ omega arith

-- The last start is the number of rows.
pub last-length :
    (info : TableContextInfo) (limits : Limits) (blocks : List Bytes) (m : Matrix)
    → matrix_of info limits blocks ≡ ok m
    → last m.starts ≡ length (rows_of (row_width info) blocks)
last-length info limits blocks m h =
    let (counts, h1, e) = matrix_of_inv info limits blocks m h in
    subst (λ m. last m.starts ≡ length (rows_of (row_width info) blocks)) e
      (last-length_lem (row_width info) blocks counts h1)

-- The block before the position where `index` would go in has it.
block_bounds :
    (starts : List ℕ) (index at : ℕ)
    → Splits starts index at
    → get_or starts 0 0 ≡ 0
    → 0 < length starts
    → index < last starts
    → (get_or starts (at - 1) 0 ≤ index) × (index < get_or starts (suc (at - 1)) 0)
unfolding last
block_bounds starts index zero (within, below, above) first some_start inside =
    let beyond = above some_start in absurd (omega (arith, beyond, first))
block_bounds starts index (suc n) (within, below, above) first some_start inside =
    let low = below (omega arith) in
    let next : suc (suc n - 1) ≡ suc n = omega arith in
    (
      low,
      subst (λ (t : ℕ). index < get_or starts t 0) (sym next)
          (elim (Bool-cases (ltb (suc n) (length starts))) [
            | inl more ↦ above (ground arith)
            | inr end ↦
                let e : suc n - 1 ≡ length starts - 1 = ground arith in
                let top = ap (λ (t : ℕ). get_or starts t 0) e in absurd (omega (arith, low, top))
          ]),
    )

-- The block found by bisection is the one in which the row lies.
bisected_row :
    (width : ℕ) (blocks : List Bytes) (counts : List ℕ) (index : ℕ)
    → row_counts width blocks ≡ ok counts
    → index < last (starts_from 0 counts)
    → get_elem? (rows_of width blocks) index
      ≡ some (
          slice
            (get_or blocks (bisect_right (starts_from 0 counts) index - 1) [])
            ((index
                - get_or (starts_from 0 counts) (bisect_right (starts_from 0 counts) index - 1) 0)
              * width)
            width)
unfolding last
bisected_row width blocks counts index h inside =
    let starts = starts_from 0 counts in
    let at = bisect_right starts index in
    let size = length-starts_from 0 counts in
    let (low, high) =
      block_bounds starts index at (bisect_right-Splits starts index) (get_or-starts_from 0 counts)
        (omega (arith, size)) inside in
    let e : index - 0 ≡ index = omega arith in
    subst
      (λ (i : ℕ).
        get_elem? (rows_of width blocks) i
        ≡ some
            (slice (get_or blocks (at - 1) []) ((index - get_or starts (at - 1) 0) * width) width))
      e (blocks-Located width 0 blocks counts index h (at - 1) low high)

row_in :
    (width : ℕ) (blocks : List Bytes) (counts : List ℕ) (index : ℕ)
    → row_counts width blocks ≡ ok counts
    → row_bytes (matrix_with blocks counts) width index ≡ row_at (rows_of width blocks) index
unfolding row_bytes
row_in width blocks counts index h = elim (Bool-cases (ltb index (last (starts_from 0 counts)))) [
  | inl inside ↦
      rw inside (ap as_row (sym (bisected_row width blocks counts index h (ground arith))))
  | inr past ↦
      let beyond : length (rows_of width blocks) ≤ index =
        ground (arith, last-length_lem width blocks counts h) in
      rw past (ap as_row (sym (get_elem?_past (rows_of width blocks) index beyond)))
]

-- A row of a matrix, by its index, is the one at that place in the list of all whole rows of all
-- blocks, one block after the other, and an index past that list is refused.
pub row_bytes-rows_of :
    (info : TableContextInfo) (limits : Limits) (blocks : List Bytes) (m : Matrix) (index : ℕ)
    → matrix_of info limits blocks ≡ ok m
    → row_bytes m (row_width info) index ≡ row_at (rows_of (row_width info) blocks) index
row_bytes-rows_of info limits blocks m index h =
    let (counts, h1, e) = matrix_of_inv info limits blocks m h in
    subst (λ m. row_bytes m (row_width info) index ≡ row_at (rows_of (row_width info) blocks) index)
      e (row_in (row_width info) blocks counts index h1)
