-- ===== src/TableContext/Width.antt =====
-- The division by the row's width in `_read_matrix` of src/pypstreader/ltp/table_context.py.
use pypst_reader.Prelude.{
  ℕ, zero, suc, ◌≡◌, ◌≢◌, ◌↔◌, refl, arith, false, List, [], ◌∷◌, ltb, leb, ◌==◌, Bool-cases, inl,
  inr,
}
use pypst_reader.Error.{Result, ok, err, stuck, escaped, ◌>>=◌, ◌>>◌}
use pypst_reader.Bytes.{Bytes}
use pypst_reader.Limits.{Limits, check_count}
use pypst_reader.TableContext.Info.{TableContextInfo, check_row_header_fits, row_width}
use pypst_reader.TableContext.RowMatrix.{
  row_counts, row_count_of, matrix_of, check_rows, last, starts_from, Matrix,
}

escapes-no :
    {A B : Type 0} (r : Result A) (next : A → Result B)
    → r ≢ err escaped
    → ((a : A) → next a ≢ err escaped)
    → (r >>= next) ≢ err escaped
escapes-no (ok a) next h k = k a
escapes-no (err e) next h k = λ x. h cc
escapes-no stuck next h k = λ x. cc

row_counts_wide :
    (width : ℕ) (blocks : List Bytes) → (width == 0) ≡ false → row_counts width blocks ≢ err escaped
unfolding row_counts row_count_of
row_counts_wide width [] wide = λ x. cc
row_counts_wide width (b ∷ blocks) wide =
    escapes-no (row_count_of width b) _ (rw wide (λ x. cc)) (λ n.
      escapes-no (row_counts width blocks) _ (row_counts_wide width blocks wide) (λ rest x. cc))

check_count_lem : (n ceiling : ℕ) → check_count n ceiling ≢ err escaped
unfolding check_count
check_count_lem n ceiling = elim (Bool-cases (ltb ceiling n)) [
  | inl a ↦ rw a (λ x. cc)
  | inr a ↦ rw a (λ x. cc)
]

check_rows_lem : (info : TableContextInfo) (n : ℕ) → check_rows info n ≢ err escaped
unfolding check_rows check_row_header_fits
check_rows_lem info zero = λ x. cc
check_rows_lem info (suc n) = elim (Bool-cases (leb 8 info.end_4byte)) [
  | inl a ↦ rw a (λ x. cc)
  | inr a ↦ rw a (λ x. cc)
]

-- What follows once the counts are known.
abbrev counted : TableContextInfo → Limits → List Bytes → List ℕ → Result Matrix
counted info limits blocks counts =
    check_rows info (last (starts_from 0 counts))
    >> (check_count (last (starts_from 0 counts)) limits.max_items
        >> ok (record { blocks = blocks; counts = counts; starts = starts_from 0 counts }))

counted_lem :
    (info : TableContextInfo) (limits : Limits) (blocks : List Bytes) (counts : List ℕ)
    → counted info limits blocks counts ≢ err escaped
counted_lem info limits blocks counts =
    escapes-no (check_rows info (last (starts_from 0 counts))) _
      (check_rows_lem info (last (starts_from 0 counts)))
      (λ u.
        escapes-no (check_count (last (starts_from 0 counts)) limits.max_items) _
          (check_count_lem (last (starts_from 0 counts)) limits.max_items) (λ v x. cc))

zero_width :
    (width : ℕ) (blocks : List Bytes)
    → width ≡ 0
    → blocks ≢ []
    → row_counts width blocks ≡ err escaped
unfolding row_counts row_count_of
zero_width width [] e some_block = absurd (some_block refl)
zero_width width (b ∷ blocks) e some_block = rw e refl

-- Once the blocks are read, `_read_matrix` ends in an exception that is none of the reader's exactly
-- if there is a block and the rows have no width.
pub matrix_of-escaped :
    (info : TableContextInfo) (limits : Limits) (blocks : List Bytes)
    → (matrix_of info limits blocks ≡ err escaped) ↔ ((row_width info ≡ 0) × (blocks ≢ []))
unfolding matrix_of
matrix_of-escaped info limits blocks =
    (forward, λ (e, some_block). rw (zero_width (row_width info) blocks e some_block) refl)
  where
    wide_no : (row_width info == 0) ≡ false → matrix_of info limits blocks ≢ err escaped
    wide_no wide =
        escapes-no (row_counts (row_width info) blocks) (counted info limits blocks)
          (row_counts_wide (row_width info) blocks wide) (counted_lem info limits blocks)

    empty_no : blocks ≡ [] → matrix_of info limits blocks ≢ err escaped
    empty_no e = rw e (counted_lem info limits [] [])

    forward : matrix_of info limits blocks ≡ err escaped → (row_width info ≡ 0) × (blocks ≢ [])
    forward x = elim (Bool-cases (row_width info == 0)) [
      | inl narrow ↦ (ground arith, λ e. empty_no e x)
      | inr wide ↦ absurd (wide_no wide x)
    ]
