-- ===== src/TableContext/Validated.antt =====
-- What the checks of the schema leave to the checks of a row, in table_context.py of
-- src/pypstreader/ltp.
use mathlib.Core.Path.{subst}
use pypst_reader.Prelude.{
  ℕ, ◌+◌, ◌-◌, ◌*◌, ◌/◌, ◌%◌, ◌≤◌, ◌<◌, ◌≡◌, ◌≢◌, ap, refl, sym, arith, Bool, true, false, ◌&&◌,
  ◌||◌, not, List, [], ◌∷◌, length, ltb, leb, ◌==◌, if◌then◌else◌, Bool-cases, ◌⊎◌, inl, inr,
  Option, none, some,
}
use pypst_reader.Error.{
  Result, ok, err, format, >>=-eq-ok, require, require-eq-ok, ok-injective, ◌>>=◌,
}
use pypst_reader.Bytes.{Bytes}
use pypst_reader.Bytes.RoundTrip.{need-ok}
use pypst_reader.BTree.Lookup.{In, here, there}
use pypst_reader.TableContext.Info.{
  TableContextInfo, ColumnDescriptor, Shape, one_byte, two_byte, four_byte, eight_byte, by_hnid,
  shape_of, width, validate, validate_columns, validate_column, check_reserved, check_region,
  shape_found, is_long, check_existence_bitmap, bitmap_size, existence_bitmap_size, row_width,
}
use pypst_reader.TableContext.Cells.{
  CellRecord, cell_record, record_of, inline_start, inline_cell, check_offset,
}

-- The cells that a row refuses although the schema was accepted: of four bytes or more, in the
-- row's first eight, and not one of the two integers there.
abbrev pub is_in_header : ColumnDescriptor → Option Shape → Bool
is_in_header c none = false
is_in_header c (some one_byte) = false
is_in_header c (some two_byte) = false
is_in_header c (some by_hnid) = ltb c.offset 8
is_in_header c (some shape) =
    ltb c.offset 8 && not (is_long c.prop_type && (c.offset == 0 || c.offset == 4))

abbrev Outcome : Bool → Result CellRecord → Type 0
Outcome early result =
    ((early ≡ true) × (result ≡ err format))
    ⊎ ((early ≡ false) × (r : CellRecord) × (result ≡ ok r))

check_offset_in :
    (c : ColumnDescriptor) (low high : ℕ)
    → low ≤ c.offset
    → c.offset + c.size ≤ high
    → check_offset c low high ≡ ok c.offset
unfolding check_offset
check_offset_in c low high h k =
    let e : (ltb c.offset low || ltb high (c.offset + c.size)) ≡ false = ground arith in rw e refl

check_offset_out :
    (c : ColumnDescriptor) (low high : ℕ) → c.offset < low → check_offset c low high ≡ err format
unfolding check_offset
check_offset_out c low high h =
    let e : (ltb c.offset low || ltb high (c.offset + c.size)) ≡ true = ground arith in rw e refl

-- An inline cell of four or eight bytes.
wide_cell :
    (info : TableContextInfo) (row : Bytes) (c : ColumnDescriptor) (size : ℕ)
    → c.size ≡ size
    → c.offset + size ≤ info.end_4byte
    → Outcome (ltb c.offset 8 && not (is_long c.prop_type && (c.offset == 0 || c.offset == 4))) (
        (if is_long c.prop_type && (c.offset == 0 || c.offset == 4)
          then ok c.offset
          else check_offset c 8 info.end_4byte)
        >>= λ start. inline_cell row c start)
wide_cell info row c size e fits =
    elim (Bool-cases (is_long c.prop_type && (c.offset == 0 || c.offset == 4))) [
      | inl reserved ↦ rw reserved (inr (ground arith, _, refl))
      | inr free ↦ elim (Bool-cases (ltb c.offset 8)) [
        | inl early ↦
            rw (free, early, check_offset_out c 8 info.end_4byte (ground arith)) (inl (refl, refl))
        | inr later ↦
            rw (free, later, check_offset_in c 8 info.end_4byte (ground arith) (ground arith))
              (inr (refl, _, refl))
      ]
    ]

record_of-Outcome :
    (info : TableContextInfo) (row : Bytes) (c : ColumnDescriptor) (shape : Shape) {u : Unit {0}}
    → info.end_4byte ≤ length row
    → check_region info c.offset shape ≡ ok u
    → c.size ≡ width shape
    → Outcome (is_in_header c (some shape)) (record_of info row c (some shape))
unfolding record_of inline_start check_region width
record_of-Outcome info row c one_byte room h e =
    let inside = require-eq-ok _ _ h in
    rw (check_offset_in c info.end_2byte info.end_1byte (ground arith) (ground arith))
      (inr (refl, _, refl))
record_of-Outcome info row c two_byte room h e =
    let inside = require-eq-ok _ _ h in
    rw (check_offset_in c info.end_4byte info.end_2byte (ground arith) (ground arith))
      (inr (refl, _, refl))
record_of-Outcome info row c four_byte room h e =
    let inside = require-eq-ok _ _ h in wide_cell info row c 4 e (ground arith)
record_of-Outcome info row c eight_byte room h e =
    let inside = require-eq-ok _ _ h in wide_cell info row c 8 e (ground arith)
record_of-Outcome info row c by_hnid room h e =
    let inside = require-eq-ok _ _ h in
    elim (Bool-cases (ltb c.offset 8)) [
      | inl early ↦ rw early (inl (refl, refl))
      | inr later ↦
          let room_ok : ltb info.end_4byte (c.offset + c.size) ≡ false = ground arith in
          rw (later, room_ok, need-ok 4 row c.offset (ground arith)) (inr (refl, _, refl))
    ]

-- What the checks of one column leave.
abbrev Valid : TableContextInfo → ColumnDescriptor → Type 0
Valid info c =
    (shape : Shape) × (shape_of c.prop_type ≡ some shape)
    × (check_region info c.offset shape ≡ ok tt)
    × (c.size ≡ width shape)
    × (c.existence_bit ≤ length info.columns)

shape_found_lem : (s : Option Shape) {shape : Shape} → shape_found s ≡ ok shape → s ≡ some shape
unfolding shape_found
shape_found_lem none h = cc
shape_found_lem (some s) h = ap some (ok-injective h)

validate_column-Valid :
    (info : TableContextInfo) (c : ColumnDescriptor) {u : Unit {0}}
    → validate_column info c ≡ ok u
    → Valid info c
unfolding validate_column
validate_column-Valid info c h =
    let (_, _, h1) = >>=-eq-ok (check_reserved c) _ h in
    let (shape, h2, h3) = >>=-eq-ok (shape_found (shape_of c.prop_type)) _ h1 in
    let (_, h4, h5) = >>=-eq-ok (check_region info c.offset shape) _ h3 in
    let (_, h6, h7) = >>=-eq-ok (require (c.size == width shape) format) _ h5 in
    let size = require-eq-ok (c.size == width shape) format h6 in
    let bit = require-eq-ok (leb c.existence_bit (length info.columns)) format h7 in
    (shape, shape_found_lem (shape_of c.prop_type) h2, h4, ground arith, ground arith)

validate_columns-Valid :
    (info : TableContextInfo) (columns : List ColumnDescriptor) (c : ColumnDescriptor)
    {u : Unit {0}}
    → validate_columns info columns ≡ ok u
    → In c columns
    → Valid info c
unfolding validate_columns
validate_columns-Valid info [] c h i = elim i [ ]
validate_columns-Valid info (x ∷ columns) c h (here xs) =
    let (_, h1, h2) = >>=-eq-ok (validate_column info x) _ h in validate_column-Valid info x h1
validate_columns-Valid info (x ∷ columns) c h (there y xs i) =
    let (_, h1, h2) = >>=-eq-ok (validate_column info x) _ h in
    validate_columns-Valid info columns c h2 i

-- The regions of a row lie in their order, and the bitmap is after them.
abbrev pub Regions : TableContextInfo → Type 0
Regions info =
    (info.end_4byte ≤ info.end_2byte)
    × (info.end_2byte ≤ info.end_1byte)
    × (info.end_1byte + bitmap_size info ≡ row_width info)

pub validate_inv :
    (info : TableContextInfo) {u : Unit {0}}
    → validate info ≡ ok u
    → Regions info × (validate_columns info info.columns ≡ ok tt)
unfolding validate row_width
validate_inv info h =
    let (_, _, h1) = >>=-eq-ok (require (leb (length info.columns) 0xFF) format) _ h in
    let (_, _, h2) = >>=-eq-ok (require (info.end_4byte % 4 == 0) format) _ h1 in
    let (_, a, h3) =
      >>=-eq-ok
        (require (not (info.end_2byte % 2 == 1 || ltb info.end_2byte info.end_4byte)) format) _
        h2 in
    let (_, b, h4) = >>=-eq-ok (require (leb info.end_2byte info.end_1byte) format) _ h3 in
    let (_, d, h5) =
      >>=-eq-ok
        (require
          (leb info.end_1byte info.end_bitmap
            && (info.end_bitmap - info.end_1byte == bitmap_size info))
          format)
        _ h4 in
    let a' = require-eq-ok _ _ a in
    let b' = require-eq-ok _ _ b in
    let d' = require-eq-ok _ _ d in ((ground arith, ground arith, ground arith), h5)

-- In a row of an accepted schema, a present cell is refused exactly if it has four bytes or more,
-- starts in the row's first eight, and is not one of the two integers there; else it is read.
pub cell_record-Outcome :
    (info : TableContextInfo) (c : ColumnDescriptor) (row : Bytes)
    → validate info ≡ ok tt
    → In c info.columns
    → length row ≡ row_width info
    → ((is_in_header c (shape_of c.prop_type) ≡ true) × (cell_record info row c ≡ err format))
      ⊎ ((is_in_header c (shape_of c.prop_type) ≡ false)
          × (r : CellRecord) × (cell_record info row c ≡ ok r))
unfolding cell_record
cell_record-Outcome info c row h i size =
    let ((le4, le2, sum), columns) = validate_inv info h in
    let (shape, is_shape, region, width_ok, _) =
      validate_columns-Valid info info.columns c columns i in
    subst (λ s. Outcome (is_in_header c s) (record_of info row c s)) (sym is_shape)
      (record_of-Outcome info row c shape (omega arith) region width_ok)

-- In a row of an accepted schema, a column's existence bit is refused exactly if it is the number of
-- columns and they fill the bitmap's last byte; else it is read.
pub check_existence_bitmap-Regions :
    (info : TableContextInfo) (c : ColumnDescriptor) (bitmap : Bytes)
    → validate info ≡ ok tt
    → In c info.columns
    → length bitmap + info.end_1byte ≡ row_width info
    → ((c.existence_bit ≡ length info.columns)
        × (length info.columns % 8 ≡ 0)
        × (check_existence_bitmap c.existence_bit bitmap ≡ err format))
      ⊎ (((c.existence_bit ≢ length info.columns) ⊎ (length info.columns % 8 ≢ 0))
          × (b : Bool) × (check_existence_bitmap c.existence_bit bitmap ≡ ok b))
unfolding check_existence_bitmap bitmap_size existence_bitmap_size
check_existence_bitmap-Regions info c bitmap h i size =
    let ((_, _, sum), columns) = validate_inv info h in
    let (_, _, _, _, bit) = validate_columns-Valid info info.columns c columns i in
    let bytes : length bitmap ≡ (length info.columns + 7) / 8 = omega arith in
    elim (Bool-cases (leb (length bitmap * 8) c.existence_bit)) [
      | inl past ↦ rw past (inl (ground arith, ground arith, refl))
      | inr within ↦ rw within (inr (last_or_not (ground arith), _, refl))
    ]
  where
    last_or_not :
        c.existence_bit < (length info.columns + 7) / 8 * 8
        → (c.existence_bit ≢ length info.columns) ⊎ (length info.columns % 8 ≢ 0)
    last_or_not less = elim (Bool-cases (c.existence_bit == length info.columns)) [
      | inl same ↦ inr (λ full. ground arith)
      | inr other ↦ inl (λ same. ground arith)
    ]
