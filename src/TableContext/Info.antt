-- ===== src/TableContext/Info.antt =====
-- `ColumnDescriptor` and `TableContextInfo` of src/pypstreader/ltp/table_context.py.
use pypst_reader.Prelude.{
  ℕ, zero, suc, ◌+◌, ◌-◌, ◌*◌, ◌/◌, ◌%◌, ◌^◌, Bool, true, false, ◌&&◌, ◌||◌, not, List, [], ◌∷◌,
  length, ltb, leb, ◌==◌, if◌then◌else◌, Option, none, some, get_or,
}
use pypst_reader.Error.{Result, ok, err, format, require, ◌>>=◌, ◌>>◌}
use pypst_reader.Bytes.{Bytes, need, u8, u16, u32}
use pypst_reader.Heap.Ids.{HeapNodeType, from_wire, HeapId, heap_id, HeapNodeId}
use pypst_reader.PropType
use pypst_reader.PropType.{PropType}

-- -(-column_count // 8)
unfoldable pub existence_bitmap_size : ℕ → ℕ
existence_bitmap_size column_count = (column_count + 7) / 8

-- The most significant bit of a byte is the first column.
unfoldable pub check_existence_bitmap : ℕ → Bytes → Result Bool
check_existence_bitmap column bitmap =
    if leb (length bitmap * 8) column
    then err format
    else ok (get_or bitmap (column / 8) 0 / 2 ^ (7 - column % 8) % 2 == 1)

pub record ColumnDescriptor : Type 0 where
  pub prop_type : PropType
  pub prop_id : ℕ
  pub offset : ℕ
  pub size : ℕ
  pub existence_bit : ℕ

unfoldable pub unpack_column : Bytes → ℕ → Result ColumnDescriptor
unpack_column buf offset = do
  need 8 buf offset
  t ← PropType.from_wire (u16 buf offset)
  ok (record {
    prop_type = t;
    prop_id = u16 buf (offset + 2);
    offset = u16 buf (offset + 4);
    size = u8 buf (offset + 6);
    existence_bit = u8 buf (offset + 7);
  })

-- `count` descriptors from `offset` on.
unfoldable pub unpack_columns : Bytes → ℕ → ℕ → Result (List ColumnDescriptor)
unfolding unpack_column
unpack_columns buf zero offset = ok []
unpack_columns buf (suc count) offset = do
  c ← unpack_column buf offset
  rest ← unpack_columns buf count (offset + 8)
  ok (c ∷ rest)

pub record TableContextInfo : Type 0 where
  pub end_4byte : ℕ
  pub end_2byte : ℕ
  pub end_1byte : ℕ
  pub end_bitmap : ℕ
  pub row_index : HeapId
  pub rows : Option HeapNodeId
  pub deprecated_index : ℕ
  pub columns : List ColumnDescriptor

unfoldable pub row_width : TableContextInfo → ℕ
row_width info = info.end_bitmap

unfoldable pub bitmap_size : TableContextInfo → ℕ
unfolding existence_bitmap_size
bitmap_size info = existence_bitmap_size (length info.columns)

-- The shapes of a cell: inline of 1, 2, 4 or 8 bytes, or an id of 4 bytes.
pub data Shape : Type 0 where
  one_byte two_byte four_byte eight_byte by_hnid : Shape

-- `_ONE_BYTE_TYPES` to `_HNID_TYPES`: the type's set, if it is in one.
unfoldable pub shape_of : PropType → Option Shape
shape_of PropType.boolean = some one_byte
shape_of PropType.short = some two_byte
shape_of PropType.long = some four_byte
shape_of PropType.float = some four_byte
shape_of PropType.error = some four_byte
shape_of PropType.double = some eight_byte
shape_of PropType.currency = some eight_byte
shape_of PropType.apptime = some eight_byte
shape_of PropType.longlong = some eight_byte
shape_of PropType.systime = some eight_byte
shape_of PropType.unspecified = none
shape_of PropType.null = none
shape_of t = some by_hnid

-- `_COLUMN_WIDTHS`
unfoldable pub width : Shape → ℕ
width one_byte = 1
width two_byte = 2
width four_byte = 4
width eight_byte = 8
width by_hnid = 4

-- `prop_type is PropType.LONG`
unfoldable pub is_long : PropType → Bool
is_long PropType.long = true
is_long t = false

unfoldable pub check_reserved : ColumnDescriptor → Result (Unit {0})
unfolding is_long
check_reserved c =
    if is_long c.prop_type && (c.prop_id == 0x67F2)
    then require (c.offset == 0 && (c.existence_bit == 0)) format
    else if is_long c.prop_type && (c.prop_id == 0x67F3)
    then require (c.offset == 4 && (c.existence_bit == 1)) format
    else ok tt

-- The region of a cell's shape.
unfoldable pub check_region : TableContextInfo → ℕ → Shape → Result (Unit {0})
unfolding width
check_region info offset one_byte =
    require (leb info.end_2byte offset && ltb offset info.end_1byte) format
check_region info offset two_byte =
    require (not (offset % 2 == 1 || ltb offset info.end_4byte || ltb info.end_2byte (offset + 2)))
      format
check_region info offset shape =
    require (offset % 4 == 0 && leb (offset + width shape) info.end_4byte) format

unfoldable pub shape_found : Option Shape → Result Shape
shape_found none = err format
shape_found (some shape) = ok shape

-- `_validate_column`
unfoldable pub validate_column : TableContextInfo → ColumnDescriptor → Result (Unit {0})
unfolding check_reserved check_region shape_found shape_of
validate_column info c = do
  check_reserved c
  shape ← shape_found (shape_of c.prop_type)
  check_region info c.offset shape
  require (c.size == width shape) format
  require (leb c.existence_bit (length info.columns)) format

unfoldable pub validate_columns : TableContextInfo → List ColumnDescriptor → Result (Unit {0})
unfolding validate_column
validate_columns info [] = ok tt
validate_columns info (c ∷ rest) = do validate_column info c; validate_columns info rest

-- `_validate`
unfoldable pub validate : TableContextInfo → Result (Unit {0})
unfolding bitmap_size validate_columns
validate info = do
  require (leb (length info.columns) 0xFF) format
  require (info.end_4byte % 4 == 0) format
  require (not (info.end_2byte % 2 == 1 || ltb info.end_2byte info.end_4byte)) format
  require (leb info.end_2byte info.end_1byte) format
  require
      (leb info.end_1byte info.end_bitmap && (info.end_bitmap - info.end_1byte == bitmap_size info))
      format
  validate_columns info info.columns

unfoldable pub is_table : HeapNodeType → Bool
is_table HeapNodeType.table = true
is_table t = false

unfoldable pub unpack : Bytes → Result TableContextInfo
unfolding is_table unpack_columns validate
unpack buf = do
  need 22 buf 0
  signature ← from_wire (u8 buf 0)
  require (is_table signature) format
  columns ← unpack_columns buf (u8 buf 1) 22
  row_index ← heap_id (u32 buf 10)
  let info : TableContextInfo = record {
    end_4byte = u16 buf 2;
    end_2byte = u16 buf 4;
    end_1byte = u16 buf 6;
    end_bitmap = u16 buf 8;
    row_index = row_index;
    rows = if u32 buf 14 == 0 then none else some (record { raw = u32 buf 14 });
    deprecated_index = u32 buf 18;
    columns = columns;
  }
  validate info
  ok info

unfoldable pub check_row_header_fits : TableContextInfo → Result (Unit {0})
check_row_header_fits info = require (leb 8 info.end_4byte) format
