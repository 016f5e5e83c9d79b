-- ===== src/PropType/Multi.antt =====
-- The scalar decoders of src/pypstreader/ltp/prop_type.py, and the two layouts of a multi-value.
use pypst_reader.Prelude.{
  ℕ, zero, suc, ◌+◌, ◌-◌, ◌*◌, ◌/◌, ◌%◌, ◌&&◌, List, [], ◌∷◌, ltb, leb, ◌==◌, length, if◌then◌else◌,
}
use pypst_reader.Error.{Result, ok, err, format, limit, require, ◌>>=◌, ◌>>◌}
use pypst_reader.Bytes.{Bytes, slice, u8, u16, u32, u64}
use pypst_reader.PropType.{PropType}
use pypst_reader.PropType.Value.{Scalar, signed, Uuid}
use pypst_reader.PropType.Filetime.{filetime_to_datetime}
use pypst_reader.PropType.Text.{decode_unicode}

-- `_exact`
unfoldable pub exact : Bytes → ℕ → Result (Unit {0})
exact bs size = require (length bs == size) format

unfoldable pub decode_int : ℕ → ℕ → Bytes → Result Scalar
unfolding exact
decode_int size value bs = do exact bs size; ok (Scalar.int (signed (8 * size) value))

unfoldable pub decode_float : ℕ → ℕ → Bytes → Result Scalar
unfolding exact
decode_float size value bs = do exact bs size; ok (Scalar.float_bits (8 * size) value)

unfoldable pub decode_boolean : Bytes → Result Scalar
unfolding exact
decode_boolean bs = do exact bs 1; require (leb (u8 bs 0) 1) format; ok (Scalar.bool (u8 bs 0 == 1))

unfoldable pub decode_systime : Bytes → Result Scalar
unfolding exact
decode_systime bs = do
  exact bs 8
  d ← filetime_to_datetime (signed 64 (u64 bs 0))
  ok (Scalar.time d)

-- uuid.UUID(bytes_le=bs)
abbrev pub uuid_of : Bytes → Uuid
uuid_of bs = record {
  time_low = u32 bs 0;
  time_mid = u16 bs 4;
  time_hi_version = u16 bs 6;
  rest = slice bs 8 8;
}

unfoldable pub decode_guid : Bytes → Result Scalar
unfolding exact
decode_guid bs = do exact bs 16; ok (Scalar.uuid (uuid_of bs))

unfoldable pub decode_object : Bytes → Result Scalar
unfolding exact
decode_object bs = do
  exact bs 8
  ok (Scalar.object_ref (record { node = record { raw = u32 bs 0 }; size = u32 bs 4 }))

unfoldable pub decode_text : Bytes → Result Scalar
decode_text bs = do t ← decode_unicode bs; ok (Scalar.text t)

unfoldable pub decode_null : Bytes → Result Scalar
unfolding exact
decode_null bs = do exact bs 0; ok Scalar.nothing

-- `_DECODERS[t](bs)`: the types with no entry have no value encoding.
unfoldable pub decode_one : PropType → Bytes → Result Scalar
unfolding decode_null decode_int decode_float decode_boolean decode_systime decode_guid
    decode_object decode_text
decode_one PropType.null bs = decode_null bs
decode_one PropType.short bs = decode_int 2 (u16 bs 0) bs
decode_one PropType.long bs = decode_int 4 (u32 bs 0) bs
decode_one PropType.float bs = decode_float 4 (u32 bs 0) bs
decode_one PropType.double bs = decode_float 8 (u64 bs 0) bs
decode_one PropType.currency bs = decode_int 8 (u64 bs 0) bs
decode_one PropType.apptime bs = decode_float 8 (u64 bs 0) bs
decode_one PropType.error bs = decode_int 4 (u32 bs 0) bs
decode_one PropType.boolean bs = decode_boolean bs
decode_one PropType.longlong bs = decode_int 8 (u64 bs 0) bs
decode_one PropType.systime bs = decode_systime bs
decode_one PropType.guid bs = decode_guid bs
decode_one PropType.object bs = decode_object bs
decode_one PropType.binary bs = ok (Scalar.bytes bs)
decode_one PropType.unicode bs = decode_text bs
decode_one t bs = err format

-- `_check_count`
unfoldable pub check_count : ℕ → ℕ → Result (Unit {0})
check_count count max_items = if ltb max_items count then err limit else ok tt

-- tuple(decode(item) for item in items)
unfoldable pub each {ℓ κ} : {A : Type ℓ} {B : Type κ} → (A → Result B) → List A → Result (List B)
each decode [] = ok []
each decode (item ∷ items) = do value ← decode item; values ← each decode items; ok (value ∷ values)

-- data[i : i + size] for i in range(start, …, size), `count` of them
unfoldable pub pieces : Bytes → ℕ → ℕ → ℕ → List Bytes
pieces bs size zero start = []
pieces bs size (suc count) start = slice bs start size ∷ pieces bs size count (start + size)

-- The packed array of a fixed-size type.
unfoldable pub decode_mv_fixed : PropType → ℕ → Bytes → ℕ → Result (List Scalar)
unfolding check_count pieces
decode_mv_fixed base size bs max_items = do
  require (length bs % size == 0) format
  check_count (length bs / size) max_items
  each (decode_one base) (pieces bs size (length bs / size) 0)

-- A count, then that many GUIDs.
unfoldable pub decode_mv_guid : Bytes → ℕ → Result (List Scalar)
unfolding check_count pieces exact
decode_mv_guid bs max_items = do
  require (leb 4 (length bs)) format
  check_count (u32 bs 0) max_items
  exact bs (4 + 16 * u32 bs 0)
  each decode_guid (pieces bs 16 (u32 bs 0) 4)

-- struct.unpack_from(f"<{count}I", data, offset)
unfoldable pub offsets : Bytes → ℕ → ℕ → List ℕ
offsets bs zero at = []
offsets bs (suc count) at = u32 bs at ∷ offsets bs count (at + 4)

-- One item, `data[start:end]`, once its end is in range.
unfoldable pub item_between : Bytes → ℕ → ℕ → Result Bytes
item_between bs start end = do
  require (leb start end && leb end (length bs)) format
  ok (slice bs start (end - start))

-- for i, start in enumerate(offsets)
unfoldable pub cut : Bytes → List ℕ → Result (List Bytes)
unfolding item_between
cut bs [] = ok []
cut bs (start ∷ []) = do item ← item_between bs start (length bs); ok (item ∷ [])
cut bs (start ∷ end ∷ rest) = do
  item ← item_between bs start end
  items ← cut bs (end ∷ rest)
  ok (item ∷ items)

-- The first offset is where the table ends.
unfoldable pub cut_all : Bytes → List ℕ → ℕ → Result (List Bytes)
unfolding cut
cut_all bs [] table_end = ok []
cut_all bs (first ∷ rest) table_end = do require (first == table_end) format; cut bs (first ∷ rest)

unfoldable pub mv_variable_items : Bytes → ℕ → Result (List Bytes)
unfolding check_count offsets
mv_variable_items bs max_items = do
  require (leb 4 (length bs)) format
  check_count (u32 bs 0) max_items
  require (leb (4 * (u32 bs 0 + 1)) (length bs)) format
  cut_all bs (offsets bs (u32 bs 0) 4) (4 * (u32 bs 0 + 1))
