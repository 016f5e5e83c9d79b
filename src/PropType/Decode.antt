-- ===== src/PropType/Decode.antt =====
-- `decode` of src/pypstreader/ltp/prop_type.py: the dispatch on the property type.
use pypst_reader.Prelude.{ℕ, List, Option, none, some}
use pypst_reader.Error.{Result, ok, ◌>>=◌}
use pypst_reader.Bytes.{Bytes}
use pypst_reader.PropType.{PropType, from_wire}
use pypst_reader.PropType.Value.{Scalar, PropValue, Codec}
use pypst_reader.PropType.Text.{decode_string8, decode_string8_bytes, lookup_codepage}
use pypst_reader.PropType.Multi.{
  decode_one, each, decode_mv_fixed, decode_mv_guid, mv_variable_items, decode_text,
}

-- The fixed-size type that a fixed-base multi-value repeats, with its width.
unfoldable pub base_of : PropType → Option (PropType × ℕ)
base_of PropType.mv_short = some (PropType.short, 2)
base_of PropType.mv_long = some (PropType.long, 4)
base_of PropType.mv_float = some (PropType.float, 4)
base_of PropType.mv_double = some (PropType.double, 8)
base_of PropType.mv_currency = some (PropType.currency, 8)
base_of PropType.mv_apptime = some (PropType.apptime, 8)
base_of PropType.mv_longlong = some (PropType.longlong, 8)
base_of PropType.mv_systime = some (PropType.systime, 8)
base_of t = none

abbrev pub many_of : Result (List Scalar) → Result PropValue
many_of r = do values ← r; ok (PropValue.many values)

abbrev pub one_of : Result Scalar → Result PropValue
one_of r = do value ← r; ok (PropValue.one value)

-- An item of a multi-valued STRING8.
abbrev pub string8_item : Codec → Bytes → Result Scalar
string8_item codec bs = do t ← decode_string8_bytes bs codec; ok (Scalar.text t)

unfoldable pub decode_mv_string8 : Option Codec → Bytes → ℕ → Result (List Scalar)
unfolding lookup_codepage
decode_mv_string8 codepage bs max_items = do
  codec ← lookup_codepage codepage
  items ← mv_variable_items bs max_items
  each (string8_item codec) items

unfoldable pub decode_mv_unicode : Bytes → ℕ → Result (List Scalar)
decode_mv_unicode bs max_items = do items ← mv_variable_items bs max_items; each decode_text items

abbrev pub binary_item : Bytes → Result Scalar
binary_item bs = ok (Scalar.bytes bs)

unfoldable pub decode_mv_binary : Bytes → ℕ → Result (List Scalar)
decode_mv_binary bs max_items = do items ← mv_variable_items bs max_items; each binary_item items

-- The types that `decode` handles last: the packed multi-values, then the single values.
unfoldable pub decode_rest : Option (PropType × ℕ) → PropType → Bytes → ℕ → Result PropValue
decode_rest none t bs max_items = one_of (decode_one t bs)
decode_rest (some (base, size)) t bs max_items = many_of (decode_mv_fixed base size bs max_items)

-- decode(t, data, codepage=…, max_items=…)
unfoldable pub decode : Option Codec → ℕ → PropType → Bytes → Result PropValue
unfolding base_of decode_rest
decode codepage max_items PropType.string8 bs = do
  t ← decode_string8 codepage bs
  ok (PropValue.one (Scalar.text t))
decode codepage max_items PropType.mv_string8 bs = many_of (decode_mv_string8 codepage bs max_items)
decode codepage max_items PropType.mv_unicode bs = many_of (decode_mv_unicode bs max_items)
decode codepage max_items PropType.mv_binary bs = many_of (decode_mv_binary bs max_items)
decode codepage max_items PropType.mv_guid bs = many_of (decode_mv_guid bs max_items)
decode codepage max_items t bs = decode_rest (base_of t) t bs max_items

-- decode(t, …) for a number `t`
unfoldable pub decode_wire : Option Codec → ℕ → ℕ → Bytes → Result PropValue
decode_wire codepage max_items wire bs = do t ← from_wire wire; decode codepage max_items t bs
