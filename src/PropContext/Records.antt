-- ===== src/PropContext/Records.antt =====
-- `PropertyRecord` of src/pypstreader/ltp/prop_context.py, and the dictionary of records.
use pypst_reader.Prelude.{
  ℕ, ◌+◌, Bool, true, false, List, [], ◌∷◌, ◌++◌, ◌||◌, ltb, ◌==◌, not, length, if◌then◌else◌,
  Option, none, some,
}
use pypst_reader.Error.{Result, ok, format, require, ◌>>=◌, ◌>>◌}
use pypst_reader.Bytes.{Bytes, need, u16, u32}
use pypst_reader.Limits.{check_count}
use pypst_reader.Heap.Ids.{HeapNodeId}
use pypst_reader.PropType.{PropType, from_wire}

pub record PropertyRecord : Type 0 where
  pub prop_id : ℕ
  pub prop_type : PropType
  pub raw : ℕ

unfoldable pub unpack : Bytes × Bytes → Result PropertyRecord
unpack (key, value) = do
  need 2 key 0
  need 6 value 0
  t ← from_wire (u16 value 0)
  ok (record { prop_id = u16 key 0; prop_type = t; raw = u32 value 2 })

-- The width of a value that is the field itself.
unfoldable pub inline_width : PropType → Option ℕ
inline_width PropType.null = some 0
inline_width PropType.short = some 2
inline_width PropType.long = some 4
inline_width PropType.float = some 4
inline_width PropType.error = some 4
inline_width PropType.boolean = some 1
inline_width t = none

-- The types whose record is always a heap id.
unfoldable pub is_heap_only : PropType → Bool
is_heap_only PropType.double = true
is_heap_only PropType.currency = true
is_heap_only PropType.apptime = true
is_heap_only PropType.longlong = true
is_heap_only PropType.systime = true
is_heap_only PropType.guid = true
is_heap_only PropType.object = true
is_heap_only t = false

abbrev pub is_some {ℓ} : {A : Type ℓ} → Option A → Bool
is_some none = false
is_some (some a) = true

unfoldable pub is_inline : PropertyRecord → Bool
unfolding inline_width
is_inline r = is_some (inline_width r.prop_type)

unfoldable pub hnid : PropertyRecord → Option HeapNodeId
unfolding is_inline
hnid r = if is_inline r then none else some (record { raw = r.raw })

unfoldable pub is_null : PropertyRecord → Bool
unfolding is_inline
is_null r = if is_inline r then false else r.raw == 0

unfoldable pub value_type : PropertyRecord → PropType
unfolding is_null
value_type r = if is_null r then PropType.null else r.prop_type

-- `prop_id in found`
unfoldable pub has_id : List PropertyRecord → ℕ → Bool
has_id [] i = false
has_id (r ∷ rest) i = r.prop_id == i || has_id rest i

-- found.get(prop_id)
unfoldable pub find_record : ℕ → List PropertyRecord → Option PropertyRecord
find_record i [] = none
find_record i (r ∷ rest) = if r.prop_id == i then some r else find_record i rest

-- The body of the loop over the tree, with the records so far in their order.
unfoldable pub add_record : ℕ → List PropertyRecord → Bytes × Bytes → Result (List PropertyRecord)
unfolding has_id
add_record ceiling found entry = do
  r ← unpack entry
  require (not (has_id found r.prop_id)) format
  check_count (length found + 1) ceiling
  ok (found ++ r ∷ [])

-- sorted(found.items()): the keys are distinct, so that only they are compared.
unfoldable pub insert : PropertyRecord → List PropertyRecord → List PropertyRecord
insert r [] = r ∷ []
insert r (s ∷ rest) = if ltb s.prop_id r.prop_id then s ∷ insert r rest else r ∷ s ∷ rest

unfoldable pub sort : List PropertyRecord → List PropertyRecord
unfolding insert
sort [] = []
sort (r ∷ rest) = insert r (sort rest)
