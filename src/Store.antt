-- ===== src/Store.antt =====
-- src/pypstreader/messaging/store.py: an open store and its own properties.
--
-- A store is its state, which an operation takes and returns: its property context and the named
-- property map change as they are read. The file, the roots of its trees and the limits never do.
-- The file handle, which a store closes when it owns it, is not modelled: the file is its bytes.
pub mod EntryId
pub mod Open
use pypst_reader.Prelude.{
  ℕ, Bool, true, false, List, [], ◌∷◌, ◌==◌, length, if◌then◌else◌, Option, none, some,
}
use pypst_reader.Error.{Result, ok, err, stuck, format, escaped}
use pypst_reader.Bytes.{Bytes}
use pypst_reader.Limits.{Limits}
use pypst_reader.Ids.NodeId.{NodeId}
use pypst_reader.Ids.Refs.{PageRef}
use pypst_reader.Page.Entries.{NodeBTreeEntry}
use pypst_reader.BTree.Trees.{find_node}
use pypst_reader.Block.{BlockReader}
use pypst_reader.Header.{Header, read_header}
use pypst_reader.PropType.Value.{PropValue, Scalar, Text, Codec}
use pypst_reader.PropContext
use pypst_reader.PropContext.{PropertyContext, all_records}
use pypst_reader.PropContext.Records.{PropertyRecord, find_record, is_null}
use pypst_reader.NamedProp.{map_of}
use pypst_reader.NamedProp.State.{NamedPropertyMap, same_numbers}
use pypst_reader.NamedProp.Streams.{as_bytes}
use pypst_reader.Store.Open.{Store, node_context}
use pypst_reader.Store.EntryId
use pypst_reader.Store.EntryId.{make_entry_id}

abbrev pub Action {ℓ} : Type ℓ → Type ℓ
Action A = Store → Result A × Store

module _ {ℓ} {A : Type ℓ} where
  abbrev pub pure : A → Action A
  pure a s = (ok a, s)

  abbrev pub lift : Result A → Action A
  lift r s = (r, s)

  -- An operation of the store's property context.
  abbrev pub in_context : (PropertyContext → Result A × PropertyContext) → Action A
  in_context f s = let p = f s.properties in (p.0, record s { properties = p.1 })

abbrev pub continue {ℓ κ} : {A : Type ℓ} {B : Type κ} → Result A → (A → Action B) → Action B
continue (ok a) f s = f a s
continue (err e) f s = (err e, s)
continue stuck f s = (stuck, s)

infixl 5 ◌>>=◌ ◌>>◌
abbrev pub ◌>>=◌ {ℓ κ} : {A : Type ℓ} {B : Type κ} → Action A → (A → Action B) → Action B
◌>>=◌ p f s = let q = p s in continue q.0 f q.1

abbrev pub ◌>>◌ {ℓ} : {B : Type ℓ} → Action (Unit {0}) → Action B → Action B
p >> q = p >>= λ _. q

-- self._nbt.find(node)
unfoldable pub find : Store → NodeId → Result NodeBTreeEntry
find s node = find_node s.reader.file s.limits s.header.root.node_btree node

-- A record that is there and not null.
unfoldable pub present : Option PropertyRecord → Result PropertyRecord
unfolding is_null
present none = err format
present (some r) = if is_null r then err format else ok r

-- `_record`
unfoldable pub record_of : ℕ → Action PropertyRecord
unfolding present
record_of i = do records ← in_context all_records; lift (present (find_record i records))

unfoldable pub value_of : PropertyRecord → Action PropValue
value_of r = in_context (λ c. PropContext.read c r)

-- `_binary`
unfoldable pub binary : ℕ → Action Bytes
unfolding record_of value_of as_bytes
binary i = do r ← record_of i; v ← value_of r; lift (as_bytes v)

-- The bytes of a property that is an EntryID.
unfoldable pub entry_in : Bytes → Result EntryId.EntryId
entry_in bytes = if length bytes == 24 then EntryId.unpack_from bytes 0 else err format

unfoldable pub entry_of_record : Bool → Option PropertyRecord → Action (Option EntryId.EntryId)
unfolding is_null value_of as_bytes entry_in
entry_of_record required none = if required then lift (err format) else pure none
entry_of_record required (some r) =
    if is_null r
    then (if required then lift (err format) else pure none)
    else (do v ← value_of r; bytes ← lift (as_bytes v); e ← lift (entry_in bytes); pure (some e))

-- `_entry_id`
unfoldable pub entry_property : ℕ → Bool → Action (Option EntryId.EntryId)
unfolding entry_of_record
entry_property i required = do
  records ← in_context all_records
  entry_of_record required (find_record i records)

unfoldable pub record_key : Action Bytes
unfolding binary
record_key = do key ← binary 0x0FF9; lift (if length key == 16 then ok key else err format)

unfoldable pub as_text : PropValue → Result Text
as_text (PropValue.one (Scalar.text t)) = ok t
as_text v = err format

unfoldable pub display_name : Action Text
unfolding record_of value_of as_text
display_name = do r ← record_of 0x3001; v ← value_of r; lift (as_text v)

-- `assert entry is not None`, which a required property cannot fail.
unfoldable pub required_entry : Option EntryId.EntryId → Result EntryId.EntryId
required_entry none = err escaped
required_entry (some e) = ok e

unfoldable pub ipm_subtree : Action EntryId.EntryId
unfolding entry_property required_entry
ipm_subtree = do e ← entry_property 0x35E0 true; lift (required_entry e)

unfoldable pub wastebasket : Action (Option EntryId.EntryId)
unfolding entry_property
wastebasket = entry_property 0x35E3 false

unfoldable pub finder : Action (Option EntryId.EntryId)
unfolding entry_property
finder = entry_property 0x35E7 false

unfoldable pub entry_id : NodeId → Action EntryId.EntryId
unfolding record_key
entry_id node = do key ← record_key; lift (make_entry_id key node)

unfoldable pub matches_record_key : EntryId.EntryId → Action Bool
unfolding record_key same_numbers
matches_record_key e = do key ← record_key; pure (same_numbers e.record_key key)

unfoldable pub get : ℕ → Action PropValue
get i s = in_context (λ c. PropContext.get c i) s

unfoldable pub keep_named : NamedPropertyMap → Action NamedPropertyMap
keep_named m s = (ok m, record s { named = some m })

unfoldable pub cached_named : Option NamedPropertyMap → Action NamedPropertyMap
unfolding find keep_named
cached_named (some m) s = (ok m, s)
cached_named none s =
    (do
      e ← lift (find s (record { raw = 0x61 }))
      m ← lift (map_of s.reader e.data_block e.sub_node (some s.limits) s.codepage)
      keep_named m)
      s

unfoldable pub named_properties : Action NamedPropertyMap
unfolding cached_named
named_properties s = cached_named s.named s
