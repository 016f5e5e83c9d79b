-- ===== src/NamedProp.antt =====
-- src/pypstreader/messaging/named_prop.py: what the property ids from 0x8000 on mean in one store.
--
-- A map is its state, which an operation takes and returns: the property context it reads, and the
-- streams and indexes parsed so far. `decode_name` is the codec "utf-16-le" with `errors="replace"`.
pub mod Entry
pub mod State
pub mod Lists
pub mod Streams
pub mod Indexed
use pypst_reader.Prelude.{
  ℕ, zero, suc, ◌+◌, ◌%◌, ◌/◌, Bool, true, false, List, [], ◌∷◌, length, ltb, leb, ◌==◌, not,
  if◌then◌else◌, Option, none, some, get_elem?,
}
use pypst_reader.Error.{Result, ok, err, stuck, format, not_found, require}
use pypst_reader.Bytes.{Bytes}
use pypst_reader.Crc.{compute_crc}
use pypst_reader.Limits.{Limits, check_count}
use pypst_reader.Ids.BlockId.{BlockId}
use pypst_reader.Block.{BlockReader}
use pypst_reader.PropType.Value.{Uuid, Text, Codec}
use pypst_reader.PropContext
use pypst_reader.PropContext.{PropertyContext, all_records}
use pypst_reader.PropContext.Records.{PropertyRecord, has_id}
use pypst_reader.NamedProp.Entry.{
  NamedPropertyGuid, NameIdEntry, well_known, index, null_uuid, prop_id, hash_value, name_id_entry,
  unpack_entries,
}
use pypst_reader.NamedProp.State.{
  Name, numbered, named, NamedPropertyMap, Action, pure, lift, in_context, ◌>>=◌, ◌>>◌,
}
use pypst_reader.NamedProp.Lists.{Names, entry_of, index_entries, id_of, set_default}
use pypst_reader.NamedProp.Streams.{stream, guids, entries_in, entries, string_bytes, bucket_count}

pub record NamedProperty : Type 0 where
  pub guid : Uuid
  pub name : Name

-- NamedPropertyMap(properties, limits)
unfoldable pub named_property_map : PropertyContext → Option Limits → NamedPropertyMap
named_property_map c limits = record {
  properties = c;
  limits = elim limits [ none ↦ c.limits | some given ↦ given ];
  guids = none;
  entries = none;
  by_prop_id = none;
  by_name = none;
}

-- NamedPropertyMap.from_node(reader, entry, limits, codepage=…)
unfoldable pub map_of :
    BlockReader → BlockId → Option BlockId → Option Limits → Option Codec → Result NamedPropertyMap
unfolding named_property_map
map_of reader data_block sub_node limits codepage =
    elim (PropContext.context_of reader data_block sub_node limits codepage) [
      | ok c ↦ ok (named_property_map c limits)
      | err e ↦ err e
      | stuck ↦ stuck
    ]

unfoldable pub stored_guid : ℕ → List Uuid → Result Uuid
stored_guid i guids = elim (get_elem? guids i) [ none ↦ err format | some guid ↦ ok guid ]

unfoldable pub indexed_guid : Option ℕ → Action Uuid
unfolding stored_guid
indexed_guid none = pure null_uuid
indexed_guid (some i) = do found ← guids; lift (stored_guid i found)

unfoldable pub guid_or : Option Uuid → Option ℕ → Action Uuid
unfolding indexed_guid
guid_or (some known) i = pure known
guid_or none i = indexed_guid i

unfoldable pub guid_of : NameIdEntry → Action Uuid
unfolding guid_or well_known index
guid_of e = guid_or (well_known e.guid) (index e.guid)

unfoldable pub keep_index : List (ℕ × NameIdEntry) → Action (List (ℕ × NameIdEntry))
keep_index found m = (ok found, record m { by_prop_id = some found })

unfoldable pub cached_index : Option (List (ℕ × NameIdEntry)) → Action (List (ℕ × NameIdEntry))
unfolding keep_index index_entries
cached_index (some found) = pure found
cached_index none = do es ← entries; found ← lift (index_entries es []); keep_index found

-- `_index`
unfoldable pub index_by_id : Action (List (ℕ × NameIdEntry))
unfolding cached_index
index_by_id m = cached_index m.by_prop_id m

unfoldable pub keep_names : Names → Action Names
keep_names found m = (ok found, record m { by_name = some found })

unfoldable pub hashed : Bool → NameIdEntry → Action NameIdEntry
unfolding name_id_entry
hashed false e = pure e
hashed true e = do
  bytes ← string_bytes e.name_id
  lift (name_id_entry (compute_crc 0 bytes) e.guid e.prop_index true)

unfoldable pub hash_entry : NameIdEntry → Action NameIdEntry
unfolding hashed
hash_entry e = hashed e.is_string e

-- `hash_bucket` by the number of buckets.
unfoldable pub bucket_of : NameIdEntry → ℕ → Action (List NameIdEntry)
unfolding hash_value entries_in
bucket_of e zero = lift (err format)
bucket_of e (suc n) = do
  let i = 0x1000 + hash_value e % suc n
  records ← in_context all_records
  lift (require (has_id records i) not_found)
  bytes ← stream i
  entries_in bytes

unfoldable pub hash_bucket : NameIdEntry → Action (List NameIdEntry)
unfolding hash_entry bucket_of
hash_bucket e = do keyed ← hash_entry e; count ← bucket_count; bucket_of keyed count

module _ (decode_name : Bytes → Text) where
  unfoldable pub lookup_string : ℕ → Action Text
  lookup_string offset = do bytes ← string_bytes offset; pure (decode_name bytes)

  unfoldable pub name_of : NameIdEntry → Action Name
  unfolding lookup_string
  name_of e = elim e.is_string [
    | true ↦ (do t ← lookup_string e.name_id; pure (named t))
    | false ↦ pure (numbered e.name_id)
  ]

  unfoldable pub meaning : Option NameIdEntry → Action (Option NamedProperty)
  unfolding guid_of name_of
  meaning none = pure none
  meaning (some e) = do
    guid ← guid_of e
    name ← name_of e
    pure (some (record { guid = guid; name = name }))

  unfoldable pub lookup : ℕ → Action (Option NamedProperty)
  unfolding index_by_id meaning
  lookup i = do found ← index_by_id; meaning (entry_of found i)

  -- The loop of `resolve`, with the names found so far.
  unfoldable pub index_names : List NameIdEntry → Names → Action Names
  unfolding guid_of name_of set_default
  index_names [] found = pure found
  index_names (e ∷ es) found = do
    guid ← guid_of e
    name ← name_of e
    index_names es (set_default found guid name (prop_id e))

  unfoldable pub cached_names : Option Names → Action Names
  unfolding index_names keep_names
  cached_names (some found) = pure found
  cached_names none = do es ← entries; found ← index_names es []; keep_names found

  unfoldable pub names : Action Names
  unfolding cached_names
  names m = cached_names m.by_name m

  unfoldable pub resolve : Uuid → Name → Action (Option ℕ)
  unfolding names id_of
  resolve guid name = do found ← names; pure (id_of found guid name)
