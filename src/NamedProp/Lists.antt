-- ===== src/NamedProp/Lists.antt =====
-- The lists and dictionaries of src/pypstreader/messaging/named_prop.py.
use pypst_reader.Prelude.{
  ℕ, zero, suc, ◌+◌, Bool, true, false, ◌&&◌, List, [], ◌∷◌, ◌++◌, ltb, leb, ◌==◌, not,
  if◌then◌else◌, Option, none, some,
}
use pypst_reader.Error.{Result, ok, format, require, ◌>>◌}
use pypst_reader.Bytes.{Bytes, slice}
use pypst_reader.PropType.Value.{Uuid}
use pypst_reader.PropType.Multi.{uuid_of}
use pypst_reader.PropContext.Records.{PropertyRecord}
use pypst_reader.NamedProp.Entry.{NameIdEntry, prop_id}
use pypst_reader.NamedProp.State.{Name, same_uuid, same_name}

-- tuple(uuid.UUID(bytes_le=data[at : at + 16]) for at in range(0, len(data), 16)), by their number.
unfoldable pub unpack_guids : Bytes → ℕ → ℕ → List Uuid
unpack_guids buf zero at = []
unpack_guids buf (suc count) at = uuid_of (slice buf at 16) ∷ unpack_guids buf count (at + 16)

-- The highest id from 0x1000 on.
unfoldable pub highest : List PropertyRecord → Option ℕ → Option ℕ
highest [] best = best
highest (r ∷ rest) none = highest rest (if leb 0x1000 r.prop_id then some r.prop_id else none)
highest (r ∷ rest) (some best) =
    highest rest (some (if leb 0x1000 r.prop_id && ltb best r.prop_id then r.prop_id else best))

-- found.get(prop_id)
unfoldable pub entry_of : List (ℕ × NameIdEntry) → ℕ → Option NameIdEntry
entry_of [] i = none
entry_of ((k, e) ∷ rest) i = if k == i then some e else entry_of rest i

unfoldable pub has_entry : List (ℕ × NameIdEntry) → ℕ → Bool
has_entry [] i = false
has_entry ((k, e) ∷ rest) i = if k == i then true else has_entry rest i

-- The loop of `_index`, with the entries found so far.
unfoldable pub index_entries :
    List NameIdEntry → List (ℕ × NameIdEntry) → Result (List (ℕ × NameIdEntry))
unfolding has_entry
index_entries [] found = ok found
index_entries (e ∷ entries) found = do
  require (not (has_entry found (prop_id e))) format
  index_entries entries (found ++ (prop_id e, e) ∷ [])

abbrev pub Names : Type 0
Names = List ((Uuid × Name) × ℕ)

-- index.get((guid, name))
unfoldable pub id_of : Names → Uuid → Name → Option ℕ
unfolding same_uuid same_name
id_of [] guid name = none
id_of ((key, i) ∷ rest) guid name =
    if same_uuid key.0 guid && same_name key.1 name then some i else id_of rest guid name

-- index.setdefault((guid, name), i)
unfoldable pub set_default : Names → Uuid → Name → ℕ → Names
unfolding same_uuid same_name
set_default [] guid name i = ((guid, name), i) ∷ []
set_default ((key, j) ∷ rest) guid name i =
    if same_uuid key.0 guid && same_name key.1 name
    then (key, j) ∷ rest
    else (key, j) ∷ set_default rest guid name i
