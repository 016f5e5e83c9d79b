-- ===== src/NamedProp/Entry.antt =====
-- `NamedPropertyGuid` and `NameIdEntry` of src/pypstreader/messaging/named_prop.py.
use pypst_reader.Prelude.{
  ℕ, zero, suc, ◌+◌, ◌-◌, ◌*◌, ◌/◌, ◌%◌, ◌^◌, bit_xor, Bool, true, false, List, [], ◌∷◌, ltb, leb,
  ◌==◌, if◌then◌else◌, Option, none, some,
}
use pypst_reader.Error.{Result, ok, err, format, ◌>>=◌, ◌>>◌}
use pypst_reader.Bytes.{Bytes, need, u16, u32}
use pypst_reader.PropType.Value.{Uuid}

pub record NamedPropertyGuid : Type 0 where
  pub raw : ℕ

-- NamedPropertyGuid(raw): 15 bits.
unfoldable pub named_property_guid : ℕ → Result NamedPropertyGuid
named_property_guid raw = if leb raw 0x7FFF then ok (record { raw = raw }) else err format

unfoldable pub is_index : NamedPropertyGuid → Bool
is_index g = leb 3 g.raw

unfoldable pub index : NamedPropertyGuid → Option ℕ
unfolding is_index
index g = if is_index g then some (g.raw - 3) else none

-- The node part of both well-known identifiers: c000-000000000046.
abbrev well_known_rest : Bytes
well_known_rest = 0xC0 ∷ 0 ∷ 0 ∷ 0 ∷ 0 ∷ 0 ∷ 0 ∷ 0x46 ∷ []

abbrev pub ps_mapi : Uuid
ps_mapi = record {
  time_low = 0x00020328;
  time_mid = 0;
  time_hi_version = 0;
  rest = well_known_rest;
}

abbrev pub ps_public_strings : Uuid
ps_public_strings = record {
  time_low = 0x00020329;
  time_mid = 0;
  time_hi_version = 0;
  rest = well_known_rest;
}

-- uuid.UUID(int=0)
abbrev pub null_uuid : Uuid
null_uuid = record {
  time_low = 0;
  time_mid = 0;
  time_hi_version = 0;
  rest = 0 ∷ 0 ∷ 0 ∷ 0 ∷ 0 ∷ 0 ∷ 0 ∷ 0 ∷ [];
}

unfoldable pub well_known : NamedPropertyGuid → Option Uuid
well_known g =
    if g.raw == 1 then some ps_mapi else if g.raw == 2 then some ps_public_strings else none

pub record NameIdEntry : Type 0 where
  pub name_id : ℕ
  pub guid : NamedPropertyGuid
  pub prop_index : ℕ
  pub is_string : Bool

-- NameIdEntry(name_id, guid, prop_index, is_string)
unfoldable pub name_id_entry : ℕ → NamedPropertyGuid → ℕ → Bool → Result NameIdEntry
name_id_entry name_id guid prop_index is_string =
    if leb name_id 0xFFFFFFFF
    then (if ltb prop_index 0x8000
        then ok (record {
          name_id = name_id;
          guid = guid;
          prop_index = prop_index;
          is_string = is_string;
        })
        else err format)
    else err format

unfoldable pub unpack_from : Bytes → ℕ → Result NameIdEntry
unfolding named_property_guid name_id_entry
unpack_from buf offset = do
  need 8 buf offset
  guid ← named_property_guid (u16 buf (offset + 4) / 2)
  name_id_entry (u32 buf offset) guid (u16 buf (offset + 6)) (u16 buf (offset + 4) % 2 == 1)

unfoldable pub prop_id : NameIdEntry → ℕ
prop_id e = 0x8000 + e.prop_index

abbrev pub flag : Bool → ℕ
flag true = 1
flag false = 0

-- (guid.raw << 1) & 0xFFFF, with the flag in the bit that is left free.
unfoldable pub hash_value : NameIdEntry → ℕ
hash_value e = bit_xor e.name_id (e.guid.raw * 2 % 2 ^ 16 + flag e.is_string) % 2 ^ 32

-- tuple(NameIdEntry.unpack_from(data, at) for at in range(0, len(data), 8)), by the number of entries.
unfoldable pub unpack_entries : Bytes → ℕ → ℕ → Result (List NameIdEntry)
unfolding unpack_from
unpack_entries buf zero at = ok []
unpack_entries buf (suc count) at = do
  e ← unpack_from buf at
  rest ← unpack_entries buf count (at + 8)
  ok (e ∷ rest)
