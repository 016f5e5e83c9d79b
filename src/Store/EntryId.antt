-- ===== src/Store/EntryId.antt =====
-- `EntryId` of src/pypstreader/messaging/store.py.
use pypst_reader.Prelude.{ℕ, ◌+◌, ◌++◌, ◌==◌, length, if◌then◌else◌}
use pypst_reader.Error.{Result, ok, err, format, require, ◌>>=◌, ◌>>◌}
use pypst_reader.Bytes.{Bytes, need, u32, slice, to_bytes}
use pypst_reader.Ids.NodeId.{NodeId, node_id}

pub record EntryId : Type 0 where
  pub record_key : Bytes
  pub node : NodeId

-- EntryId(record_key, node)
unfoldable pub make_entry_id : Bytes → NodeId → Result EntryId
make_entry_id key node =
    if length key == 16 then ok (record { record_key = key; node = node }) else err format

unfoldable pub unpack_from : Bytes → ℕ → Result EntryId
unfolding make_entry_id
unpack_from buf offset = do
  need 24 buf offset
  require (u32 buf offset == 0) format
  node ← node_id (u32 buf (offset + 20))
  make_entry_id (slice buf (offset + 4) 16) node

unfoldable pub pack : EntryId → Bytes
pack e = to_bytes 4 0 ++ (e.record_key ++ to_bytes 4 e.node.raw)
