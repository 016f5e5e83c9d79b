-- ===== src/Heap/Ids.antt =====
-- `HeapNodeType`, `HeapId`, `HeapNodeId` and `HeapNodeHeader` of src/pypstreader/ltp/heap.py.
use pypst_reader.Prelude.{
  ℕ, zero, suc, ◌+◌, ◌*◌, ◌/◌, ◌%◌, ◌^◌, Bool, ◌&&◌, List, [], ◌∷◌, ltb, leb, ◌==◌, if◌then◌else◌,
  Option, none, some,
}
use pypst_reader.Error.{Result, ok, err, format, require, ◌>>=◌, ◌>>◌}
use pypst_reader.Bytes.{Bytes, u8, u16, u32, need, to_bytes}
use pypst_reader.Ids.NodeId.{NodeId}

pub data HeapNodeType : Type 0 where
  reserved1 table reserved2 reserved3 reserved4 reserved5 tree properties reserved6 : HeapNodeType

-- HeapNodeType(value)
unfoldable pub from_wire : ℕ → Result HeapNodeType
from_wire v =
    if v == 0x6C
    then ok reserved1
    else if v == 0x7C
    then ok table
    else if v == 0x8C
    then ok reserved2
    else if v == 0x9C
    then ok reserved3
    else if v == 0xA5
    then ok reserved4
    else if v == 0xAC
    then ok reserved5
    else if v == 0xB5
    then ok tree
    else if v == 0xBC
    then ok properties
    else if v == 0xCC
    then ok reserved6
    else err format

pub record HeapId : Type 0 where
  pub raw : ℕ

-- HeapId(raw): 32 bits, of which the five type bits are zero.
unfoldable pub heap_id : ℕ → Result HeapId
heap_id raw =
    if ltb raw (2 ^ 32) && (raw % 2 ^ 5 == 0) then ok (record { raw = raw }) else err format

unfoldable pub from_parts : ℕ → ℕ → Result HeapId
unfolding heap_id
from_parts index block_index =
    if leb index 2047 && leb block_index 0xFFFF
    then heap_id (block_index * 2 ^ 16 + index * 2 ^ 5)
    else err format

unfoldable pub unpack_from : Bytes → ℕ → Result HeapId
unpack_from buf offset = do need 4 buf offset; heap_id (u32 buf offset)

unfoldable pub pack : HeapId → Bytes
pack h = to_bytes 4 h.raw

unfoldable pub is_null : HeapId → Bool
is_null h = h.raw == 0

unfoldable pub index : HeapId → ℕ
index h = h.raw / 2 ^ 5 % 2 ^ 11

unfoldable pub block_index : HeapId → ℕ
block_index h = h.raw / 2 ^ 16

pub record HeapNodeId : Type 0 where
  pub raw : ℕ

unfoldable pub is_heap : HeapNodeId → Bool
is_heap h = h.raw % 2 ^ 5 == 0

-- The HID, or none when the type bits say sub-node. (`HeapId(raw)` cannot refuse it: the word has
-- 32 bits, and its type bits are zero.)
unfoldable pub as_heap : HeapNodeId → Option HeapId
unfolding is_heap
as_heap h = if is_heap h then some (record { raw = h.raw }) else none

unfoldable pub as_node : HeapNodeId → Option NodeId
unfolding is_heap
as_node h = if is_heap h then none else some (record { raw = h.raw })

pub record HeapNodeHeader : Type 0 where
  pub page_map_offset : ℕ
  pub client_signature : HeapNodeType
  pub user_root : HeapId
  pub fill_levels : List ℕ

-- tuple((value >> (4 * i)) & 0xF for i in range(count))
unfoldable pub unpack_fill_levels : ℕ → ℕ → List ℕ
unpack_fill_levels value zero = []
unpack_fill_levels value (suc count) = value % 16 ∷ unpack_fill_levels (value / 16) count

unfoldable pub unpack_header : Bytes → Result HeapNodeHeader
unfolding from_wire heap_id unpack_fill_levels
unpack_header buf = do
  need 12 buf 0
  require (u8 buf 2 == 0xEC) format
  client ← from_wire (u8 buf 3)
  user_root ← heap_id (u32 buf 4)
  ok (record {
    page_map_offset = u16 buf 0;
    client_signature = client;
    user_root = user_root;
    fill_levels = unpack_fill_levels (u32 buf 8) 8;
  })
