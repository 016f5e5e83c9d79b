-- ===== src/Ids/Laws.antt =====
-- The bit layouts of node and block ids: what is packed is read back, part by part.
use pypst_reader.Prelude.{
  ℕ, ◌+◌, ◌*◌, ◌/◌, ◌%◌, ◌^◌, ◌≤◌, ◌<◌, ◌≡◌, refl, arith, Bool-cases, inl, inr, ◌⊎◌, leb, some,
  none, Option, ◌++◌, length, length-append,
}
use pypst_reader.Error.{ok, err, format}
use pypst_reader.Bytes.{Bytes, to_bytes}
use pypst_reader.Bytes.RoundTrip.{
  field-to_bytes, length-to_bytes, need_inside, field-to_bytes_first, field-to_bytes_next,
}
use pypst_reader.Ids.NodeId
use pypst_reader.Ids.NodeId.{
  NodeId, NodeIdType, node_id, type_value, type_of_value, some_type, id_type, max_node_index,
}
use pypst_reader.Ids.BlockId
use pypst_reader.Ids.BlockId.{
  BlockId, PageId, ByteIndex, block_id, is_internal, search_key, max_block_index,
}
use pypst_reader.Ids.Refs.{BlockRef, unpack_block_ref, pack_block_ref}

type_value-lt : (t : NodeIdType) → type_value t < 32
unfolding type_value
type_value-lt t = ground arith

type_of_value-type_value : (t : NodeIdType) → type_of_value (type_value t) ≡ some t
unfolding type_value type_of_value
type_of_value-type_value = elim [
  | NodeIdType.hid ↦ refl
  | NodeIdType.internal ↦ refl
  | NodeIdType.normal_folder ↦ refl
  | NodeIdType.search_folder ↦ refl
  | NodeIdType.normal_message ↦ refl
  | NodeIdType.attachment ↦ refl
  | NodeIdType.search_update_queue ↦ refl
  | NodeIdType.search_criteria_object ↦ refl
  | NodeIdType.assoc_message ↦ refl
  | NodeIdType.contents_table_index ↦ refl
  | NodeIdType.receive_folder_table ↦ refl
  | NodeIdType.outgoing_queue_table ↦ refl
  | NodeIdType.hierarchy_table ↦ refl
  | NodeIdType.contents_table ↦ refl
  | NodeIdType.assoc_contents_table ↦ refl
  | NodeIdType.search_contents_table ↦ refl
  | NodeIdType.attachment_table ↦ refl
  | NodeIdType.recipient_table ↦ refl
  | NodeIdType.search_table_index ↦ refl
  | NodeIdType.ltp ↦ refl
]

type_value-type_of_value : (v : ℕ) (t : NodeIdType) → type_of_value v ≡ some t → type_value t ≡ v
unfolding type_value type_of_value
type_value-type_of_value v t h = ground arith

-- `from_parts` takes exactly the indices of 27 bits, and `id_type` and `index` read the parts back.
pub from_parts_exact :
    (t : NodeIdType) (i : ℕ)
    → ((i ≤ max_node_index)
        × (n : NodeId) × (NodeId.from_parts t i ≡ ok n)
        × (id_type n ≡ ok t)
        × (NodeId.index n ≡ i))
      ⊎ ((max_node_index < i) × (NodeId.from_parts t i ≡ err format))
unfolding NodeId.from_parts id_type NodeId.index
from_parts_exact t i = elim (Bool-cases (leb i max_node_index)) [
  | inl fits ↦
      let n : NodeId = record { raw = i * 2 ^ 5 + type_value t } in
      let packed : NodeId.from_parts t i ≡ ok n = ground (arith, type_value-lt t) in
      let typed : id_type n ≡ ok t = rw (low t) (rw (type_of_value-type_value t) refl) in
      inl (ground arith, n, packed, typed, omega (arith, type_value-lt t))
  | inr over ↦ inr (ground arith, ground arith)
]
  where
    low : (t : NodeIdType) → (i * 2 ^ 5 + type_value t) % 2 ^ 5 ≡ type_value t
    low t = omega (arith, type_value-lt t)

some_type-eq-ok : (o : Option NodeIdType) {t : NodeIdType} → some_type o ≡ ok t → o ≡ some t
unfolding some_type
some_type-eq-ok none h = cc
some_type-eq-ok (some x) h = cc

-- A node id of a known type is built again from its type and index.
pub from_parts-parts :
    (n : NodeId) (t : NodeIdType)
    → n.raw < 2 ^ 32
    → id_type n ≡ ok t
    → NodeId.from_parts t (NodeId.index n) ≡ ok n
unfolding NodeId.from_parts id_type NodeId.index
from_parts-parts n t h e =
    let low =
      type_value-type_of_value (n.raw % 2 ^ 5) t
        (some_type-eq-ok (type_of_value (n.raw % 2 ^ 5)) e) in
    ground (arith, low)

-- A packed node id is read back from any place of a buffer.
pub node_id_round_trip :
    (n : NodeId) (front back : Bytes)
    → n.raw < 2 ^ 32
    → NodeId.unpack_from (front ++ (NodeId.pack n ++ back)) (length front) ≡ ok n
unfolding NodeId.unpack_from NodeId.pack
node_id_round_trip n front back h = ground (
  arith,
  need_inside 4 front (to_bytes 4 n.raw) back (omega (arith, length-to_bytes 4 n.raw)),
  field-to_bytes 4 n.raw front back (omega arith),
)

-- Two block ids with one search key agree but for the reserved bit: they are one apart at most, both
-- internal or both data, and of one index. The search key, read as an id, is its own search key.
pub search_key_laws :
    (a b : BlockId)
    → search_key a ≡ search_key b
    → (search_key (record { raw = search_key a }) ≡ search_key a)
      × (a.raw ≤ b.raw + 1)
      × (is_internal a ≡ is_internal b)
      × (BlockId.index a ≡ BlockId.index b)
unfolding search_key is_internal BlockId.index
search_key_laws a b h =
    (omega arith, omega arith, (let e : a.raw / 2 ≡ b.raw / 2 = omega arith in rw e), omega arith)

pub length-pack_block_ref : (r : BlockRef) → length (pack_block_ref r) ≡ 16
unfolding pack_block_ref
length-pack_block_ref r = omega (
  arith,
  length-append (to_bytes 8 r.block.raw) (to_bytes 8 r.index.value),
  length-to_bytes 8 r.block.raw,
  length-to_bytes 8 r.index.value,
)

-- A packed block reference, whose two words fit 64 bits, is read back from any place of a buffer.
pub block_ref_round_trip :
    (r : BlockRef) (front back : Bytes)
    → r.block.raw < 2 ^ 64
    → r.index.value < 2 ^ 64
    → unpack_block_ref (front ++ (pack_block_ref r ++ back)) (length front) ≡ ok r
unfolding unpack_block_ref pack_block_ref
block_ref_round_trip r front back h k = ground (
  arith,
  need_inside 16 front (pack_block_ref r) back (omega (arith, length-pack_block_ref r)),
  field-to_bytes_first 8 8 r.block.raw r.index.value front back (omega arith),
  field-to_bytes_next 8 8 r.block.raw r.index.value front back (omega arith),
)
