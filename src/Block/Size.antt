-- ===== src/Block/Size.antt =====
-- Sizes of allocations and of the data read from them, and what a block id says of its block.
use mathlib.Core.Path.{subst}
use pypst_reader.Prelude.{
  ℕ, ◌+◌, ◌-◌, ◌*◌, ◌/◌, ◌%◌, ◌≤◌, ◌<◌, ◌≡◌, refl, sym, ap, ◌∙◌, arith, Bool, true, false, length,
  leb, ◌==◌, ◌⊎◌, inl, inr, Bool-cases, some,
}
use pypst_reader.Error.{ok, err, format, require, >>=-eq-ok, require-eq-ok, ok-injective}
use pypst_reader.Bytes.{Bytes, slice}
use pypst_reader.Bytes.RoundTrip.{length-slice}
use pypst_reader.Encode.Inverse.{length-decode_block}
use pypst_reader.Ids.BlockId.{BlockId, is_internal, search_key}
use pypst_reader.Ids.Refs.{BlockRef}
use pypst_reader.Ids.Laws.{search_key_laws}
use pypst_reader.Page.Settles.{unpack_block_entry-Settles}
use pypst_reader.Page.Entries.{BlockBTreeEntry, block_entry_key}
use pypst_reader.Page.{unpack_entries}
use pypst_reader.BTree.Trees.{find_block, block_kind}
use pypst_reader.BTree.Lookup.{find_key-InTree}
use pypst_reader.Block.{
  BlockReader, DataBlock, block_size, read_allocation, unpack_trailer, verify_data_block, find,
  DataNode, data_node, x_node, data_shape, read_data_tree, cyclic_key, verify_block_id, verify_crc,
  verify_tree_block, unpack_child,
}

-- The allocation of `size` data bytes is the least multiple of 64 that also holds the trailer, and
-- never more than 8192; sizes outside 1..=8176 are refused.
pub block_size_exact :
    (size : ℕ)
    → ((1 ≤ size)
        × (size ≤ 8176)
        × (total : ℕ) × (block_size size ≡ ok total)
        × (total % 64 ≡ 0)
        × (size + 16 ≤ total)
        × (total < size + 16 + 64)
        × (total ≤ 8192))
      ⊎ (((size < 1) ⊎ (8176 < size)) × (block_size size ≡ err format))
unfolding block_size
block_size_exact size = elim (Bool-cases (leb 1 size)) [
  | inr none_left ↦ inr (inl (ground arith), ground arith)
  | inl some_left ↦ elim (Bool-cases (leb size 8176)) [
    | inr over ↦ inr (inr (ground arith), ground arith)
    | inl fits ↦ inl (
      ground arith,
      ground arith,
      (size + 16 + 63) / 64 * 64,
      ground arith,
      omega arith,
      omega arith,
      ground arith,
      ground arith,
    )
  ]
]

block_size-bounds :
    (size total : ℕ) → block_size size ≡ ok total → (1 ≤ size) × (size ≤ 8176) × (size + 16 ≤ total)
unfolding block_size
block_size-bounds size total h = ground arith

-- What `read_allocation` returns holds the data and the trailer.
pub length-read_allocation :
    (r : BlockReader) (ref : BlockRef) (size : ℕ) {buf : Bytes}
    → read_allocation r ref size ≡ ok buf
    → (1 ≤ size) × (size ≤ 8176) × (size + 16 ≤ length buf)
unfolding read_allocation
length-read_allocation r ref size {buf} h =
    let (total, h1, k1) = >>=-eq-ok (block_size size) _ h in
    let (_, h2, k2) =
      >>=-eq-ok (require (leb (ref.index.value + total) r.limits.max_file_size) format) _ k1 in
    let (_, h3, k3) =
      >>=-eq-ok (require (length (slice r.file ref.index.value total) == total) format) _ k2 in
    let whole : length (slice r.file ref.index.value total) ≡ total =
      ground (arith, require-eq-ok _ _ h3) in
    let same : length (slice r.file ref.index.value total) ≡ length buf =
      ap length (ok-injective k3) in
    let (lo, hi, fits) = block_size-bounds size total h1 in (lo, hi, omega arith)

-- The data of a block is as long as the block B-tree says, decoded or not.
pub length-verify_data_block :
    (r : BlockReader) (buf : Bytes) (size : ℕ) {d : DataBlock}
    → size ≤ length buf
    → verify_data_block r buf size ≡ ok d
    → length d.bytes ≡ size
unfolding verify_data_block
length-verify_data_block r buf size {d} le h =
    let (t, h1, k1) = >>=-eq-ok (unpack_trailer buf (length buf - 16)) _ h in
    let (_, h2, k2) = >>=-eq-ok (require (t.size == size) format) _ k1 in
    let (_, h3, k3) = >>=-eq-ok (verify_block_id t false) _ k2 in
    let (_, h4, k4) = >>=-eq-ok (verify_crc t (slice buf 0 size)) _ k3 in
    sym (ap (λ (x : DataBlock). length x.bytes) (ok-injective k4))
    ∙ length-decode_block (slice buf 0 size) r.crypt_method (cyclic_key t)
    ∙ length-slice buf 0 size (omega arith)

-- What the lookup of a block id returns has that id, but for the reserved bit.
find-internal :
    (r : BlockReader) (block : BlockId) (e : BlockBTreeEntry)
    → find r block ≡ ok e
    → is_internal e.block.block ≡ is_internal block
unfolding find find_block
find-internal r block e h =
    let (_, key) =
      find_key-InTree block_kind unpack_block_entry-Settles r.file r.limits r.bbt (search_key block)
        e h in
    let (_, _, same, _) = search_key_laws e.block.block block (unfold block_entry_key in key) in
    same

abbrev pub is_x : DataNode → Bool
is_x (data_node d) = false
is_x (x_node x) = true

abbrev pub data_length : DataNode → ℕ
data_length (data_node d) = length d.bytes
data_length (x_node x) = 1

data_shape_facts :
    (r : BlockReader) (buf : Bytes) (size : ℕ) (internal : Bool) {n : DataNode}
    → 1 ≤ size
    → size ≤ 8176
    → size + 16 ≤ length buf
    → data_shape r buf size internal ≡ ok n
    → (is_x n ≡ internal) × (1 ≤ data_length n) × (data_length n ≤ 8176)
unfolding data_shape
data_shape_facts r buf size true {n} p q le h =
    let (t, h1, k1) = >>=-eq-ok (verify_tree_block buf size (some 1)) _ h in
    let (es, h2, k2) = >>=-eq-ok (unpack_entries unpack_child t.bytes 8 t.count 0) _ k1 in
    subst (λ (x : DataNode). (is_x x ≡ true) × (1 ≤ data_length x) × (data_length x ≤ 8176))
      (ok-injective k2) (refl, omega arith, omega arith)
data_shape_facts r buf size false {n} p q le h =
    let (d, h1, k1) = >>=-eq-ok (verify_data_block r buf size) _ h in
    let size_eq = length-verify_data_block r buf size {d = d} (omega arith) h1 in
    subst (λ (x : DataNode). (is_x x ≡ false) × (1 ≤ data_length x) × (data_length x ≤ 8176))
      (ok-injective k1) (refl, omega (arith, size_eq), omega (arith, size_eq))

-- A block that is read by its id is a tree block exactly if the id has the internal bit, and a
-- data block holds 1 to 8176 bytes.
pub read_data_tree_shape :
    (r : BlockReader) (block : BlockId) (n : DataNode)
    → read_data_tree r block ≡ ok n
    → (is_x n ≡ is_internal block) × (1 ≤ data_length n) × (data_length n ≤ 8176)
unfolding read_data_tree
read_data_tree_shape r block n h =
    let (e, h1, k1) = >>=-eq-ok (find r block) _ h in
    let (buf, h2, k2) = >>=-eq-ok (read_allocation r e.block e.size) _ k1 in
    let (lo, hi, fits) = length-read_allocation r e.block e.size {buf = buf} h2 in
    let (x, l, u) =
      data_shape_facts r buf e.size (is_internal e.block.block) {n = n} lo hi fits k2 in
    (x ∙ find-internal r block e h1, l, u)
