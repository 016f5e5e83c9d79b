-- ===== src/Page.antt =====
-- src/pypstreader/ndb/page.py: the 512-byte pages of the node and block B-trees.
--
-- `LeafKind` stands for the `kind` argument of `BTreePage.parse` with its row of
-- `_LEAF_ENTRY_TYPES`: the page type, and the size, the reader and the key of a leaf entry.
pub mod Entries
pub mod DensityList
pub mod Shape
pub mod Settles
use pypst_reader.Prelude.{
  ℕ, zero, suc, ◌+◌, ◌*◌, ◌/◌, ◌%◌, ◌^◌, Bool, true, false, ◌||◌, not, List, [], ◌∷◌, ◌==◌, ltb,
  leb, length, if◌then◌else◌,
}
use pypst_reader.Error.{Result, ok, err, format, require, ◌>>=◌, ◌>>◌}
use pypst_reader.Bytes.{Bytes, u8, u16, u32, u64, need, slice}
use pypst_reader.Crc.{compute_crc, compute_sig}
use pypst_reader.Ids.BlockId.{PageId, page_id}
use pypst_reader.Page.Entries.{
  PageType, bbt, nbt, fmap, pmap, amap, fpmap, dl, IntermediateEntry, unpack_intermediate,
}

-- PageType(value)
unfoldable pub from_byte : ℕ → Result PageType
from_byte v =
    if v == 0x80
    then ok bbt
    else if v == 0x81
    then ok nbt
    else if v == 0x82
    then ok fmap
    else if v == 0x83
    then ok pmap
    else if v == 0x84
    then ok amap
    else if v == 0x85
    then ok fpmap
    else if v == 0x86
    then ok dl
    else err format

-- `is` on two members.
unfoldable pub same_type : PageType → PageType → Bool
same_type bbt bbt = true
same_type nbt nbt = true
same_type fmap fmap = true
same_type pmap pmap = true
same_type amap amap = true
same_type fpmap fpmap = true
same_type dl dl = true
same_type _ _ = false

unfoldable pub is_signed : PageType → Bool
unfolding same_type
is_signed t = same_type t bbt || same_type t nbt || same_type t dl

unfoldable pub signature : PageType → ℕ → ℕ → ℕ
unfolding is_signed
signature t index page = if is_signed t then compute_sig (index % 2 ^ 32) (page % 2 ^ 32) else 0

pub record PageTrailer : Type 0 where
  pub page_type : PageType
  pub signature : ℕ
  pub crc : ℕ
  pub block_id : PageId

unfoldable pub unpack_trailer : Bytes → ℕ → Result PageTrailer
unfolding from_byte
unpack_trailer buf offset = do
  need 16 buf offset
  require (u8 buf offset == u8 buf (offset + 1)) format
  page_type ← from_byte (u8 buf offset)
  block_id ← page_id (u64 buf (offset + 8))
  ok (record {
    page_type = page_type;
    signature = u16 buf (offset + 2);
    crc = u32 buf (offset + 4);
    block_id = block_id;
  })

unfoldable pub verify : PageTrailer → Bytes → Result (Unit {0})
verify trailer page_bytes = do
  require (length page_bytes == 512) format
  require (compute_crc 0 (slice page_bytes 0 496) == trailer.crc) format

pub record LeafKind (E : Type 0) : Type 0 where
  pub page_type : PageType
  pub entry_size : ℕ
  pub unpack : Bytes → ℕ → Result E
  pub key : E → ℕ

pub data PageEntries (E : Type 0) : Type 0 where
  intermediate : List IntermediateEntry → PageEntries E
  leaf : List E → PageEntries E

pub record BTreePage (E : Type 0) : Type 0 where
  pub level : ℕ
  pub max_entries : ℕ
  pub entry_size : ℕ
  pub entries : PageEntries E
  pub trailer : PageTrailer

-- tuple(unpack_from(page_bytes, i * entry_size) for i in range(i, i + count))
unfoldable pub unpack_entries {ℓ} :
    {E : Type ℓ} → (Bytes → ℕ → Result E) → Bytes → ℕ → ℕ → ℕ → Result (List E)
unpack_entries unpack buf stride zero i = ok []
unpack_entries unpack buf stride (suc count) i = do
  entry ← unpack buf (i * stride)
  rest ← unpack_entries unpack buf stride count (i + 1)
  ok (entry ∷ rest)

module _ {E : Type 0} (kind : LeafKind E) where
  -- The entries of a page, of the type that its level says.
  unfoldable pub page_entries : Bytes → ℕ → ℕ → ℕ → Result (PageEntries E)
  page_entries buf stride count zero = do
    es ← unpack_entries kind.unpack buf stride count 0
    ok (leaf es)
  page_entries buf stride count (suc level) = do
    es ← unpack_entries unpack_intermediate buf stride count 0
    ok (intermediate es)

  -- `entry_type.SIZE`
  abbrev pub least_size : ℕ → ℕ
  least_size level = if level == 0 then kind.entry_size else 24

  -- The checks of the BTPAGE fields, in the source's order.
  unfoldable pub check_fields : Bytes → Result (Unit {0})
  check_fields buf = do
    require (length buf == 512) format
    require (leb (u8 buf 488) (u8 buf 489)) format
    require (leb (least_size (u8 buf 491)) (u8 buf 490)) format
    require (leb (u8 buf 489) (488 / u8 buf 490)) format
    require (leb (u8 buf 491) 8) format
    require (u32 buf 492 == 0) format

  unfoldable pub check_trailer : Bytes → Result PageTrailer
  unfolding same_type
  check_trailer buf = do
    trailer ← unpack_trailer buf 496
    require (same_type trailer.page_type bbt || same_type trailer.page_type nbt) format
    verify trailer buf
    require (not (u8 buf 491 == 0) || same_type trailer.page_type kind.page_type) format
    ok trailer

  unfoldable pub parse : Bytes → Result (BTreePage E)
  parse buf = do
    check_fields buf
    trailer ← check_trailer buf
    entries ← page_entries buf (u8 buf 490) (u8 buf 488) (u8 buf 491)
    ok (record {
      level = u8 buf 491;
      max_entries = u8 buf 489;
      entry_size = u8 buf 490;
      entries = entries;
      trailer = trailer;
    })
