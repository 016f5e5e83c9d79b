-- ===== src/Page/DensityList.antt =====
-- `DensityListPage` of src/pypstreader/ndb/page.py: the allocator's list of maps with free space.
use pypst_reader.Prelude.{
  ℕ, zero, suc, ◌+◌, ◌/◌, ◌%◌, ◌^◌, Bool, List, [], ◌∷◌, leb, ◌==◌, length, ◌&&◌, true,
}
use pypst_reader.Error.{Result, ok, format, require, ◌>>=◌, ◌>>◌}
use pypst_reader.Bytes.{Bytes, u8, u16, u32, slice}
use pypst_reader.Page.Entries.{dl}
use pypst_reader.Page.{PageTrailer, unpack_trailer, verify, same_type}

pub record DensityListEntry : Type 0 where
  pub raw : ℕ

-- The low 20 bits, and the high 12.
unfoldable pub page : DensityListEntry → ℕ
page e = e.raw % 2 ^ 20

unfoldable pub free_slots : DensityListEntry → ℕ
free_slots e = e.raw / 2 ^ 20 % 2 ^ 12

pub record DensityListPage : Type 0 where
  pub backfill_complete : Bool
  pub current_page : ℕ
  pub entries : List DensityListEntry
  pub trailer : PageTrailer

-- struct.unpack_from(f"<{count}I", page_bytes, offset)
unfoldable pub words : Bytes → ℕ → ℕ → List DensityListEntry
words buf zero offset = []
words buf (suc count) offset = record { raw = u32 buf offset } ∷ words buf count (offset + 4)

all_zero : Bytes → Bool
all_zero [] = true
all_zero (b ∷ bs) = (b == 0) && all_zero bs

unfoldable pub parse : Bytes → Result DensityListPage
unfolding all_zero words
parse buf = do
  require (length buf == 512) format
  require (leb (u8 buf 1) 119) format
  require (u16 buf 2 == 0) format
  require (all_zero (slice buf 484 12)) format
  trailer ← unpack_trailer buf 496
  require (same_type trailer.page_type dl) format
  verify trailer buf
  ok (record {
    backfill_complete = u8 buf 0 % 2 == 1;
    current_page = u32 buf 4;
    entries = words buf (u8 buf 1) 8;
    trailer = trailer;
  })
