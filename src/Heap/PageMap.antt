-- ===== src/Heap/PageMap.antt =====
-- `HeapPageMap` and `HeapNode._parse_page_map` of src/pypstreader/ltp/heap.py.
use pypst_reader.Prelude.{
  ℕ, zero, suc, ◌+◌, ◌-◌, ◌*◌, ◌%◌, Bool, List, [], ◌∷◌, ltb, leb, ◌==◌, length, if◌then◌else◌,
  Option, none, some, get_or,
}
use pypst_reader.Error.{Result, ok, err, format, require, ◌>>=◌, ◌>>◌}
use pypst_reader.Bytes.{Bytes, u16, need, slice, from_bytes}
use pypst_reader.Heap.Ids.{unpack_header, unpack_fill_levels}

pub record HeapPageMap : Type 0 where
  pub offsets : List ℕ
  pub free_count : ℕ
  pub fill_levels : Option (List ℕ)

-- `cAlloc`
unfoldable pub count : HeapPageMap → ℕ
count m = length m.offsets - 1

-- The offset at which item `i` starts, and at which item `i - 1` ends.
unfoldable pub offset_at : HeapPageMap → ℕ → ℕ
offset_at m i = get_or m.offsets i 0

unfoldable pub is_bitmap_block : ℕ → Bool
is_bitmap_block block_index = block_index % 128 == 8

-- The block-kind header: where the page map is, and the fill levels of a bitmap block.
unfoldable pub block_header : ℕ → Bytes → Result (ℕ × Option (List ℕ))
unfolding is_bitmap_block
block_header zero block = do header ← unpack_header block; ok (header.page_map_offset, none)
block_header (suc n) block =
    if is_bitmap_block (suc n)
    then (do
      need 66 block 0
      ok (u16 block 0, some (unpack_fill_levels (from_bytes (slice block 2 64)) 128)))
    else (do need 2 block 0; ok (u16 block 0, none))

-- struct.unpack_from(f"<{count}H", block, offset)
unfoldable pub words : Bytes → ℕ → ℕ → List ℕ
words block zero offset = []
words block (suc count) offset = u16 block offset ∷ words block count (offset + 2)

-- The loop over `offsets[1:]`: the last offset, and how many steps were zero.
unfoldable pub scan : ℕ → ℕ → List ℕ → Result (ℕ × ℕ)
scan last freed [] = ok (last, freed)
scan last freed (offset ∷ rest) =
    let next = scan offset (if offset == last then freed + 1 else freed) rest in
    if ltb offset last then err format else next

-- `last = offsets[0]`: there is at least one.
unfoldable pub scan_all : List ℕ → Result (ℕ × ℕ)
unfolding scan
scan_all [] = err format
scan_all (first ∷ rest) = scan first 0 rest

unfoldable pub parse_page_map : ℕ → Bytes → Result HeapPageMap
unfolding words
parse_page_map block_index block = do
  (at, fill_levels) ← block_header block_index block
  need 4 block at
  need (2 * (u16 block at + 1)) block (at + 4)
  let offsets = words block (u16 block at + 1) (at + 4)
  (last, freed) ← scan_all offsets
  require (leb last (length block)) format
  require (freed == u16 block (at + 2)) format
  ok (record { offsets = offsets; free_count = u16 block (at + 2); fill_levels = fill_levels })
