-- ===== src/Header.antt =====
-- src/pypstreader/ndb/header.py: the 564 bytes at offset 0.
--
-- The offsets of the fields follow from the struct formats of the source: the lead is 44 bytes
-- (dwMagic 0, dwCRCPartial 4, wMagicClient 8, wVer 10, wVerClient 12, bPlatformCreate 14,
-- bPlatformAccess 15, bidNextP 32, dwUnique 40), rgnid is at 44, qwUnused at 172, the ROOT at 180
-- and the tail at 252 (dwAlign 252, the two maps at 256 and 384, bSentinel 512, bCryptMethod 513,
-- rgbReserved 514, bidNextB 516, dwCRCFull 524).
pub mod Refusals
pub mod Accepts
use pypst_reader.Prelude.{ℕ, ◌+◌, ◌==◌, leb, length, if◌then◌else◌, List, take, drop}
use pypst_reader.Error.{Result, ok, err, format, unsupported, require, ◌>>=◌, ◌>>◌}
use pypst_reader.Bytes.{Bytes, u8, u16, u32, u64, slice}
use pypst_reader.Crc.{compute_crc}
use pypst_reader.Encode.{CryptMethod}
use pypst_reader.Ids.BlockId.{BlockId, PageId, block_id, page_id}
use pypst_reader.Root
use pypst_reader.Root.{Root}

pub data Version : Type 0 where
  ansi_14 ansi_15 unicode unicode_4k_36 unicode_4k_37 : Version

-- Version(raw)
unfoldable pub version_of : ℕ → Result Version
version_of raw =
    if raw == 14
    then ok ansi_14
    else if raw == 15
    then ok ansi_15
    else if raw == 23
    then ok unicode
    else if raw == 36
    then ok unicode_4k_36
    else if raw == 37
    then ok unicode_4k_37
    else err format

-- The refusals by kind: an ANSI store and a 4 KB-page store are unsupported.
supported : Version → Result Version
supported ansi_14 = err unsupported
supported ansi_15 = err unsupported
supported unicode = ok unicode
supported unicode_4k_36 = err unsupported
supported unicode_4k_37 = err unsupported

unfoldable pub check_version : ℕ → Result Version
unfolding version_of supported
check_version raw = do version ← version_of raw; supported version

unfoldable pub check_crypt_method : ℕ → Result CryptMethod
check_crypt_method raw =
    if raw == 0x10
    then err unsupported
    else if raw == 0
    then ok CryptMethod.none
    else if raw == 1
    then ok CryptMethod.permute
    else if raw == 2
    then ok CryptMethod.cyclic
    else err format

pub record Header : Type 0 where
  pub version : Version
  pub client_version : ℕ
  pub crypt_method : CryptMethod
  pub next_block : BlockId
  pub next_page : PageId
  pub unique_value : ℕ
  pub root : Root

-- The checks that decide the layout, before anything else is read.
unfoldable pub check_layout : Bytes → Result Version
unfolding check_version
check_layout buf = do
  require (leb 564 (length buf)) format
  require (u32 buf 0 == 0x4E444221) format
  require (u16 buf 8 == 0x4D53) format
  check_version (u16 buf 10)

unfoldable pub check_crcs : Bytes → Result (Unit {0})
check_crcs buf = do
  require (u32 buf 4 == compute_crc 0 (slice buf 8 471)) format
  require (u32 buf 524 == compute_crc 0 (slice buf 8 516)) format

-- The fixed fields, with the block encoding among them.
unfoldable pub check_fields : Bytes → Result CryptMethod
unfolding check_crypt_method
check_fields buf = do
  require (u16 buf 12 == 19) format
  require (u8 buf 14 == 1) format
  require (u8 buf 15 == 1) format
  require (u32 buf 252 == 0) format
  require (u8 buf 512 == 0x80) format
  crypt_method ← check_crypt_method (u8 buf 513)
  require (u16 buf 514 == 0) format
  ok crypt_method

unfoldable pub parse : Bytes → Result Header
parse buf = do
  version ← check_layout buf
  check_crcs buf
  crypt_method ← check_fields buf
  next_block ← block_id (u64 buf 516)
  next_page ← page_id (u64 buf 32)
  root ← Root.unpack_from buf 180
  ok (record {
    version = version;
    client_version = u16 buf 12;
    crypt_method = crypt_method;
    next_block = next_block;
    next_page = next_page;
    unique_value = u32 buf 40;
    root = root;
  })

-- `f.read(HEADER_SIZE)` from offset 0 of a file's contents.
unfoldable pub read_header : Bytes → Result Header
unfolding parse
read_header file = parse (slice file 0 564)
