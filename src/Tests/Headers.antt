-- ===== src/Tests/Headers.antt =====
-- The theorems on headers at small headers.
use pypst_reader.Prelude.{
  ◌≡◌, refl, Bool, true, false, ◌&&◌, [], ◌∷◌, ◌++◌, ltb, arith, inl, inr, replicate, Bool-cases,
}
use pypst_reader.Error.{ok, err, unsupported}
use pypst_reader.Bytes.{Bytes, IsBytes, slice, u16, u32, u64}
use pypst_reader.Encode.{CryptMethod}
use pypst_reader.Ids.BlockId.{BlockId, is_internal}
use pypst_reader.Header
use pypst_reader.Header.{Header}
use pypst_reader.Header.Refusals.{IsSound, root_at, parse-unsupported}
use pypst_reader.Header.Accepts.{parse-IsSound, IsSound-parse}
use pypst_reader.Root.{AmapStatus}
use pypst_reader.Tests.Data.{header_bytes}

abbrev all_bytes : Bytes → Bool
all_bytes [] = true
all_bytes (b ∷ bs) = ltb b 256 && all_bytes bs

all_bytes-IsBytes : (bs : Bytes) → all_bytes bs ≡ true → IsBytes bs
all_bytes-IsBytes [] h = tt
all_bytes-IsBytes (b ∷ bs) h = elim (Bool-cases (ltb b 256)) [
  | inl small ↦ (ground arith, all_bytes-IsBytes bs (rw small at h))
  | inr large ↦ absurd (not_true (rw large at h))
]
  where
    not_true : false ≡ true → ⊥
    not_true e = cc

header-IsSound : IsSound CryptMethod.permute header_bytes
unfolding pypst_reader.Bytes.field pypst_reader.Bytes.from_bytes pypst_reader.Bytes.slice
    pypst_reader.Crc.compute_crc pypst_reader.Crc.crc_register pypst_reader.Crc.zlib_crc32
header-IsSound = record {
  layout = record { long_enough = omega arith; magic = refl; magic_client = refl; version = refl };
  crc_partial = refl;
  crc_full = refl;
  client_version = refl;
  platform_create = refl;
  platform_access = refl;
  align = refl;
  sentinel = refl;
  crypt_method = refl;
  reserved = refl;
}

IsSound-parse_example :
    (h : Header) × (Header.parse header_bytes ≡ ok h)
    × (h.version ≡ Header.Version.unicode)
    × (h.client_version ≡ u16 header_bytes 12)
    × (h.crypt_method ≡ CryptMethod.permute)
    × (h.next_block.raw ≡ u64 header_bytes 516)
    × (h.next_page.raw ≡ u64 header_bytes 32)
    × (h.unique_value ≡ u32 header_bytes 40)
    × (h.root ≡ root_at header_bytes)
IsSound-parse_example =
    IsSound-parse header_bytes CryptMethod.permute (all_bytes-IsBytes header_bytes refl)
      header-IsSound

abbrev header : Header
header = record {
  version = Header.Version.unicode;
  client_version = 19;
  crypt_method = CryptMethod.permute;
  next_block = record { raw = 44 };
  next_page = record { raw = 9 };
  unique_value = 5;
  root = record {
    file_eof_index = record { value = 640 };
    amap_last_index = record { value = 0 };
    amap_free_size = record { value = 0 };
    pmap_free_size = record { value = 0 };
    node_btree = record { page = record { raw = 1 }; index = record { value = 0 } };
    block_btree = record { page = record { raw = 7 }; index = record { value = 0 } };
    amap_is_valid = AmapStatus.valid2;
  };
}

parse_header : Header.parse header_bytes ≡ ok header
unfolding pypst_reader.Bytes.field pypst_reader.Bytes.from_bytes pypst_reader.Bytes.need
    pypst_reader.Bytes.slice pypst_reader.Crc.compute_crc pypst_reader.Crc.crc_register
    pypst_reader.Crc.zlib_crc32 pypst_reader.Header.check_crcs
    pypst_reader.Header.check_crypt_method pypst_reader.Header.check_fields
    pypst_reader.Header.check_layout pypst_reader.Header.check_version pypst_reader.Header.parse
    pypst_reader.Header.version_of pypst_reader.Ids.BlockId.block_id
    pypst_reader.Ids.BlockId.byte_index pypst_reader.Ids.BlockId.page_id
    pypst_reader.Root.from_byte_lenient pypst_reader.Root.unpack_from
parse_header = refl

parse-IsSound_example : IsSound CryptMethod.permute header_bytes
parse-IsSound_example = parse-IsSound header_bytes header parse_header

-- The start of an ANSI store.
abbrev ansi_bytes : Bytes
ansi_bytes =
    (0x21 ∷ 0x42 ∷ 0x44 ∷ 0x4E ∷ 0 ∷ 0 ∷ 0 ∷ 0 ∷ 0x53 ∷ 0x4D ∷ 14 ∷ 0 ∷ []) ++ replicate 552 0

parse-unsupported_example : Header.parse ansi_bytes ≡ err unsupported
unfolding pypst_reader.Bytes.field pypst_reader.Bytes.from_bytes pypst_reader.Bytes.slice
parse-unsupported_example = parse-unsupported ansi_bytes (omega arith) refl refl (inl refl)
