-- ===== src/Header/Refusals.antt =====
-- Which buffers are a header, and what the others are refused as.
use pypst_reader.Prelude.{ℕ, ◌^◌, ◌≤◌, ◌<◌, ◌≡◌, arith, ◌⊎◌, inl, inr, length}
use pypst_reader.Error.{ok, err, format, unsupported}
use pypst_reader.Bytes.{Bytes, IsBytes, u8, u16, u32, u64, slice}
use pypst_reader.Bytes.RoundTrip.{field-lt, need-ok}
use pypst_reader.Crc.{compute_crc}
use pypst_reader.Encode.{CryptMethod}
use pypst_reader.Ids.BlockId.{byte_index, page_id}
use pypst_reader.Root
use pypst_reader.Root.{Root}
use pypst_reader.Header.{Version, version_of, check_crypt_method, check_layout, parse}

-- What the two encodings of `bCryptMethod` that a store may declare stand for.
abbrev pub Declares : CryptMethod → ℕ → Type 0
Declares CryptMethod.none v = v ≡ 0
Declares CryptMethod.permute v = v ≡ 1
Declares CryptMethod.cyclic v = v ≡ 2

-- The layout of a Unicode store.
pub record IsUnicode (buf : Bytes) : Type 0 where
  pub long_enough : 564 ≤ length buf
  pub magic : u32 buf 0 ≡ 0x4E444221
  pub magic_client : u16 buf 8 ≡ 0x4D53
  pub version : u16 buf 10 ≡ 23

-- Everything else that is validated.
pub record IsSound (method : CryptMethod) (buf : Bytes) : Type 0 where
  pub layout : IsUnicode buf
  pub crc_partial : u32 buf 4 ≡ compute_crc 0 (slice buf 8 471)
  pub crc_full : u32 buf 524 ≡ compute_crc 0 (slice buf 8 516)
  pub client_version : u16 buf 12 ≡ 19
  pub platform_create : u8 buf 14 ≡ 1
  pub platform_access : u8 buf 15 ≡ 1
  pub align : u32 buf 252 ≡ 0
  pub sentinel : u8 buf 512 ≡ 0x80
  pub crypt_method : Declares method (u8 buf 513)
  pub reserved : u16 buf 514 ≡ 0

pub check_layout-IsUnicode : (buf : Bytes) {v : Version} → check_layout buf ≡ ok v → IsUnicode buf
unfolding check_layout
check_layout-IsUnicode buf h = ground arith

pub IsUnicode-check_layout : (buf : Bytes) → IsUnicode buf → check_layout buf ≡ ok Version.unicode
unfolding check_layout
IsUnicode-check_layout buf u = ground (arith, u.long_enough, u.magic, u.magic_client, u.version)

pub check_crypt_method-Declares :
    (v : ℕ) (m : CryptMethod) → check_crypt_method v ≡ ok m → Declares m v
unfolding check_crypt_method
check_crypt_method-Declares v CryptMethod.none h = ground arith
check_crypt_method-Declares v CryptMethod.permute h = ground arith
check_crypt_method-Declares v CryptMethod.cyclic h = ground arith

pub Declares-check_crypt_method :
    (v : ℕ) (m : CryptMethod) → Declares m v → check_crypt_method v ≡ ok m
unfolding check_crypt_method
Declares-check_crypt_method v CryptMethod.none h = ground arith
Declares-check_crypt_method v CryptMethod.permute h = ground arith
Declares-check_crypt_method v CryptMethod.cyclic h = ground arith

unsupported_layout :
    (buf : Bytes)
    → 564 ≤ length buf
    → u32 buf 0 ≡ 0x4E444221
    → u16 buf 8 ≡ 0x4D53
    → (u16 buf 10 ≡ 14) ⊎ ((u16 buf 10 ≡ 15) ⊎ ((u16 buf 10 ≡ 36) ⊎ (u16 buf 10 ≡ 37)))
    → check_layout buf ≡ err unsupported
unfolding check_layout
unsupported_layout buf long m c v = ground arith

short_layout : (buf : Bytes) → length buf < 564 → check_layout buf ≡ err format
unfolding check_layout
short_layout buf h = ground arith

unknown_layout :
    (buf : Bytes)
    → 564 ≤ length buf
    → u32 buf 0 ≡ 0x4E444221
    → u16 buf 8 ≡ 0x4D53
    → version_of (u16 buf 10) ≡ err format
    → check_layout buf ≡ err format
unfolding check_layout
unknown_layout buf long m c v = ground arith

-- A buffer of at least 564 bytes with the magic numbers whose version is ANSI or has 4 KB pages is
-- reported as unsupported, whatever else it holds.
pub parse-unsupported :
    (buf : Bytes)
    → 564 ≤ length buf
    → u32 buf 0 ≡ 0x4E444221
    → u16 buf 8 ≡ 0x4D53
    → (u16 buf 10 ≡ 14) ⊎ ((u16 buf 10 ≡ 15) ⊎ ((u16 buf 10 ≡ 36) ⊎ (u16 buf 10 ≡ 37)))
    → parse buf ≡ err unsupported
unfolding parse
parse-unsupported buf long m c v = ground (arith, unsupported_layout buf long m c v)

-- A buffer that is too short is reported as malformed, and so is one with the magic numbers and a
-- version that no Outlook wrote.
pub parse-format :
    (buf : Bytes)
    → (length buf < 564)
      ⊎ ((564 ≤ length buf)
          × (u32 buf 0 ≡ 0x4E444221)
          × (u16 buf 8 ≡ 0x4D53)
          × (version_of (u16 buf 10) ≡ err format))
    → parse buf ≡ err format
unfolding parse
parse-format buf (inl short) = ground (arith, short_layout buf short)
parse-format buf (inr (long, m, c, v)) = ground (arith, unknown_layout buf long m c v)

-- Every 8-byte field of a buffer of bytes is a 64-bit number.
pub word : (buf : Bytes) (offset : ℕ) → IsBytes buf → u64 buf offset < 2 ^ 64
word buf offset h = omega (arith, field-lt 8 buf offset h)

-- The ROOT whose fields stand at their offsets.
abbrev pub root_at : Bytes → Root
root_at buf = record {
  file_eof_index = record { value = u64 buf 184 };
  amap_last_index = record { value = u64 buf 192 };
  amap_free_size = record { value = u64 buf 200 };
  pmap_free_size = record { value = u64 buf 208 };
  node_btree = record {
    page = record { raw = u64 buf 216 };
    index = record { value = u64 buf 224 };
  };
  block_btree = record {
    page = record { raw = u64 buf 232 };
    index = record { value = u64 buf 240 };
  };
  amap_is_valid = Root.from_byte_lenient (u8 buf 248);
}

pub root_total :
    (buf : Bytes) → IsBytes buf → 252 ≤ length buf → Root.unpack_from buf 180 ≡ ok (root_at buf)
unfolding Root.unpack_from byte_index page_id
root_total buf h le = ground (
  arith,
  need-ok 72 buf 180 (omega arith),
  word buf 184 h,
  word buf 192 h,
  word buf 200 h,
  word buf 208 h,
  word buf 216 h,
  word buf 224 h,
  word buf 232 h,
  word buf 240 h,
)
