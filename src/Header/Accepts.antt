-- ===== src/Header/Accepts.antt =====
-- The buffers that `Header.parse` accepts, field by field.
use pypst_reader.Prelude.{ℕ, ◌^◌, ◌≤◌, ◌<◌, ◌≡◌, refl, ap, arith, length, ◌==◌, ◌∙◌}
use pypst_reader.Error.{Result, ok, err, stuck, format, require, >>=-eq-ok, require-eq-ok}
use pypst_reader.Bytes.{Bytes, IsBytes, u8, u16, u32, u64, slice}
use pypst_reader.Crc.{compute_crc}
use pypst_reader.Encode.{CryptMethod}
use pypst_reader.Ids.BlockId.{block_id, page_id}
use pypst_reader.Root
use pypst_reader.Header.{
  Header, Version, check_crypt_method, check_layout, check_crcs, check_fields, parse,
}
use pypst_reader.Header.Refusals.{
  IsSound, check_layout-IsUnicode, IsUnicode-check_layout, check_crypt_method-Declares,
  Declares-check_crypt_method, word, root_at, root_total,
}

record FieldsHold (method : CryptMethod) (buf : Bytes) : Type 0 where
  client_version : u16 buf 12 ≡ 19
  platform_create : u8 buf 14 ≡ 1
  platform_access : u8 buf 15 ≡ 1
  align : u32 buf 252 ≡ 0
  sentinel : u8 buf 512 ≡ 0x80
  crypt_method : check_crypt_method (u8 buf 513) ≡ ok method
  reserved : u16 buf 514 ≡ 0

check_fields-FieldsHold :
    (buf : Bytes) (m : CryptMethod) → check_fields buf ≡ ok m → FieldsHold m buf
unfolding check_fields
check_fields-FieldsHold buf m h =
    let (_, h1, k1) = >>=-eq-ok (require (u16 buf 12 == 19) format) _ h in
    let (_, h2, k2) = >>=-eq-ok (require (u8 buf 14 == 1) format) _ k1 in
    let (_, h3, k3) = >>=-eq-ok (require (u8 buf 15 == 1) format) _ k2 in
    let (_, h4, k4) = >>=-eq-ok (require (u32 buf 252 == 0) format) _ k3 in
    let (_, h5, k5) = >>=-eq-ok (require (u8 buf 512 == 0x80) format) _ k4 in
    let (m', h6, k6) = >>=-eq-ok (check_crypt_method (u8 buf 513)) _ k5 in
    let (_, h7, k7) = >>=-eq-ok (require (u16 buf 514 == 0) format) _ k6 in
    let same : m' ≡ m = cc in
    record {
      client_version = ground (arith, require-eq-ok _ _ h1);
      platform_create = ground (arith, require-eq-ok _ _ h2);
      platform_access = ground (arith, require-eq-ok _ _ h3);
      align = ground (arith, require-eq-ok _ _ h4);
      sentinel = ground (arith, require-eq-ok _ _ h5);
      crypt_method = cc;
      reserved = ground (arith, require-eq-ok _ _ h7);
    }

FieldsHold-check_fields :
    (buf : Bytes) (m : CryptMethod) → FieldsHold m buf → check_fields buf ≡ ok m
unfolding check_fields
FieldsHold-check_fields buf m f = simp (
  f.client_version, f.platform_create, f.platform_access, f.align, f.sentinel, f.crypt_method,
  f.reserved,
)

check_crcs_iff :
    (buf : Bytes)
    → (check_crcs buf ≡ ok tt
        → (u32 buf 4 ≡ compute_crc 0 (slice buf 8 471))
          × (u32 buf 524 ≡ compute_crc 0 (slice buf 8 516)))
      × (u32 buf 4 ≡ compute_crc 0 (slice buf 8 471)
          → u32 buf 524 ≡ compute_crc 0 (slice buf 8 516)
          → check_crcs buf ≡ ok tt)
unfolding check_crcs
check_crcs_iff buf = (λ h. ground arith, λ p q. ground arith)

-- A header that `parse` returns comes from a sound buffer.
pub parse-IsSound : (buf : Bytes) (h : Header) → parse buf ≡ ok h → IsSound h.crypt_method buf
unfolding parse
parse-IsSound buf h e =
    let (v, e1, k1) = >>=-eq-ok (check_layout buf) _ e in
    let (_, e2, k2) = >>=-eq-ok (check_crcs buf) _ k1 in
    let (m, e3, k3) = >>=-eq-ok (check_fields buf) _ k2 in
    let (_, e4, k4) = >>=-eq-ok (block_id (u64 buf 516)) _ k3 in
    let (_, e5, k5) = >>=-eq-ok (page_id (u64 buf 32)) _ k4 in
    let (_, e6, k6) = >>=-eq-ok (Root.unpack_from buf 180) _ k5 in
    let same : m ≡ h.crypt_method = ap_method k6 in
    let f = check_fields-FieldsHold buf h.crypt_method (e3 ∙ ap ok same) in
    let (p, q) = (check_crcs_iff buf).0 e2 in
    record {
      layout = check_layout-IsUnicode buf e1;
      crc_partial = p;
      crc_full = q;
      client_version = f.client_version;
      platform_create = f.platform_create;
      platform_access = f.platform_access;
      align = f.align;
      sentinel = f.sentinel;
      crypt_method = check_crypt_method-Declares (u8 buf 513) h.crypt_method f.crypt_method;
      reserved = f.reserved;
    }
  where
    method_of : Result Header → CryptMethod
    method_of (ok x) = x.crypt_method
    method_of (err x) = CryptMethod.none
    method_of stuck = CryptMethod.none

    ap_method : {x y : Header} → ok x ≡ ok y → x.crypt_method ≡ y.crypt_method
    ap_method p = ap method_of p

block_id_total : (v : ℕ) → v < 2 ^ 64 → block_id v ≡ ok (record { raw = v })
unfolding block_id
block_id_total v h = ground arith

page_id_total : (v : ℕ) → v < 2 ^ 64 → page_id v ≡ ok (record { raw = v })
unfolding page_id
page_id_total v h = ground arith

-- Every sound buffer of bytes is accepted, as a Unicode store, with the fields at their offsets.
pub IsSound-parse :
    (buf : Bytes) (m : CryptMethod)
    → IsBytes buf
    → IsSound m buf
    → (h : Header) × (parse buf ≡ ok h)
      × (h.version ≡ Version.unicode)
      × (h.client_version ≡ u16 buf 12)
      × (h.crypt_method ≡ m)
      × (h.next_block.raw ≡ u64 buf 516)
      × (h.next_page.raw ≡ u64 buf 32)
      × (h.unique_value ≡ u32 buf 40)
      × (h.root ≡ root_at buf)
unfolding parse
IsSound-parse buf m bs s = (
  record {
    version = Version.unicode;
    client_version = u16 buf 12;
    crypt_method = m;
    next_block = record { raw = u64 buf 516 };
    next_page = record { raw = u64 buf 32 };
    unique_value = u32 buf 40;
    root = root_at buf;
  },
  simp (
    IsUnicode-check_layout buf s.layout,
    (check_crcs_iff buf).1 s.crc_partial s.crc_full,
    FieldsHold-check_fields buf m fields,
    block_id_total (u64 buf 516) (word buf 516 bs),
    page_id_total (u64 buf 32) (word buf 32 bs),
    root_total buf bs long,
  ),
  refl,
  refl,
  refl,
  refl,
  refl,
  refl,
  refl,
)
  where
    long : 252 ≤ length buf
    long = omega (arith, s.layout.long_enough)

    fields : FieldsHold m buf
    fields = record {
      client_version = s.client_version;
      platform_create = s.platform_create;
      platform_access = s.platform_access;
      align = s.align;
      sentinel = s.sentinel;
      crypt_method = Declares-check_crypt_method (u8 buf 513) m s.crypt_method;
      reserved = s.reserved;
    }
