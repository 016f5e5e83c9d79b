-- ===== src/Page/Shape.antt =====
-- What a B-tree page that parses looks like.
use pypst_reader.Prelude.{
  ℕ, zero, suc, ◌+◌, ◌*◌, ◌/◌, ◌≤◌, ◌<◌, ◌≡◌, refl, arith, List, [], ◌∷◌, length, ◌==◌, Bool, true,
  false,
}
use mathlib.Core.Path.{subst}
use pypst_reader.Error.{Result, ok, >>=-eq-ok, ok-injective}
use pypst_reader.Bytes.{Bytes, u8, slice}
use pypst_reader.Crc.{compute_crc}
use pypst_reader.Page.Entries.{unpack_intermediate}
use pypst_reader.Page.{
  PageTrailer, verify, LeafKind, PageEntries, intermediate, leaf, BTreePage, unpack_entries,
  page_entries, least_size, check_fields, check_trailer, parse,
}

abbrev pub entry_count : {E : Type 0} → PageEntries E → ℕ
entry_count (intermediate es) = length es
entry_count (leaf es) = length es

abbrev pub is_leaf_entries : {E : Type 0} → PageEntries E → Bool
is_leaf_entries (intermediate es) = false
is_leaf_entries (leaf es) = true

length-unpack_entries :
    {E : Type 0} (unpack : Bytes → ℕ → Result E) (buf : Bytes) (stride count i : ℕ) {es : List E}
    → unpack_entries unpack buf stride count i ≡ ok es
    → length es ≡ count
unfolding unpack_entries
length-unpack_entries unpack buf stride zero i h = ground arith
length-unpack_entries unpack buf stride (suc count) i h =
    let (e, _, h1) = >>=-eq-ok (unpack buf (i * stride)) _ h in
    let (rest, h2, h3) = >>=-eq-ok (unpack_entries unpack buf stride count (i + 1)) _ h1 in
    ground (arith, length-unpack_entries unpack buf stride count (i + 1) {es = rest} h2)

-- The entries from index `i` on are those that are read at their index times the stride.
abbrev pub Placed : {E : Type 0} → (Bytes → ℕ → Result E) → Bytes → ℕ → ℕ → List E → Type 0
Placed unpack buf stride i [] = Unit
Placed unpack buf stride i (e ∷ es) =
    (unpack buf (i * stride) ≡ ok e) × Placed unpack buf stride (i + 1) es

unpack_entries-Placed :
    {E : Type 0} (unpack : Bytes → ℕ → Result E) (buf : Bytes) (stride count i : ℕ) (es : List E)
    → unpack_entries unpack buf stride count i ≡ ok es
    → Placed unpack buf stride i es
unfolding unpack_entries
unpack_entries-Placed unpack buf stride zero i es h =
    subst (Placed unpack buf stride i) (ok-injective h) tt
unpack_entries-Placed unpack buf stride (suc count) i es h =
    let (e, h1, k1) = >>=-eq-ok (unpack buf (i * stride)) _ h in
    let (rest, h2, k2) = >>=-eq-ok (unpack_entries unpack buf stride count (i + 1)) _ k1 in
    subst (Placed unpack buf stride i) (ok-injective k2)
      (h1, unpack_entries-Placed unpack buf stride count (i + 1) rest h2)

fits_lem :
    (i count most stride least : ℕ)
    → i < count
    → count ≤ most
    → most ≤ 488 / stride
    → least ≤ stride
    → i * stride + least ≤ 488
fits_lem i count most stride least h p q r = grind arith

module _ {E : Type 0} (kind : LeafKind E) where
  page_entries_shape :
      (buf : Bytes) (stride count level : ℕ) {es : PageEntries E}
      → page_entries kind buf stride count level ≡ ok es
      → (entry_count es ≡ count) × (is_leaf_entries es ≡ (level == 0))
  unfolding page_entries
  page_entries_shape buf stride count zero h =
      let (es, h1, h2) = >>=-eq-ok (unpack_entries kind.unpack buf stride count 0) _ h in
      ground (arith, length-unpack_entries kind.unpack buf stride count 0 {es = es} h1)
  page_entries_shape buf stride count (suc level) h =
      let (es, h1, h2) = >>=-eq-ok (unpack_entries unpack_intermediate buf stride count 0) _ h in
      ground (arith, length-unpack_entries unpack_intermediate buf stride count 0 {es = es} h1)

  -- Index entries or leaf entries, each where it belongs.
  abbrev pub EntriesAt : Bytes → ℕ → PageEntries E → Type 0
  EntriesAt buf stride (intermediate es) = Placed unpack_intermediate buf stride 0 es
  EntriesAt buf stride (leaf es) = Placed kind.unpack buf stride 0 es

  page_entries-EntriesAt :
      (buf : Bytes) (stride count level : ℕ) (es : PageEntries E)
      → page_entries kind buf stride count level ≡ ok es
      → EntriesAt buf stride es
  unfolding page_entries
  page_entries-EntriesAt buf stride count zero es h =
      let (found, h1, h2) = >>=-eq-ok (unpack_entries kind.unpack buf stride count 0) _ h in
      subst (EntriesAt buf stride) (ok-injective h2)
        (unpack_entries-Placed kind.unpack buf stride count 0 found h1)
  page_entries-EntriesAt buf stride count (suc level) es h =
      let (found, h1, h2) = >>=-eq-ok (unpack_entries unpack_intermediate buf stride count 0) _ h in
      subst (EntriesAt buf stride) (ok-injective h2)
        (unpack_entries-Placed unpack_intermediate buf stride count 0 found h1)

  record FieldsHold (buf : Bytes) : Type 0 where
    size : length buf ≡ 512
    counts : u8 buf 488 ≤ u8 buf 489
    strides : least_size kind (u8 buf 491) ≤ u8 buf 490
    fits : u8 buf 489 ≤ 488 / u8 buf 490
    levels : u8 buf 491 ≤ 8

  check_fields-FieldsHold : (buf : Bytes) → check_fields kind buf ≡ ok tt → FieldsHold buf
  unfolding check_fields
  check_fields-FieldsHold buf h = ground arith

  check_trailer-crc :
      (buf : Bytes) {t : PageTrailer}
      → check_trailer kind buf ≡ ok t
      → compute_crc 0 (slice buf 0 496) ≡ t.crc
  unfolding check_trailer verify
  check_trailer-crc buf h = ground arith

  -- The shape of a page read from `buf`.
  pub record HasShape (buf : Bytes) (page : BTreePage E) : Type 0 where
    pub count_at : entry_count page.entries ≡ u8 buf 488
    pub max_at : page.max_entries ≡ u8 buf 489
    pub size_at : page.entry_size ≡ u8 buf 490
    pub level_at : page.level ≡ u8 buf 491
    pub entries_at : EntriesAt buf page.entry_size page.entries
    pub count_le : entry_count page.entries ≤ page.max_entries
    pub inside :
        (i : ℕ)
        → i < entry_count page.entries
        → i * page.entry_size + least_size kind page.level ≤ 488
    pub level_le : page.level ≤ 8
    pub leaf_iff : is_leaf_entries page.entries ≡ (page.level == 0)
    pub crc : compute_crc 0 (slice buf 0 496) ≡ page.trailer.crc

  -- A page that parses has its counts, its stride and its level from the bytes 488 to 491. It holds
  -- `cEnt` entries, at most `cEntMax`; each is what is read at its index times the stride `cbEnt`,
  -- and ends inside the 488 bytes before the counts; the level is at most 8; it is a leaf page
  -- exactly if its level is 0; and its trailer's CRC is that of the 496 bytes before the trailer.
  pub parse-HasShape :
      (buf : Bytes) (page : BTreePage E) → parse kind buf ≡ ok page → HasShape buf page
  unfolding parse
  parse-HasShape buf page h =
      let (_, h1, k1) = >>=-eq-ok (check_fields kind buf) _ h in
      let (t, h2, k2) = >>=-eq-ok (check_trailer kind buf) _ k1 in
      let (es, h3, k3) =
        >>=-eq-ok (page_entries kind buf (u8 buf 490) (u8 buf 488) (u8 buf 491)) _ k2 in
      let f = check_fields-FieldsHold buf h1 in
      let (n, l) = page_entries_shape buf (u8 buf 490) (u8 buf 488) (u8 buf 491) {es = es} h3 in
      subst (HasShape buf) (ok-injective k3) (record {
        count_at = n;
        max_at = refl;
        size_at = refl;
        level_at = refl;
        entries_at = page_entries-EntriesAt buf (u8 buf 490) (u8 buf 488) (u8 buf 491) es h3;
        count_le = omega (arith, n, f.counts);
        inside = λ i lt.
            fits_lem i (u8 buf 488) (u8 buf 489) (u8 buf 490) (least_size kind (u8 buf 491))
              (omega (arith, n)) f.counts f.fits f.strides;
        level_le = f.levels;
        leaf_iff = l;
        crc = check_trailer-crc buf {t = t} h2;
      })
