-- ===== src/HeapTree/Records.antt =====
-- The header and the records of a B-tree on heap, of src/pypstreader/ltp/tree.py.
use pypst_reader.Prelude.{
  ℕ, zero, suc, ◌+◌, ◌-◌, ◌*◌, ◌/◌, Bool, true, false, ◌&&◌, ◌||◌, List, [], ◌∷◌, ltb, leb, ◌==◌,
  if◌then◌else◌, Option, none, some,
}
use pypst_reader.Error.{Result, ok, err, format, require, ◌>>=◌, ◌>>◌}
use pypst_reader.Bytes.{Bytes, slice, from_bytes, u8, u32, need}
use pypst_reader.Heap.Ids.{HeapNodeType, tree, HeapId, from_wire, heap_id, unpack_from}

pub record HeapTreeHeader : Type 0 where
  pub key_size : ℕ
  pub entry_size : ℕ
  pub levels : ℕ
  pub root : HeapId

-- `key_size not in KEY_SIZES`
unfoldable pub is_key_size : ℕ → Bool
is_key_size n = n == 2 || (n == 4 || (n == 8 || n == 16))

-- `bType`, as `HeapNodeType.from_wire` and the test for TREE take it.
unfoldable pub check_type : HeapNodeType → Result (Unit {0})
check_type tree = ok tt
check_type other = err format

unfoldable pub unpack_header : Bytes → Result HeapTreeHeader
unpack_header buf = do
  need 8 buf 0
  btype ← from_wire (u8 buf 0)
  check_type btype
  require (is_key_size (u8 buf 1)) format
  require (leb 1 (u8 buf 2) && leb (u8 buf 2) 32) format
  root ← heap_id (u32 buf 4)
  ok (record { key_size = u8 buf 1; entry_size = u8 buf 2; levels = u8 buf 3; root = root })

-- len(range(0, total, stride)), for the strides of a header, which are not 0: what is left over at
-- the end of a page counts as a record.
abbrev pub record_count : ℕ → ℕ → ℕ
record_count total stride = (total + stride - 1) / stride

-- The index records from record `i` on: the first key and the child.
unfoldable pub index_records : ℕ → Bytes → ℕ → ℕ → Result (List (Bytes × HeapId))
index_records key_size bytes zero i = ok []
index_records key_size bytes (suc count) i = do
  child ← unpack_from bytes (i * (key_size + 4) + key_size)
  rest ← index_records key_size bytes count (i + 1)
  ok ((slice bytes (i * (key_size + 4)) key_size, child) ∷ rest)

-- The leaf records from record `i` on: the key and the value.
unfoldable pub leaf_records : ℕ → ℕ → Bytes → ℕ → ℕ → List (Bytes × Bytes)
leaf_records key_size entry_size bytes zero i = []
leaf_records key_size entry_size bytes (suc count) i =
    (
      slice bytes (i * (key_size + entry_size)) key_size,
      slice bytes (i * (key_size + entry_size) + key_size) entry_size,
    )
    ∷ leaf_records key_size entry_size bytes count (i + 1)

-- The loop over the index records: the last child before a first key past the target.
unfoldable pub choose_child : ℕ → Option HeapId → List (Bytes × HeapId) → Option HeapId
choose_child target chosen [] = chosen
choose_child target chosen ((first_key, child) ∷ rest) =
    let next = choose_child target (some child) rest in
    if ltb target (from_bytes first_key) then chosen else next

-- `record_key == key`, on byte strings.
unfoldable pub same_bytes : Bytes → Bytes → Bool
same_bytes [] [] = true
same_bytes (a ∷ r) (b ∷ s) = a == b && same_bytes r s
same_bytes r s = false

unfoldable pub find_record : Bytes → List (Bytes × Bytes) → Option Bytes
unfolding same_bytes
find_record key [] = none
find_record key ((record_key, value) ∷ rest) =
    if same_bytes record_key key then some value else find_record key rest

-- A loop body over the records of one page.
unfoldable pub consume {ℓ κ} :
    {S : Type ℓ} {R : Type κ} → (S → R → Result S) → List R → S → Result S
consume step [] s = ok s
consume step (r ∷ rest) s = step s r >>= λ s'. consume step rest s'
