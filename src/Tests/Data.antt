-- ===== src/Tests/Data.antt =====
-- Small stores: what the files of the format hold, byte by byte.
use pypst_reader.Prelude.{ℕ, [], ◌∷◌, ◌++◌, replicate, none}
use pypst_reader.Bytes.{Bytes}
use pypst_reader.Encode.{CryptMethod}
use pypst_reader.Limits.{default_limits}
use pypst_reader.Ids.Refs.{PageRef}
use pypst_reader.Block.{BlockReader}
use pypst_reader.Heap.Ids.{HeapNodeType}
use pypst_reader.Heap.State.{HeapNode}

-- A file of a block B-tree page, a data block that holds "hello" (id 8, at 512) and a subnode
-- block of one entry (id 10, at 576).
abbrev pub store : Bytes
store =
    (8 ∷ [])
    ++ (replicate 8 0
        ++ ((2 ∷ 0 ∷ 0 ∷ 0 ∷ 0 ∷ 0 ∷ 0 ∷ 5 ∷ 0 ∷ 2 ∷ 0 ∷ 0 ∷ 0 ∷ 0 ∷ 0 ∷ 10 ∷ 0 ∷ 0 ∷ 0 ∷ 0 ∷ 0 ∷ 0
              ∷ 0 ∷ 64 ∷ 2 ∷ 0 ∷ 0 ∷ 0 ∷ 0 ∷ 0 ∷ 0 ∷ 32 ∷ 0 ∷ 2 ∷ [])
            ++ (replicate 445 0
                ++ ((2 ∷ 20 ∷ 24 ∷ 0 ∷ 0 ∷ 0 ∷ 0 ∷ 0 ∷ 128 ∷ 128 ∷ 7 ∷ 0 ∷ 88 ∷ 234 ∷ 184 ∷ 72 ∷ 7
                      ∷ 0 ∷ 0 ∷ 0 ∷ 0 ∷ 0 ∷ 0 ∷ 0 ∷ 104 ∷ 101 ∷ 108 ∷ 108 ∷ 111 ∷ [])
                    ++ (replicate 43 0
                        ++ ((5 ∷ 0 ∷ 8 ∷ 2 ∷ 155 ∷ 81 ∷ 50 ∷ 240 ∷ 8 ∷ 0 ∷ 0 ∷ 0 ∷ 0 ∷ 0 ∷ 0 ∷ 0 ∷ 2
                              ∷ 0 ∷ 1 ∷ 0 ∷ 0 ∷ 0 ∷ 0 ∷ 0 ∷ 113 ∷ 6 ∷ 0 ∷ 0 ∷ 0 ∷ 0 ∷ 0 ∷ 0 ∷ 8
                              ∷ [])
                            ++ (replicate 31 0
                                ++ ((32 ∷ 0 ∷ 74 ∷ 2 ∷ 253 ∷ 29 ∷ 56 ∷ 188 ∷ 10 ∷ 0 ∷ 0 ∷ 0 ∷ 0 ∷ 0
                                    ∷ 0 ∷ 0 ∷ [])))))))))

abbrev pub store_root : PageRef
store_root = record { page = record { raw = 7 }; index = record { value = 0 } }

abbrev pub store_reader : BlockReader
store_reader = record {
  file = store;
  bbt = store_root;
  crypt_method = CryptMethod.none;
  limits = default_limits;
}

-- A Unicode header with permutative encoding.
abbrev pub header_bytes : Bytes
header_bytes =
    (33 ∷ 66 ∷ 68 ∷ 78 ∷ 249 ∷ 36 ∷ 81 ∷ 62 ∷ 83 ∷ 77 ∷ 23 ∷ 0 ∷ 19 ∷ 0 ∷ 1 ∷ 1 ∷ [])
    ++ (replicate 16 0
        ++ ((9 ∷ 0 ∷ 0 ∷ 0 ∷ 0 ∷ 0 ∷ 0 ∷ 0 ∷ 5 ∷ [])
            ++ (replicate 143 0
                ++ ((128 ∷ 2 ∷ [])
                    ++ (replicate 30 0
                        ++ ((1 ∷ [])
                            ++ (replicate 15 0
                                ++ ((7 ∷ [])
                                    ++ (replicate 15 0
                                        ++ ((2 ∷ [])
                                            ++ (replicate 263 0
                                                ++ ((128 ∷ 1 ∷ 0 ∷ 0 ∷ 44 ∷ 0 ∷ 0 ∷ 0 ∷ 0 ∷ 0 ∷ 0
                                                      ∷ 0 ∷ 51 ∷ 195 ∷ 41 ∷ 129 ∷ [])
                                                    ++ (replicate 36 0)))))))))))))

-- A heap block of one item, "abcd".
abbrev pub heap_block : Bytes
heap_block =
    (16 ∷ 0 ∷ 236 ∷ 188 ∷ 32 ∷ 0 ∷ 0 ∷ 0 ∷ 0 ∷ 0 ∷ 0 ∷ 0 ∷ 97 ∷ 98 ∷ 99 ∷ 100 ∷ 1 ∷ 0 ∷ 0 ∷ 0 ∷ 12
      ∷ 0 ∷ 16 ∷ 0 ∷ [])

abbrev pub small_heap : HeapNode
small_heap = record {
  blocks = heap_block ∷ [];
  subnodes = [];
  reader = none;
  limits = default_limits;
  header = record {
    page_map_offset = 16;
    client_signature = HeapNodeType.properties;
    user_root = record { raw = 0x20 };
    fill_levels = [];
  };
  page_maps = [];
  items_seen = 0;
}

-- A heap block of a tree header and one leaf page: key 1, and six bytes.
abbrev pub tree_block : Bytes
tree_block =
    28 ∷ 0 ∷ 236 ∷ 188 ∷ 32 ∷ 0 ∷ 0 ∷ 0 ∷ 0 ∷ 0 ∷ 0 ∷ 0 ∷ 181 ∷ 2 ∷ 6 ∷ 0 ∷ 64 ∷ 0 ∷ 0 ∷ 0 ∷ 1 ∷ 0
    ∷ 10 ∷ 11 ∷ 12 ∷ 13 ∷ 14 ∷ 15 ∷ 2 ∷ 0 ∷ 0 ∷ 0 ∷ 12 ∷ 0 ∷ 20 ∷ 0 ∷ 28 ∷ 0 ∷ []

abbrev pub tree_heap : HeapNode
tree_heap = record {
  blocks = tree_block ∷ [];
  subnodes = [];
  reader = none;
  limits = default_limits;
  header = record {
    page_map_offset = 28;
    client_signature = HeapNodeType.properties;
    user_root = record { raw = 0x20 };
    fill_levels = [];
  };
  page_maps = [];
  items_seen = 0;
}

-- A heap block of the header of a tree and one leaf page: property 1, the long 3.
abbrev pub properties_block : Bytes
properties_block =
    28 ∷ 0 ∷ 236 ∷ 188 ∷ 32 ∷ 0 ∷ 0 ∷ 0 ∷ 0 ∷ 0 ∷ 0 ∷ 0 ∷ 181 ∷ 2 ∷ 6 ∷ 0 ∷ 64 ∷ 0 ∷ 0 ∷ 0 ∷ 1 ∷ 0
    ∷ 3 ∷ 0 ∷ 3 ∷ 0 ∷ 0 ∷ 0 ∷ 2 ∷ 0 ∷ 0 ∷ 0 ∷ 12 ∷ 0 ∷ 20 ∷ 0 ∷ 28 ∷ 0 ∷ []

-- A heap block of a table: its TCINFO with two columns, the header and the page of the row index
-- (row 7, the first), and a matrix of one row and a byte that is left over.
abbrev pub table_block : Bytes
table_block =
    76 ∷ 0 ∷ 236 ∷ 124 ∷ 32 ∷ 0 ∷ 0 ∷ 0 ∷ 0 ∷ 0 ∷ 0 ∷ 0 ∷ 124 ∷ 2 ∷ 8 ∷ 0 ∷ 8 ∷ 0 ∷ 8 ∷ 0 ∷ 9 ∷ 0
    ∷ 64 ∷ 0 ∷ 0 ∷ 0 ∷ 128 ∷ 0 ∷ 0 ∷ 0 ∷ 0 ∷ 0 ∷ 0 ∷ 0 ∷ 3 ∷ 0 ∷ 242 ∷ 103 ∷ 0 ∷ 0 ∷ 4 ∷ 0 ∷ 3 ∷ 0
    ∷ 243 ∷ 103 ∷ 4 ∷ 0 ∷ 4 ∷ 1 ∷ 181 ∷ 4 ∷ 4 ∷ 0 ∷ 96 ∷ 0 ∷ 0 ∷ 0 ∷ 7 ∷ 0 ∷ 0 ∷ 0 ∷ 0 ∷ 0 ∷ 0 ∷ 0
    ∷ 7 ∷ 0 ∷ 0 ∷ 0 ∷ 1 ∷ 0 ∷ 0 ∷ 0 ∷ 192 ∷ 0 ∷ 4 ∷ 0 ∷ 0 ∷ 0 ∷ 12 ∷ 0 ∷ 50 ∷ 0 ∷ 58 ∷ 0 ∷ 66 ∷ 0
    ∷ 76 ∷ 0 ∷ []

abbrev pub heap_over : HeapNodeType → ℕ → Bytes → HeapNode
heap_over client offset block = record {
  blocks = block ∷ [];
  subnodes = [];
  reader = none;
  limits = default_limits;
  header = record {
    page_map_offset = offset;
    client_signature = client;
    user_root = record { raw = 0x20 };
    fill_levels = [];
  };
  page_maps = [];
  items_seen = 0;
}
