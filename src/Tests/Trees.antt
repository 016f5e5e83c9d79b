-- ===== src/Tests/Trees.antt =====
-- The theorems on pages and B-trees at the small store.
use pypst_reader.Prelude.{ℕ, ◌^◌, ◌≤◌, ◌≡◌, refl, List, [], ◌∷◌, length}
use pypst_reader.Error.{ok}
use pypst_reader.Error.Settles.{Settles}
use pypst_reader.Bytes.{Bytes, IsBytes, slice, u16, u64}
use pypst_reader.Limits.{default_limits}
use pypst_reader.Trace.{Ends, yielded}
use pypst_reader.Ids.BlockId.{BlockId, is_internal}
use pypst_reader.Page
use pypst_reader.Page.{BTreePage, PageEntries}
use pypst_reader.Page.Entries.{BlockBTreeEntry, PageType}
use pypst_reader.Page.Settles.{unpack_block_entry-Settles}
use pypst_reader.Page.Shape.{HasShape, parse-HasShape}
use pypst_reader.BTree.{find_key, bisect_right, pages}
use pypst_reader.BTree.Trees.{block_kind, leaf_entries}
use pypst_reader.BTree.Cache.{find_key_cached, IsCoherent, find_key_cached-find_key}
use pypst_reader.BTree.Bounded.{find_key-Settles}
use pypst_reader.BTree.Walk.{pages_bounded, leaf_entries_bounded}
use pypst_reader.BTree.Lookup.{InTree, find_key-InTree}
use pypst_reader.Tests.Data.{store, store_root}

abbrev hello_entry : BlockBTreeEntry
hello_entry = record {
  block = record { block = record { raw = 8 }; index = record { value = 512 } };
  size = 5;
  ref_count = 2;
}

abbrev subnode_entry : BlockBTreeEntry
subnode_entry = record {
  block = record { block = record { raw = 10 }; index = record { value = 576 } };
  size = 32;
  ref_count = 2;
}

abbrev page : BTreePage BlockBTreeEntry
page = record {
  level = 0;
  max_entries = 20;
  entry_size = 24;
  entries = PageEntries.leaf (hello_entry ∷ subnode_entry ∷ []);
  trailer = record {
    page_type = PageType.bbt;
    signature = 7;
    crc = 1220078168;
    block_id = record { raw = 7 };
  };
}

abbrev page_bytes : Bytes
page_bytes = slice store 0 512

parse_page : Page.parse block_kind page_bytes ≡ ok page
unfolding pypst_reader.Bytes.field pypst_reader.Bytes.from_bytes pypst_reader.Bytes.need
    pypst_reader.Bytes.slice pypst_reader.Crc.compute_crc pypst_reader.Crc.compute_sig
    pypst_reader.Crc.crc_register pypst_reader.Crc.zlib_crc32 pypst_reader.Ids.BlockId.block_id
    pypst_reader.Ids.BlockId.byte_index pypst_reader.Ids.BlockId.page_id
    pypst_reader.Page.Entries.unpack_block_entry pypst_reader.Page.Entries.unpack_intermediate
    pypst_reader.Page.check_fields pypst_reader.Page.check_trailer pypst_reader.Page.from_byte
    pypst_reader.Page.is_signed pypst_reader.Page.page_entries pypst_reader.Page.parse
    pypst_reader.Page.same_type pypst_reader.Page.signature pypst_reader.Page.unpack_entries
    pypst_reader.Page.unpack_trailer pypst_reader.Page.verify
parse_page = refl

parse-HasShape_example : HasShape block_kind page_bytes page
parse-HasShape_example = parse-HasShape block_kind page_bytes page parse_page

find_hello : find_key block_kind store default_limits store_root 8 ≡ ok hello_entry
unfolding pypst_reader.BTree.bisect pypst_reader.BTree.bisect_right
    pypst_reader.BTree.check_intermediate pypst_reader.BTree.child pypst_reader.BTree.child_at
    pypst_reader.BTree.choose pypst_reader.BTree.find_from pypst_reader.BTree.find_key
    pypst_reader.BTree.find_leaf pypst_reader.BTree.keys_fit pypst_reader.BTree.read
    pypst_reader.BTree.read_page pypst_reader.BTree.search_page pypst_reader.Bytes.field
    pypst_reader.Bytes.from_bytes pypst_reader.Bytes.need pypst_reader.Bytes.slice
    pypst_reader.Crc.compute_crc pypst_reader.Crc.compute_sig pypst_reader.Crc.crc_register
    pypst_reader.Crc.zlib_crc32 pypst_reader.Ids.BlockId.block_id
    pypst_reader.Ids.BlockId.byte_index pypst_reader.Ids.BlockId.page_id
    pypst_reader.Ids.BlockId.search_key pypst_reader.Limits.add pypst_reader.Limits.check_depth
    pypst_reader.Limits.contains pypst_reader.Limits.visited_set
    pypst_reader.Page.Entries.block_entry_key pypst_reader.Page.Entries.unpack_block_entry
    pypst_reader.Page.Entries.unpack_intermediate pypst_reader.Page.check_fields
    pypst_reader.Page.check_trailer pypst_reader.Page.from_byte pypst_reader.Page.is_signed
    pypst_reader.Page.page_entries pypst_reader.Page.parse pypst_reader.Page.same_type
    pypst_reader.Page.signature pypst_reader.Page.unpack_entries pypst_reader.Page.unpack_trailer
    pypst_reader.Page.verify
find_hello = refl

find_key-InTree_example :
    InTree block_kind unpack_block_entry-Settles store default_limits store_root hello_entry
    × (block_kind.key hello_entry ≡ 8)
find_key-InTree_example =
    find_key-InTree block_kind unpack_block_entry-Settles store default_limits store_root 8
      hello_entry find_hello

find_key-Settles_example : Settles (find_key block_kind store default_limits store_root 8)
find_key-Settles_example =
    find_key-Settles block_kind unpack_block_entry-Settles store default_limits store_root 8

find_key_cached-find_key_example :
    ((find_key_cached block_kind store default_limits store_root 8 []).0
      ≡ find_key block_kind store default_limits store_root 8)
    × IsCoherent block_kind store default_limits
        (find_key_cached block_kind store default_limits store_root 8 []).1
find_key_cached-find_key_example =
    find_key_cached-find_key block_kind store default_limits store_root 8 [] tt

pages_bounded_example :
    Ends (pages block_kind store default_limits store_root)
    × (length (yielded (pages block_kind store default_limits store_root)) ≤ 2 ^ 27)
pages_bounded_example =
    pages_bounded block_kind unpack_block_entry-Settles store default_limits store_root

leaf_entries_bounded_example :
    Ends (leaf_entries block_kind store default_limits store_root)
    × (length (yielded (leaf_entries block_kind store default_limits store_root)) ≤ 2 ^ 27)
leaf_entries_bounded_example =
    leaf_entries_bounded block_kind unpack_block_entry-Settles store default_limits store_root

abbrev three_keys : List ℕ
three_keys = 4 ∷ 8 ∷ 12 ∷ []
