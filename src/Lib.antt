-- ===== src/Lib.antt =====
-- pypstreader, a reader of Outlook PST files: the layers from the bytes of a file up to the
-- folders of a store and the attachments of a message.
--
-- The program reads a file bottom up. The header (read once) gives the roots of two B-trees of
-- 512-byte pages. The node B-tree maps a node id to the ids of its data block and of its subnode
-- block; the block B-tree maps a block id to a place in the file. A block reader resolves block
-- ids through the block B-tree, checks each block's trailer and CRC, undoes its encoding, and
-- assembles a node's data from a tree of blocks, or its subnodes from another. A heap sits on the
-- data blocks of one node, and hands out items by heap id; a B-tree on the heap maps keys to
-- small values. A property context reads such a tree as the typed properties of a node. A table
-- context reads a schema, a tree of row ids and a matrix of rows. The named property map is a
-- property context that says what the property ids from 0x8000 on mean. A store is an open file
-- with its own properties; a folder is a property context with up to three tables, of which one
-- names its subfolders; an attachment is a property context among the sub-nodes of a message.
-- Every walk over the file runs under the ceilings of `Limits` and a set of the keys it has
-- visited.
--
-- Parts, and the files that model them:
--   Error: src/pypstreader/errors.py; `Result` is a value or an exception.
--   Limits: src/pypstreader/limits.py: `check_depth`, `check_count`, `check_allocation`,
--     `VisitedSet`.
--   Bytes: `bytes`, slices and little-endian fields, and `_unpack` of src/pypstreader/ndb/ids.py.
--   Trace: generators.
--   Ids: src/pypstreader/ndb/ids.py: `NodeId`, `BlockId`, `PageId`, `ByteIndex`, `BlockRef`,
--     `PageRef`.
--   Encode: src/pypstreader/encode.py and _tables.py: the permutative and the cyclic encoding.
--   Crc: src/pypstreader/crc.py and block_sig.py.
--   Rtf: src/pypstreader/rtf.py and _rtf_dictionary.py; Rtf/Window has the decoder that it is
--     compared with, which copies from the whole history in place of a ring of 4096 bytes.
--   Root, Header: src/pypstreader/ndb/root.py and header.py: `Root.unpack_from`, `Header.parse`.
--   Page: src/pypstreader/ndb/page.py: `PageTrailer`, the entries, `BTreePage.parse`;
--     Page/DensityList has `DensityListPage.parse`.
--   BTree: src/pypstreader/ndb/btree.py: `_read`, `_child`, `_find`, `pages` and `_leaf_entries`;
--     BTree/Cache has `_find` with the cache of intermediate pages.
--   Block: src/pypstreader/ndb/block.py: `block_size`, trailers, `read_data_tree`,
--     `read_subnode_block`; Block/Walks has `read_data_blocks`, `read_data` and
--     `read_subnode_tree`.
--   Heap: src/pypstreader/ltp/heap.py: `HeapId`, `HeapNodeHeader`, `_parse_page_map`, and the
--     operations of `HeapNode` as actions on its state.
--   HeapTree: src/pypstreader/ltp/tree.py: `HeapTreeHeader.unpack_from`, `HeapTree.__init__`,
--     `_page` and `find`; HeapTree/Entries has `__iter__` and `entries`, as a fold.
--   PropType: src/pypstreader/ltp/prop_type.py: `PropType`, the times, and `decode` with its
--     helpers.
--   PropContext: src/pypstreader/ltp/prop_context.py: `PropertyRecord` and `PropertyContext`.
--   TableContext: src/pypstreader/ltp/table_context.py: `TableContextInfo`, `CellRecord`,
--     `TableRow`, and `TableContext` as actions on its state.
--   NamedProp: src/pypstreader/messaging/named_prop.py: `NameIdEntry`, and `NamedPropertyMap` as
--     actions on its state.
--   Store: src/pypstreader/messaging/store.py: `EntryId`, and `Store` as actions on its state;
--     the file is its bytes.
--   Folder: src/pypstreader/messaging/folder.py: `Folder` as actions on its state; Folder/Walk
--     has `walk`, as a generator.
--   Attachment: src/pypstreader/messaging/attachment.py: `AttachMethod`, and `Attachment` as
--     actions on its state.
--   Prelude, Tests: shared lists and numbers; small stores and runs on them.
--
-- State and errors. A file is a list of bytes that nothing changes. A call that raises returns
-- `err` of its kind (`PstError`); the texts of errors are not modelled. `stuck` is no result of
-- the program: it says that the model's fuel ran out. A generator is a `Trace`: the values it
-- yields, and how it ends. The caches of a B-tree, of a heap, of a property or table context and
-- of a named property map are passed on explicitly, so that an error keeps what was cached before
-- it.
--
-- Fuel. A lookup gets two more than the depth limit, a walk over pages or subnodes two more than
-- `max_items`, a walk over folders two more than `max_folders`, and a walk over data blocks two
-- more than `max_items` and `max_allocation` together: each round uses up a depth, a fresh key,
-- or a byte. `bisect` gets the length of its interval. The reference decoder of RTF payloads gets
-- a bound on its output.
--
-- Integers. Numbers are naturals; the source's masks and shifts are written as remainders,
-- quotients and powers of two. zlib's CRC-32 and Python's `struct` and `bisect` are written out
-- from their documentation, and so is UTF-16. A float is its bit pattern, a text the list of its
-- code points. A code page of `codecs.lookup` and the lossy decoder of names are parameters.
--
-- Not modelled. Messages (src/pypstreader/messaging/message.py, but for `check_embedded_depth`),
-- the exporters (src/pypstreader/mbox.py and eml.py), the command line and the debugging output,
-- which fetch and render what these layers read; the texts that ids and enumerations print as.
pub mod Prelude
pub mod Error
pub mod Bytes
pub mod Limits
pub mod TableContext
pub mod NamedProp
pub mod Store
pub mod Folder
pub mod Attachment
pub mod Trace
pub mod Ids
pub mod Encode
pub mod Crc
pub mod Rtf
pub mod Root
pub mod Header
pub mod Page
pub mod BTree
pub mod Block
pub mod Heap
pub mod HeapTree
pub mod PropType
pub mod PropContext
pub mod Tests
