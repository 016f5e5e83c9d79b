-- ===== src/Store/Open.antt =====
-- `Store.__init__` of src/pypstreader/messaging/store.py.
use pypst_reader.Prelude.{List, Option, none, some}
use pypst_reader.Error.{Result, ok, err, stuck, ◌>>=◌}
use pypst_reader.Bytes.{Bytes}
use pypst_reader.Limits.{Limits}
use pypst_reader.Page.Entries.{NodeBTreeEntry}
use pypst_reader.BTree.Trees.{find_node}
use pypst_reader.Block.{BlockReader}
use pypst_reader.Header.{Header, read_header}
use pypst_reader.PropType.Value.{Codec}
use pypst_reader.PropContext
use pypst_reader.PropContext.{PropertyContext, all_records}
use pypst_reader.PropContext.Records.{PropertyRecord}
use pypst_reader.NamedProp.State.{NamedPropertyMap}

pub record Store : Type 0 where
  pub header : Header
  pub reader : BlockReader
  pub limits : Limits
  pub codepage : Option Codec
  pub properties : PropertyContext
  pub named : Option NamedPropertyMap

-- The reader of a file with this header.
unfoldable pub reader_of : Bytes → Limits → Header → BlockReader
reader_of file limits h = record {
  file = file;
  bbt = h.root.block_btree;
  crypt_method = h.crypt_method;
  limits = limits;
}

-- PropertyContext.from_node(self._reader, entry, limits, codepage=codepage)
unfoldable pub node_context :
    BlockReader → Limits → Option Codec → NodeBTreeEntry → Result PropertyContext
node_context reader limits codepage e =
    PropContext.context_of reader e.data_block e.sub_node (some limits) codepage

-- `self._properties.records`, which are read as the store is opened.
unfoldable pub with_records :
    Result (List PropertyRecord) × PropertyContext → Result PropertyContext
with_records (ok records, c) = ok c
with_records (err e, c) = err e
with_records (stuck, c) = stuck

-- Store(f, limits=…, codepage=…)
unfoldable pub store : Bytes → Limits → Option Codec → Result Store
unfolding reader_of node_context with_records
store file limits codepage = do
  h ← read_header file
  e ← find_node file limits h.root.node_btree (record { raw = 0x21 })
  c ← node_context (reader_of file limits h) limits codepage e
  c' ← with_records (all_records c)
  ok (record {
    header = h;
    reader = reader_of file limits h;
    limits = limits;
    codepage = codepage;
    properties = c';
    named = none;
  })
