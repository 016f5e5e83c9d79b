-- ===== src/Page/Settles.antt =====
-- Reading a page ends: none of its parts runs on fuel.
use pypst_reader.Prelude.{ℕ, zero, suc, ◌+◌, []}
use pypst_reader.Error.{Result}
use pypst_reader.Error.Settles.{Settles, settle_rules, by_ok, by_err}
use pypst_reader.Bytes.{Bytes, need}
use pypst_reader.Ids.NodeId.{node_id}
use pypst_reader.Ids.BlockId.{block_id, page_id, byte_index}
use pypst_reader.Page.Entries.{
  unpack_intermediate, unpack_block_entry, unpack_node_entry, parent_of,
}
use pypst_reader.Page.{
  PageTrailer, from_byte, unpack_trailer, verify, LeafKind, unpack_entries, page_entries,
  check_fields, check_trailer, parse,
}

pub need-Settles : (size : ℕ) (buf : Bytes) (offset : ℕ) → Settles (need size buf offset)
unfolding need
need-Settles size buf offset = search settle_rules

pub block_id-Settles : (raw : ℕ) → Settles (block_id raw)
unfolding block_id
block_id-Settles raw = search settle_rules

pub page_id-Settles : (raw : ℕ) → Settles (page_id raw)
unfolding page_id
page_id-Settles raw = search settle_rules

pub byte_index-Settles : (raw : ℕ) → Settles (byte_index raw)
unfolding byte_index
byte_index-Settles raw = search settle_rules

pub node_id-Settles : (raw : ℕ) → Settles (node_id raw)
unfolding node_id
node_id-Settles raw = search settle_rules

pub ruleset field_rules = (
  settle_rules, need-Settles, block_id-Settles, page_id-Settles, byte_index-Settles,
  node_id-Settles,
)

pub unpack_intermediate-Settles :
    (buf : Bytes) (offset : ℕ) → Settles (unpack_intermediate buf offset)
unfolding unpack_intermediate
unpack_intermediate-Settles buf offset = search field_rules depth 9

pub unpack_block_entry-Settles :
    (buf : Bytes) (offset : ℕ) → Settles (unpack_block_entry buf offset)
unfolding unpack_block_entry
unpack_block_entry-Settles buf offset = search field_rules depth 9

parent_of-Settles : (raw : ℕ) → Settles (parent_of raw)
unfolding parent_of
parent_of-Settles raw = search field_rules depth 9

pub unpack_node_entry-Settles : (buf : Bytes) (offset : ℕ) → Settles (unpack_node_entry buf offset)
unfolding unpack_node_entry
unpack_node_entry-Settles buf offset = search (field_rules, parent_of-Settles) depth 12

from_byte-Settles : (v : ℕ) → Settles (from_byte v)
unfolding from_byte
from_byte-Settles v = search settle_rules depth 9

pub unpack_trailer-Settles : (buf : Bytes) (offset : ℕ) → Settles (unpack_trailer buf offset)
unfolding unpack_trailer
unpack_trailer-Settles buf offset = search (field_rules, from_byte-Settles) depth 9

verify-Settles : (t : PageTrailer) (buf : Bytes) → Settles (verify t buf)
unfolding verify
verify-Settles t buf = search settle_rules

pub unpack_entries-Settles {ℓ} :
    {E : Type ℓ} (unpack : Bytes → ℕ → Result E) (buf : Bytes) (stride count i : ℕ)
    → ((b : Bytes) (o : ℕ) → Settles (unpack b o))
    → Settles (unpack_entries unpack buf stride count i)
unfolding unpack_entries
unpack_entries-Settles unpack buf stride zero i h = by_ok []
unpack_entries-Settles unpack buf stride (suc count) i h =
    let rest = unpack_entries-Settles unpack buf stride count (i + 1) h in
    search (settle_rules, rest, h) depth 9

module _ {E : Type 0} (kind : LeafKind E)
    (unpack : (b : Bytes) (o : ℕ) → Settles (kind.unpack b o)) where
  page_entries-Settles :
      (buf : Bytes) (stride count level : ℕ) → Settles (page_entries kind buf stride count level)
  unfolding page_entries
  page_entries-Settles buf stride count zero =
      search (settle_rules, unpack_entries-Settles, unpack) depth 9
  page_entries-Settles buf stride count (suc level) =
      search (settle_rules, unpack_entries-Settles, unpack_intermediate-Settles) depth 9

  check_fields-Settles : (buf : Bytes) → Settles (check_fields kind buf)
  unfolding check_fields
  check_fields-Settles buf = search settle_rules depth 16

  check_trailer-Settles : (buf : Bytes) → Settles (check_trailer kind buf)
  unfolding check_trailer
  check_trailer-Settles buf = search (settle_rules, unpack_trailer-Settles, verify-Settles) depth 12

  pub parse-Settles : (buf : Bytes) → Settles (parse kind buf)
  unfolding parse
  parse-Settles buf =
      search (settle_rules, check_fields-Settles, check_trailer-Settles, page_entries-Settles) depth
        9
