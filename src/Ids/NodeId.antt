-- ===== src/Ids/NodeId.antt =====
-- `NodeIdType` and `NodeId` of src/pypstreader/ndb/ids.py.
use pypst_reader.Prelude.{
  ℕ, ◌+◌, ◌*◌, ◌/◌, ◌%◌, ◌^◌, Option, none, some, ltb, leb, ◌==◌, if◌then◌else◌,
}
use pypst_reader.Error.{Result, ok, err, format, ◌>>◌}
use pypst_reader.Bytes.{Bytes, u32, need, to_bytes}

pub data NodeIdType : Type 0 where
  hid internal normal_folder search_folder normal_message attachment : NodeIdType
  search_update_queue search_criteria_object assoc_message contents_table_index : NodeIdType
  receive_folder_table outgoing_queue_table hierarchy_table contents_table : NodeIdType
  assoc_contents_table search_contents_table attachment_table recipient_table : NodeIdType
  search_table_index ltp : NodeIdType

-- `int(id_type)`
unfoldable pub type_value : NodeIdType → ℕ
type_value hid = 0x00
type_value internal = 0x01
type_value normal_folder = 0x02
type_value search_folder = 0x03
type_value normal_message = 0x04
type_value attachment = 0x05
type_value search_update_queue = 0x06
type_value search_criteria_object = 0x07
type_value assoc_message = 0x08
type_value contents_table_index = 0x0A
type_value receive_folder_table = 0x0B
type_value outgoing_queue_table = 0x0C
type_value hierarchy_table = 0x0D
type_value contents_table = 0x0E
type_value assoc_contents_table = 0x0F
type_value search_contents_table = 0x10
type_value attachment_table = 0x11
type_value recipient_table = 0x12
type_value search_table_index = 0x13
type_value ltp = 0x1F

-- `NodeIdType(value)`; `none` is its ValueError.
unfoldable pub type_of_value : ℕ → Option NodeIdType
type_of_value v =
    if v == 0x00
    then some hid
    else if v == 0x01
    then some internal
    else if v == 0x02
    then some normal_folder
    else if v == 0x03
    then some search_folder
    else if v == 0x04
    then some normal_message
    else if v == 0x05
    then some attachment
    else if v == 0x06
    then some search_update_queue
    else if v == 0x07
    then some search_criteria_object
    else if v == 0x08
    then some assoc_message
    else if v == 0x0A
    then some contents_table_index
    else if v == 0x0B
    then some receive_folder_table
    else if v == 0x0C
    then some outgoing_queue_table
    else if v == 0x0D
    then some hierarchy_table
    else if v == 0x0E
    then some contents_table
    else if v == 0x0F
    then some assoc_contents_table
    else if v == 0x10
    then some search_contents_table
    else if v == 0x11
    then some attachment_table
    else if v == 0x12
    then some recipient_table
    else if v == 0x13
    then some search_table_index
    else if v == 0x1F
    then some ltp
    else none

pub record NodeId : Type 0 where
  pub raw : ℕ

-- NodeId(raw)
unfoldable pub node_id : ℕ → Result NodeId
node_id raw = if ltb raw (2 ^ 32) then ok (record { raw = raw }) else err format

abbrev pub max_node_index : ℕ
max_node_index = 0x7FFFFFF

unfoldable pub from_parts : NodeIdType → ℕ → Result NodeId
unfolding node_id type_value
from_parts id_type index =
    if leb index max_node_index then node_id (index * 2 ^ 5 + type_value id_type) else err format

unfoldable pub unpack_from : Bytes → ℕ → Result NodeId
unfolding need node_id
unpack_from buf offset = do need 4 buf offset; node_id (u32 buf offset)

unfoldable pub pack : NodeId → Bytes
pack n = to_bytes 4 n.raw

unfoldable pub some_type : Option NodeIdType → Result NodeIdType
some_type none = err format
some_type (some t) = ok t

unfoldable pub id_type : NodeId → Result NodeIdType
unfolding some_type type_of_value
id_type n = some_type (type_of_value (n.raw % 2 ^ 5))

unfoldable pub index : NodeId → ℕ
index n = n.raw / 2 ^ 5
