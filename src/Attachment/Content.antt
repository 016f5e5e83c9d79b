-- ===== src/Attachment/Content.antt =====
-- The typed accessors of `Attachment` in src/pypstreader/messaging/attachment.py, and its content.
use pypst_reader.Prelude.{ℕ, ◌+◌, Option, none, some}
use pypst_reader.Error.{Result, ok, err, format}
use pypst_reader.Bytes.{Bytes}
use pypst_reader.Limits.{check_depth}
use pypst_reader.Block.{SubNodeLeafEntry}
use pypst_reader.Block.Walks.{read_data}
use pypst_reader.PropType.Value.{PropValue, Scalar, Text, ℤ, ObjectRef}
use pypst_reader.PropContext.Records.{PropertyRecord}
use pypst_reader.NamedProp.Streams.{as_bytes}
use pypst_reader.Attachment.{
  AttachMethod, from_wire, Action, pure, lift, ◌>>=◌, ◌>>◌, record_of, value_of, text, int32,
  sub_node_entry,
}

unfoldable pub method_value : Action ℤ
unfolding int32
method_value = int32 0x3705

unfoldable pub method : Action AttachMethod
unfolding method_value from_wire
method = do v ← method_value; lift (from_wire v)

unfoldable pub size : Action ℤ
unfolding int32
size = int32 0x0E20

unfoldable pub rendering_position : Action ℤ
unfolding int32
rendering_position = int32 0x370B

unfoldable pub filename : Action (Option Text)
unfolding text
filename = text 0x3704

unfoldable pub long_filename : Action (Option Text)
unfolding text
long_filename = text 0x3707

unfoldable pub pathname : Action (Option Text)
unfolding text
pathname = text 0x3710

unfoldable pub mime_tag : Action (Option Text)
unfolding text
mime_tag = text 0x370E

unfoldable pub content_id : Action (Option Text)
unfolding text
content_id = text 0x3712

unfoldable pub required_record : Option PropertyRecord → Result PropertyRecord
required_record none = err format
required_record (some r) = ok r

-- `_data_record`
unfoldable pub data_record : Action PropertyRecord
unfolding record_of required_record
data_record = do r ← record_of 0x3701; lift (required_record r)

unfoldable pub as_object_ref : PropValue → Result ObjectRef
as_object_ref (PropValue.one (Scalar.object_ref o)) = ok o
as_object_ref v = err format

-- `_object_ref`
unfoldable pub object_ref : PropertyRecord → Action ObjectRef
unfolding value_of as_object_ref
object_ref r = do v ← value_of r; lift (as_object_ref v)

unfoldable pub read_stream : SubNodeLeafEntry → Action Bytes
read_stream e a = (read_data a.owner.store.reader e.data_block, a)

-- `data` by the method: the bytes of BY_VALUE and of OLE, and nothing for the others.
unfoldable pub data_by : AttachMethod → Action (Option Bytes)
unfolding data_record value_of as_bytes object_ref sub_node_entry read_stream
data_by AttachMethod.by_value = do
  r ← data_record
  v ← value_of r
  bytes ← lift (as_bytes v)
  pure (some bytes)
data_by AttachMethod.ole = do
  r ← data_record
  o ← object_ref r
  e ← sub_node_entry o.node
  bytes ← read_stream e
  pure (some bytes)
data_by m = pure none

-- `data`
unfoldable pub content : Action (Option Bytes)
unfolding method data_by
content = do m ← method; data_by m

-- `message.check_embedded_depth()`
unfoldable pub check_embedded_depth : Action (Unit {0})
check_embedded_depth a =
    (check_depth (a.owner.depth + 1) a.owner.store.limits.max_embedded_message_depth, a)

-- The reference to the message that is carried, its entry, and its depth.
abbrev pub Embedded : Type 0
Embedded = ObjectRef × (SubNodeLeafEntry × ℕ)

unfoldable pub with_depth : ObjectRef → SubNodeLeafEntry → Action (Option Embedded)
with_depth o e a = (ok (some (o, (e, a.owner.depth + 1))), a)

unfoldable pub embedded_by : AttachMethod → Action (Option Embedded)
unfolding data_record object_ref check_embedded_depth sub_node_entry with_depth
embedded_by AttachMethod.embedded = do
  r ← data_record
  o ← object_ref r
  check_embedded_depth
  e ← sub_node_entry o.node
  with_depth o e
embedded_by m = pure none

-- `embedded_message`, as far as the call of `Message`.
unfoldable pub embedded_message : Action (Option Embedded)
unfolding method embedded_by
embedded_message = do m ← method; embedded_by m
