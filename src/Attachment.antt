-- ===== src/Attachment.antt =====
-- src/pypstreader/messaging/attachment.py: an attachment of a message, and where its content is.
--
-- An attachment is its state, which an operation takes and returns. Of the message that owns it, an
-- attachment uses the store, the sub-nodes and the depth of nesting. The message that an attachment
-- carries is not opened here: `embedded_message` ends where the source calls `Message`.
pub mod Content
use pypst_reader.Prelude.{
  ℕ, ◌+◌, Bool, true, false, List, [], ◌∷◌, if◌then◌else◌, Option, none, some, ◌==◌,
}
use pypst_reader.Error.{Result, ok, err, stuck, format, unsupported, not_found}
use pypst_reader.Bytes.{Bytes}
use pypst_reader.Limits.{check_depth}
use pypst_reader.Ids.NodeId.{NodeId, NodeIdType, type_value, id_type}
use pypst_reader.Block.{SubNodeLeafEntry}
use pypst_reader.Block.Walks
use pypst_reader.Block.Walks.{read_subnode_tree, read_data}
use pypst_reader.PropType.Value.{PropValue, Scalar, Text, ℤ, pos, ObjectRef}
use pypst_reader.PropContext
use pypst_reader.PropContext.{PropertyContext, all_records}
use pypst_reader.PropContext.Records.{PropertyRecord, find_record, is_null}
use pypst_reader.NamedProp.Streams.{as_bytes}
use pypst_reader.Store.Open.{Store}
use pypst_reader.Store.{as_text}
use pypst_reader.Folder.{as_int}

pub data AttachMethod : Type 0 where
  no_content by_value by_reference by_ref_resolve by_ref_only embedded ole by_web_reference :
      AttachMethod

unfoldable pub from_wire : ℤ → Result AttachMethod
from_wire (pos v) =
    if v == 0
    then ok no_content
    else if v == 1
    then ok by_value
    else if v == 2
    then ok by_reference
    else if v == 3
    then ok by_ref_resolve
    else if v == 4
    then ok by_ref_only
    else if v == 5
    then ok embedded
    else if v == 6
    then ok ole
    else if v == 7
    then ok by_web_reference
    else err unsupported
from_wire v = err unsupported

-- What an attachment uses of its message.
pub record Owner : Type 0 where
  pub store : Store
  pub sub_nodes : List SubNodeLeafEntry
  pub depth : ℕ

pub record Attachment : Type 0 where
  pub owner : Owner
  pub node : NodeId
  pub entry : SubNodeLeafEntry
  pub properties : PropertyContext
  pub sub_nodes : Option (List SubNodeLeafEntry)

-- `message.sub_node_entry(node)` or `self.sub_node_entry(node)`
unfoldable pub entry_in : List SubNodeLeafEntry → NodeId → Result SubNodeLeafEntry
entry_in nodes node = elim (Walks.get nodes node) [ none ↦ err not_found | some e ↦ ok e ]

opened : Owner → NodeId → SubNodeLeafEntry → Result PropertyContext → Result Attachment
opened owner node e (ok c) =
    ok (record { owner = owner; node = node; entry = e; properties = c; sub_nodes = none })
opened owner node e (err x) = err x
opened owner node e stuck = stuck

at_entry : Owner → NodeId → Result SubNodeLeafEntry → Result Attachment
at_entry owner node (ok e) = opened owner node e (
    PropContext.context_of owner.store.reader e.data_block e.sub_node (some owner.store.limits)
      owner.store.codepage)
at_entry owner node (err x) = err x
at_entry owner node stuck = stuck

-- Attachment(message, node)
unfoldable pub attachment : Owner → NodeId → Result Attachment
unfolding entry_in opened at_entry
attachment owner node = elim (id_type node) [
  | ok t ↦
      if type_value t == type_value NodeIdType.attachment
      then at_entry owner node (entry_in owner.sub_nodes node)
      else err format
  | err x ↦ err x
  | stuck ↦ stuck
]

abbrev pub Action {ℓ} : Type ℓ → Type ℓ
Action A = Attachment → Result A × Attachment

module _ {ℓ} {A : Type ℓ} where
  abbrev pub pure : A → Action A
  pure x a = (ok x, a)

  abbrev pub lift : Result A → Action A
  lift r a = (r, a)

  -- An operation of the attachment's property context.
  abbrev pub in_context : (PropertyContext → Result A × PropertyContext) → Action A
  in_context g a = let p = g a.properties in (p.0, record a { properties = p.1 })

abbrev pub continue {ℓ κ} : {A : Type ℓ} {B : Type κ} → Result A → (A → Action B) → Action B
continue (ok x) g a = g x a
continue (err e) g a = (err e, a)
continue stuck g a = (stuck, a)

infixl 5 ◌>>=◌ ◌>>◌
abbrev pub ◌>>=◌ {ℓ κ} : {A : Type ℓ} {B : Type κ} → Action A → (A → Action B) → Action B
◌>>=◌ p g a = let q = p a in continue q.0 g q.1

abbrev pub ◌>>◌ {ℓ} : {B : Type ℓ} → Action (Unit {0}) → Action B → Action B
p >> q = p >>= λ _. q

unfoldable pub tree_of : Owner → SubNodeLeafEntry → Result (List SubNodeLeafEntry)
tree_of owner e = elim e.sub_node [
  | none ↦ ok []
  | some sub ↦ read_subnode_tree owner.store.reader sub
]

unfoldable pub keep_sub_nodes : List SubNodeLeafEntry → Action (List SubNodeLeafEntry)
keep_sub_nodes nodes a = (ok nodes, record a { sub_nodes = some nodes })

unfoldable pub cached_sub_nodes : Option (List SubNodeLeafEntry) → Action (List SubNodeLeafEntry)
unfolding tree_of keep_sub_nodes
cached_sub_nodes (some nodes) a = (ok nodes, a)
cached_sub_nodes none a = (do nodes ← lift (tree_of a.owner a.entry); keep_sub_nodes nodes) a

-- The property `sub_nodes`
unfoldable pub all_sub_nodes : Action (List SubNodeLeafEntry)
unfolding cached_sub_nodes
all_sub_nodes a = cached_sub_nodes a.sub_nodes a

unfoldable pub sub_node_entry : NodeId → Action SubNodeLeafEntry
unfolding all_sub_nodes entry_in
sub_node_entry node = do nodes ← all_sub_nodes; lift (entry_in nodes node)

unfoldable pub get : ℕ → Action PropValue
get i = in_context (λ c. PropContext.get c i)

unfoldable pub not_null : Option PropertyRecord → Option PropertyRecord
unfolding is_null
not_null none = none
not_null (some r) = if is_null r then none else some r

-- `_record`
unfoldable pub record_of : ℕ → Action (Option PropertyRecord)
unfolding not_null
record_of i = do records ← in_context all_records; pure (not_null (find_record i records))

unfoldable pub value_of : PropertyRecord → Action PropValue
value_of r = in_context (λ c. PropContext.read c r)

unfoldable pub text_of : Option PropertyRecord → Action (Option Text)
unfolding value_of as_text
text_of none = pure none
text_of (some r) = do v ← value_of r; t ← lift (as_text v); pure (some t)

-- `_text`
unfoldable pub text : ℕ → Action (Option Text)
unfolding record_of text_of
text i = do r ← record_of i; text_of r

unfoldable pub int_of : Option PropertyRecord → Action ℤ
unfolding value_of as_int
int_of none = lift (err format)
int_of (some r) = do v ← value_of r; lift (as_int v)

-- `_int32`
unfoldable pub int32 : ℕ → Action ℤ
unfolding record_of int_of
int32 i = do r ← record_of i; int_of r
