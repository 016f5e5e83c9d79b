-- ===== src/Folder.antt =====
-- src/pypstreader/messaging/folder.py: a folder, its three tables, and the walk over the folders
-- below it.
--
-- A folder is its state, which an operation takes and returns: its property context and the tables
-- that it has opened, each with what that table has cached. The store is only read. The texts that
-- a folder prints as and the messages of a folder are not modelled.
pub mod Ids
pub mod Walk
pub mod Visits
pub mod Fuel
use pypst_reader.Prelude.{
  ℕ, Bool, true, false, ◌||◌, List, [], ◌∷◌, ◌++◌, ◌==◌, if◌then◌else◌, Option, none, some,
}
use pypst_reader.Error.{
  PstError, Result, ok, err, stuck, format, limit, unsupported, not_found, escaped,
}
use pypst_reader.Limits.{Limits}
use pypst_reader.Ids.NodeId
use pypst_reader.Ids.NodeId.{NodeId, NodeIdType, type_value, id_type, from_parts}
use pypst_reader.Page.Entries.{NodeBTreeEntry}
use pypst_reader.PropType.Value.{PropValue, Scalar, Text, ℤ}
use pypst_reader.PropContext
use pypst_reader.PropContext.{PropertyContext, all_records}
use pypst_reader.PropContext.Records.{PropertyRecord, find_record}
use pypst_reader.TableContext
use pypst_reader.TableContext.State.{TableContext}
use pypst_reader.Store.Open.{Store, node_context}
use pypst_reader.Store.{find, matches_record_key, as_text}
use pypst_reader.Store.EntryId.{EntryId}
use pypst_reader.Folder.Ids.{table_ids}

pub record Folder : Type 0 where
  pub node : NodeId
  pub properties : PropertyContext
  pub tables : List (NodeIdType × Option TableContext)

-- `node_type in FOLDER_NODE_TYPES`
unfoldable pub is_folder : NodeIdType → Bool
is_folder NodeIdType.normal_folder = true
is_folder NodeIdType.search_folder = true
is_folder t = false

opened : NodeId → Result PropertyContext → Result Folder
opened node (ok c) = ok (record { node = node; properties = c; tables = [] })
opened node (err e) = err e
opened node stuck = stuck

folder_at : Store → NodeId → Result NodeBTreeEntry → Result Folder
folder_at s node (ok e) = opened node (node_context s.reader s.limits s.codepage e)
folder_at s node (err e) = err e
folder_at s node stuck = stuck

folder_of_type : Store → NodeId → Result NodeIdType → Result Folder
folder_of_type s node (ok t) = if is_folder t then folder_at s node (find s node) else err format
folder_of_type s node (err e) = err e
folder_of_type s node stuck = stuck

-- Folder(store, node)
unfoldable pub folder : Store → NodeId → Result Folder
unfolding is_folder opened folder_at folder_of_type find node_context
folder s node = folder_of_type s node (id_type node)

in_store : NodeId → Result Bool × Store → Result Folder × Store
in_store node (ok true, s) = (folder s node, s)
in_store node (ok false, s) = (err format, s)
in_store node (err e, s) = (err e, s)
in_store node (stuck, s) = (stuck, s)

-- Folder.open(store, entry) with an EntryID
unfoldable pub open_entry : EntryId → Store → Result Folder × Store
unfolding in_store folder matches_record_key
open_entry e s = in_store e.node (matches_record_key e s)

-- 0 for the root folder, 2 for a search folder, 1 for the others.
unfoldable pub folder_type : Folder → Result ℕ
folder_type f = if f.node.raw == 0x122 then ok 0 else elim (id_type f.node) [
  | ok t ↦ ok (if type_value t == 0x03 then 2 else 1)
  | err e ↦ err e
  | stuck ↦ stuck
]

abbrev pub Action {ℓ} : Type ℓ → Type ℓ
Action A = Folder → Result A × Folder

module _ {ℓ} {A : Type ℓ} where
  abbrev pub pure : A → Action A
  pure a f = (ok a, f)

  abbrev pub lift : Result A → Action A
  lift r f = (r, f)

  -- An operation of the folder's property context.
  abbrev pub in_context : (PropertyContext → Result A × PropertyContext) → Action A
  in_context g f = let p = g f.properties in (p.0, record f { properties = p.1 })

abbrev pub continue {ℓ κ} : {A : Type ℓ} {B : Type κ} → Result A → (A → Action B) → Action B
continue (ok a) g f = g a f
continue (err e) g f = (err e, f)
continue stuck g f = (stuck, f)

infixl 5 ◌>>=◌ ◌>>◌
abbrev pub ◌>>=◌ {ℓ κ} : {A : Type ℓ} {B : Type κ} → Action A → (A → Action B) → Action B
◌>>=◌ p g f = let q = p f in continue q.0 g q.1

abbrev pub ◌>>◌ {ℓ} : {B : Type ℓ} → Action (Unit {0}) → Action B → Action B
p >> q = p >>= λ _. q

unfoldable pub get : ℕ → Action PropValue
get i = in_context (λ c. PropContext.get c i)

unfoldable pub present : Option PropertyRecord → Result PropertyRecord
present none = err format
present (some r) = ok r

-- The value of a record that must be there: `_record`, then `read`.
unfoldable pub value_at : ℕ → Action PropValue
unfolding present
value_at i = do
  records ← in_context all_records
  r ← lift (present (find_record i records))
  in_context (λ c. PropContext.read c r)

unfoldable pub display_name : Action Text
unfolding value_at as_text
display_name = do v ← value_at 0x3001; lift (as_text v)

unfoldable pub as_int : PropValue → Result ℤ
as_int (PropValue.one (Scalar.int v)) = ok v
as_int v = err format

unfoldable pub as_bool : PropValue → Result Bool
as_bool (PropValue.one (Scalar.bool b)) = ok b
as_bool v = err format

-- `_int32`
unfoldable pub int32 : ℕ → Action ℤ
unfolding value_at as_int
int32 i = do v ← value_at i; lift (as_int v)

unfoldable pub content_count : Action ℤ
unfolding int32
content_count = int32 0x3602

unfoldable pub unread_count : Action ℤ
unfolding int32
unread_count = int32 0x3603

unfoldable pub has_subfolders : Action Bool
unfolding value_at as_bool
has_subfolders = do v ← value_at 0x360A; lift (as_bool v)

-- self._tables.get(node_type)
unfoldable pub opened_table :
    List (NodeIdType × Option TableContext) → NodeIdType → Option (Option TableContext)
opened_table [] t = none
opened_table ((k, v) ∷ rest) t =
    if type_value k == type_value t then some v else opened_table rest t

-- self._tables[node_type] = v
unfoldable pub set_table :
    List (NodeIdType × Option TableContext)
    → NodeIdType
    → Option TableContext
    → List (NodeIdType × Option TableContext)
set_table [] t v = (t, v) ∷ []
set_table ((k, w) ∷ rest) t v =
    if type_value k == type_value t then (k, v) ∷ rest else (k, w) ∷ set_table rest t v

unfoldable pub keep_table : NodeIdType → Option TableContext → Action (Option TableContext)
unfolding set_table
keep_table t v f = (ok v, record f { tables = set_table f.tables t v })

-- The node's table: none if the node B-tree does not hold the node, and every other error passes.
unfoldable pub table_at : Store → Result NodeBTreeEntry → Result (Option TableContext)
table_at s (ok e) =
    elim (TableContext.context_of s.reader e.data_block e.sub_node (some s.limits) s.codepage) [
      | ok c ↦ ok (some c)
      | err e ↦ err e
      | stuck ↦ stuck
    ]
table_at s (err not_found) = ok none
table_at s (err e) = err e
table_at s stuck = stuck

unfoldable pub cached_table :
    Store → NodeIdType → Option (Option TableContext) → Action (Option TableContext)
unfolding table_at keep_table find
cached_table s t (some v) f = (ok v, f)
cached_table s t none f =
    (do
      node ← lift (from_parts t (NodeId.index f.node))
      v ← lift (table_at s (find s node))
      keep_table t v)
      f

-- `table`
unfoldable pub table : Store → NodeIdType → Action (Option TableContext)
unfolding opened_table cached_table
table s t f = cached_table s t (opened_table f.tables t) f

-- What the table has cached is kept in the folder, which holds the same object.
unfoldable pub read_ids : NodeIdType → ℕ → Option TableContext → Action (List NodeId)
unfolding table_ids set_table
read_ids t ceiling none f = (ok [], f)
read_ids t ceiling (some c) f =
    let p = table_ids ceiling c in (p.0, record f { tables = set_table f.tables t (some p.1) })

-- `_row_ids` of one of the tables
unfoldable pub row_ids : Store → NodeIdType → ℕ → Action (List NodeId)
unfolding table read_ids
row_ids s t ceiling = do v ← table s t; read_ids t ceiling v

unfoldable pub subfolder_ids : Store → Action (List NodeId)
unfolding row_ids
subfolder_ids s = row_ids s NodeIdType.hierarchy_table s.limits.max_folders

unfoldable pub message_ids : Store → Action (List NodeId)
unfolding row_ids
message_ids s = row_ids s NodeIdType.contents_table s.limits.max_messages

unfoldable pub associated_ids : Store → Action (List NodeId)
unfolding row_ids
associated_ids s = row_ids s NodeIdType.assoc_contents_table s.limits.max_messages

unfoldable pub open_all : Store → List NodeId → Result (List Folder)
unfolding folder
open_all s [] = ok []
open_all s (n ∷ nodes) = elim (folder s n) [
  | ok f ↦ elim (open_all s nodes) [ ok fs ↦ ok (f ∷ fs) | err e ↦ err e | stuck ↦ stuck ]
  | err e ↦ err e
  | stuck ↦ stuck
]

-- list(self.subfolders())
unfoldable pub subfolders : Store → Action (List Folder)
unfolding subfolder_ids open_all
subfolders s = do nodes ← subfolder_ids s; lift (open_all s nodes)
