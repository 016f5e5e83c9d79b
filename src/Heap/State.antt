-- ===== src/Heap/State.antt =====
-- The heap's state, and the operations on it as a state and exception monad.
use pypst_reader.Prelude.{ℕ, List, Option}
use pypst_reader.Error.{PstError, Result, ok, err, stuck}
use pypst_reader.Bytes.{Bytes}
use pypst_reader.Limits.{Limits}
use pypst_reader.Block.{BlockReader, SubNodeLeafEntry}
use pypst_reader.Heap.Ids.{HeapNodeHeader}
use pypst_reader.Heap.PageMap.{HeapPageMap}

pub record HeapNode : Type 0 where
  pub blocks : List Bytes
  pub subnodes : List SubNodeLeafEntry
  pub reader : Option BlockReader
  pub limits : Limits
  pub header : HeapNodeHeader
  pub page_maps : List (ℕ × HeapPageMap)
  pub items_seen : ℕ

abbrev pub Action {ℓ} : Type ℓ → Type ℓ
Action A = HeapNode → Result A × HeapNode

module _ {ℓ} {A : Type ℓ} where
  abbrev pub pure : A → Action A
  pure a h = (ok a, h)

  abbrev pub raise : PstError → Action A
  raise e h = (err e, h)

  abbrev pub lift : Result A → Action A
  lift r h = (r, h)

abbrev pub continue {ℓ κ} : {A : Type ℓ} {B : Type κ} → Result A → (A → Action B) → Action B
continue (ok a) f h = f a h
continue (err e) f h = (err e, h)
continue stuck f h = (stuck, h)

infixl 5 ◌>>=◌ ◌>>◌
abbrev pub ◌>>=◌ {ℓ κ} : {A : Type ℓ} {B : Type κ} → Action A → (A → Action B) → Action B
◌>>=◌ m f h = let p = m h in continue p.0 f p.1

abbrev pub ◌>>◌ {ℓ} : {B : Type ℓ} → Action (Unit {0}) → Action B → Action B
m >> k = m >>= λ _. k
