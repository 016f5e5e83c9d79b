-- ===== src/TableContext/State.antt =====
-- The state of a table context, and the operations on it as a state and exception monad.
use pypst_reader.Prelude.{ℕ, List, Option}
use pypst_reader.Error.{Result, ok, err, stuck}
use pypst_reader.Limits.{Limits}
use pypst_reader.Heap.State
use pypst_reader.Heap.State.{HeapNode}
use pypst_reader.HeapTree.Records.{HeapTreeHeader}
use pypst_reader.PropType.Value.{Codec}
use pypst_reader.TableContext.Info.{TableContextInfo}
use pypst_reader.TableContext.RowMatrix.{Matrix}

-- The row index, as pairs of a row id and its ordinal, and the matrix are read on first use.
pub record TableContext : Type 0 where
  pub heap : HeapNode
  pub limits : Limits
  pub codepage : Option Codec
  pub info : TableContextInfo
  pub tree : HeapTreeHeader
  pub index : Option (List (ℕ × ℕ))
  pub matrix : Option Matrix

abbrev pub Action {ℓ} : Type ℓ → Type ℓ
Action A = TableContext → Result A × TableContext

module _ {ℓ} {A : Type ℓ} where
  abbrev pub pure : A → Action A
  pure a c = (ok a, c)

  abbrev pub lift : Result A → Action A
  lift r c = (r, c)

  -- An operation on the heap.
  abbrev pub in_heap : State.Action A → Action A
  in_heap m c = let p = m c.heap in (p.0, record c { heap = p.1 })

abbrev pub continue {ℓ κ} : {A : Type ℓ} {B : Type κ} → Result A → (A → Action B) → Action B
continue (ok a) f c = f a c
continue (err e) f c = (err e, c)
continue stuck f c = (stuck, c)

infixl 5 ◌>>=◌ ◌>>◌
abbrev pub ◌>>=◌ {ℓ κ} : {A : Type ℓ} {B : Type κ} → Action A → (A → Action B) → Action B
◌>>=◌ m f c = let p = m c in continue p.0 f p.1

abbrev pub ◌>>◌ {ℓ} : {B : Type ℓ} → Action (Unit {0}) → Action B → Action B
m >> k = m >>= λ _. k
