-- ===== src/HeapTree/Actions.antt =====
-- Actions that keep the heap's cached page maps, and how they compose.
use pypst_reader.Prelude.{ℕ}
use pypst_reader.Error.{Result, ok, err, stuck, require, format}
use pypst_reader.Limits.{VisitedSet, add}
use pypst_reader.Heap.Ids.{HeapId}
use pypst_reader.Heap.State.{Action, lift, continue, ◌>>=◌, HeapNode}
use pypst_reader.Heap.{get}
use pypst_reader.Heap.Coherent.{IsCoherent, get-IsCoherent}
use pypst_reader.HeapTree.{page}

-- An action that keeps the cached page maps those of the heap's blocks.
abbrev pub Keeps {ℓ} : {A : Type ℓ} → Action A → Type 0
Keeps m = (h : HeapNode) → IsCoherent h → IsCoherent (m h).1

pub continue-Keeps {ℓ κ} :
    {A : Type ℓ} {B : Type κ} (r : Result A) (f : A → Action B) (h : HeapNode)
    → ((a : A) → Keeps (f a))
    → IsCoherent h
    → IsCoherent (continue r f h).1
continue-Keeps (ok a) f h k c = k a h c
continue-Keeps (err e) f h k c = c
continue-Keeps stuck f h k c = c

pub then-Keeps {ℓ κ} :
    {A : Type ℓ} {B : Type κ} (m : Action A) (f : A → Action B)
    → Keeps m
    → ((a : A) → Keeps (f a))
    → Keeps (m >>= f)
then-Keeps m f p k h c = continue-Keeps (m h).0 f (m h).1 k (p h c)

pub page-Keeps :
    (hid : HeapId) (record_size : ℕ) (visited : VisitedSet) → Keeps (page hid record_size visited)
unfolding page
page-Keeps hid record_size visited =
    then-Keeps (lift (add visited hid.raw)) _ (λ h c. c)
      (λ v.
        then-Keeps (get hid) _ (get-IsCoherent hid)
          (λ b. then-Keeps (lift (require _ format)) _ (λ h c. c) (λ u h c. c)))
