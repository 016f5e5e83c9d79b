-- ===== src/HeapTree/Walk.antt =====
-- The walk over all entries of a B-tree on heap: the heap after it, and a rule for its loops.
use mathlib.Core.Path.{subst}
use pypst_reader.Prelude.{
  ℕ, zero, suc, ◌+◌, ◌≤◌, ◌≡◌, arith, List, [], ◌∷◌, length, Bool, true, false, if◌then◌else◌,
}
use pypst_reader.Error.{Result, ok, ok-injective, >>=-eq-ok}
use pypst_reader.Bytes.{Bytes}
use pypst_reader.Limits.{VisitedSet, visited_set, check_count}
use pypst_reader.Heap.Ids.{HeapId, is_null}
use pypst_reader.Heap.State.{pure, lift, ◌>>=◌, HeapNode}
use pypst_reader.Heap.Coherent.{IsCoherent}
use pypst_reader.HeapTree.Records.{
  HeapTreeHeader, record_count, index_records, leaf_records, consume,
}
use pypst_reader.HeapTree.Entries.{next_level, down, leaves, fold_entries}
use pypst_reader.HeapTree.Actions.{Keeps, then-Keeps, page-Keeps}
use pypst_reader.HeapTree.Values.{continue-eq-ok}
use pypst_reader.HeapTree.{page}

pub check_count-le :
    (count ceiling : ℕ) {u : Unit {0}} → check_count count ceiling ≡ ok u → count ≤ ceiling
unfolding check_count
check_count-le count ceiling h = ground arith

module _ (header : HeapTreeHeader) (max_items : ℕ) where
  next_level-Keeps :
      (pages : List HeapId) (visited : VisitedSet)
      → Keeps (next_level header max_items pages visited)
  unfolding next_level
  next_level-Keeps [] visited = λ h c. c
  next_level-Keeps (hid ∷ pages) visited =
      then-Keeps (page hid _ visited) _ (page-Keeps hid _ visited) (λ p.
        then-Keeps (lift (index_records header.key_size p.0 _ 0)) _ (λ h c. c)
          (λ records.
            then-Keeps (next_level header max_items pages p.1) _ (next_level-Keeps pages p.1)
              (λ q h c. c)))

  down-Keeps :
      (levels : ℕ) (pages : List HeapId) (visited : VisitedSet)
      → Keeps (down header max_items levels pages visited)
  unfolding down
  down-Keeps zero pages visited = λ h c. c
  down-Keeps (suc levels) pages visited =
      then-Keeps (next_level header max_items pages visited) _ (next_level-Keeps pages visited)
        (λ q.
          then-Keeps (lift (check_count _ max_items)) _ (λ h c. c) (λ u. down-Keeps levels q.0 q.1))

  leaves-Keeps {ℓ} :
      {S : Type ℓ} (step : S → Bytes × Bytes → Result S) (pages : List HeapId)
      (visited : VisitedSet) (count : ℕ) (s : S)
      → Keeps (leaves header max_items step pages visited count s)
  unfolding leaves
  leaves-Keeps step [] visited count s = λ h c. c
  leaves-Keeps step (hid ∷ pages) visited count s =
      then-Keeps (page hid _ visited) _ (page-Keeps hid _ visited) (λ p.
        then-Keeps (lift (check_count _ max_items)) _ (λ h c. c)
          (λ u.
            then-Keeps (lift (consume step _ s)) _ (λ h c. c)
              (λ s'. leaves-Keeps step pages p.1 _ s')))

-- A loop over the entries of a B-tree on heap, whatever its body does, keeps every cached page map
-- the one that its block parses to.
pub fold_entries-Keeps {ℓ} :
    {S : Type ℓ} (header : HeapTreeHeader) (step : S → Bytes × Bytes → Result S) (s : S)
    (h : HeapNode)
    → IsCoherent h
    → IsCoherent (fold_entries header step s h).1
unfolding fold_entries
fold_entries-Keeps header step s h c = rooted (is_null header.root)
  where
    rooted :
        (empty : Bool)
        → IsCoherent
            ((if empty then pure s else (do
              q ←
                  down header h.limits.max_items header.levels
                    (header.root ∷ [])
                    (visited_set h.limits.max_items)
              leaves header h.limits.max_items step q.0 q.1 0 s))
              h).1
    rooted true = c
    rooted false =
        then-Keeps
          (down header h.limits.max_items header.levels (header.root ∷ [])
            (visited_set h.limits.max_items))
          _
          (down-Keeps header h.limits.max_items header.levels (header.root ∷ [])
            (visited_set h.limits.max_items))
          (λ q. leaves-Keeps header h.limits.max_items step q.0 q.1 0 s) h c

-- What a loop's body keeps, counting the records: the rule for a loop over the entries.
module _ {ℓ κ} {S : Type ℓ} (step : S → Bytes × Bytes → Result S) (I : ℕ → S → Type κ)
    (keep : (n : ℕ) (s : S) (r : Bytes × Bytes) (s' : S)
      → I n s
      → step s r ≡ ok s'
      → I (suc n) s') where
  consume_inv :
      (records : List (Bytes × Bytes)) (n : ℕ) (s s' : S)
      → I n s
      → consume step records s ≡ ok s'
      → I (n + length records) s'
  unfolding consume
  consume_inv [] n s s' i e =
      subst (λ (t : ℕ). I t s') (omega arith) (subst (I n) (ok-injective e) i)
  consume_inv (r ∷ records) n s s' i e =
      let (s1, at, rest) = >>=-eq-ok (step s r) _ e in
      subst (λ (t : ℕ). I t s') (omega arith)
        (consume_inv records (suc n) s1 s' (keep n s r s1 i at) rest)

  leaves_inv :
      (header : HeapTreeHeader) (max_items : ℕ) (pages : List HeapId) (visited : VisitedSet)
      (count : ℕ) (s s' : S) (h : HeapNode)
      → count ≤ max_items
      → I count s
      → (leaves header max_items step pages visited count s h).0 ≡ ok s'
      → (n : ℕ) × (n ≤ max_items) × I n s'
  unfolding leaves
  leaves_inv header max_items [] visited count s s' h le i e =
      (count, le, subst (I count) (ok-injective e) i)
  leaves_inv header max_items (hid ∷ pages) visited count s s' h le i e =
      let (p, _, e1) =
        continue-eq-ok (page hid (header.key_size + header.entry_size) visited h).0 _ _ e in
      let records =
        leaf_records header.key_size header.entry_size p.0
          (record_count (length p.0) (header.key_size + header.entry_size)) 0 in
      let (u, fits, e2) = continue-eq-ok (check_count (count + length records) max_items) _ _ e1 in
      let (s1, at, e3) = continue-eq-ok (consume step records s) _ _ e2 in
      leaves_inv header max_items pages p.1 (count + length records) s1 s' _
        (check_count-le (count + length records) max_items fits)
        (consume_inv records count s s1 i at) e3

  -- What a loop's body keeps holds after the loop, for the number of entries, which is within
  -- `max_items`.
  pub fold_entries_inv :
      (header : HeapTreeHeader) (s s' : S) (h : HeapNode)
      → I 0 s
      → (fold_entries header step s h).0 ≡ ok s'
      → (n : ℕ) × (n ≤ h.limits.max_items) × I n s'
  unfolding fold_entries
  fold_entries_inv header s s' h i e = rooted (is_null header.root) e
    where
      rooted :
          (empty : Bool)
          → ((if empty then pure s else (do
            q ←
                down header h.limits.max_items header.levels
                  (header.root ∷ [])
                  (visited_set h.limits.max_items)
            leaves header h.limits.max_items step q.0 q.1 0 s))
              h).0
            ≡ ok s'
          → (n : ℕ) × (n ≤ h.limits.max_items) × I n s'
      rooted true e = (0, omega arith, subst (I 0) (ok-injective e) i)
      rooted false e =
          let (q, _, e1) =
            continue-eq-ok
              (down header h.limits.max_items header.levels (header.root ∷ [])
                (visited_set h.limits.max_items) h).0
              _ _ e in
          leaves_inv header h.limits.max_items q.0 q.1 0 s s' _ (omega arith) i e1
