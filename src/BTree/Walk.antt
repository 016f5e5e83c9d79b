-- ===== src/BTree/Walk.antt =====
-- The walk of every page ends, and hands out no more than the limit allows.
use pypst_reader.Prelude.{
  ℕ, zero, suc, ◌+◌, ◌-◌, ◌≤◌, ◌<◌, ◌≡◌, refl, arith, ap, ◌∙◌, List, [], ◌∷◌, length,
}
use pypst_reader.Error.{Result, ok, err, stuck}
use pypst_reader.Error.Settles.{Settles, Settles-ne}
use pypst_reader.Bytes.{Bytes}
use pypst_reader.Limits.{Limits, VisitedSet, visited_set, check_count}
use pypst_reader.Trace.{Trace, done, raised, exhausted, yield_, yielded, yield_all, Ends}
use pypst_reader.Ids.Refs.{PageRef}
use pypst_reader.Page.{LeafKind, PageEntries, intermediate, leaf, BTreePage}
use pypst_reader.BTree.{child, push_children, pages_from, pages}
use pypst_reader.BTree.Trees.{leaf_entries_from, leaf_entries}
use pypst_reader.BTree.Bounded.{child-Settles, child-Entered, check_count-Settles}

check_count-le : (n c : ℕ) {u : Unit {0}} → check_count n c ≡ ok u → n ≤ c
unfolding check_count
check_count-le n c h = ground arith

module _ {E : Type 0} (kind : LeafKind E) (unpack : (b : Bytes) (o : ℕ) → Settles (kind.unpack b o))
    (file : Bytes) (limits : Limits) where
  -- A trace that ends and yields at most `n` values.
  abbrev AtMost : ℕ → Trace (BTreePage E) → Type 0
  AtMost n t = Ends t × (length (yielded t) ≤ n)

  pages_from_bounded :
      (fuel : ℕ) (stack : List (PageRef × ℕ)) (v : VisitedSet)
      → 0 < fuel
      → length v.seen ≤ v.ceiling
      → v.ceiling + 2 ≤ fuel + length v.seen
      → AtMost (v.ceiling - length v.seen) (pages_from kind file limits fuel stack v)
  unfolding pages_from
  pages_from_bounded zero stack v p q r = elim p [ ]
  pages_from_bounded (suc fuel) [] v p q r = unfold yielded in (tt, omega arith)
  pages_from_bounded (suc fuel) ((ref, depth) ∷ stack) v p q r =
      step (child kind file limits ref depth v) refl
        (child-Settles kind unpack file limits ref depth v)
        (λ pv.
          pages_from_bounded fuel (push_children kind file limits pv.0.entries depth stack) pv.1)
    where
      step :
          (c : Result (BTreePage E × VisitedSet))
          → child kind file limits ref depth v ≡ c
          → Settles c
          → ((pv : BTreePage E × VisitedSet)
              → 0 < fuel
              → length pv.1.seen ≤ pv.1.ceiling
              → pv.1.ceiling + 2 ≤ fuel + length pv.1.seen
              → AtMost (pv.1.ceiling - length pv.1.seen) (
                  pages_from kind file limits fuel
                    (push_children kind file limits pv.0.entries depth stack)
                    pv.1))
          → AtMost (v.ceiling - length v.seen) (elim c [
            | ok p ↦ yield_ p.0 (
                pages_from kind file limits fuel
                  (push_children kind file limits p.0.entries depth stack)
                  p.1)
            | err e ↦ raised e
            | stuck ↦ exhausted
          ])
      step (ok pv) e s ih =
          let en = child-Entered kind unpack file limits ref depth v pv.1 pv.0 e in
          let size : length pv.1.seen ≡ length v.seen + 1 = ap length en.added.seen ∙ omega arith in
          let same : pv.1.ceiling ≡ v.ceiling = en.added.ceiling in
          let room : length v.seen < v.ceiling = en.added.room in
          let (ends, few) = ih pv (omega arith) (omega arith) (omega arith) in
          unfold yielded in (ends, omega arith)
      step (err x) e s ih = unfold yielded in (tt, omega arith)
      step stuck e s ih = absurd (Settles-ne s refl)

  -- The walk of all pages ends on every file, and yields at most `max_items` pages.
  pub pages_bounded :
      (root : PageRef)
      → Ends (pages kind file limits root)
        × (length (yielded (pages kind file limits root)) ≤ limits.max_items)
  unfolding pages
  pages_bounded root =
      let (ends, few) =
        pages_from_bounded (limits.max_items + 2) ((root, 0) ∷ []) (visited_set limits.max_items)
          (omega arith) (unfold visited_set in omega arith) (unfold visited_set in omega arith) in
      (ends, unfold visited_set in omega (arith, few))

length-yield_all :
    {E : Type 0} (es : List E) (t : Trace E)
    → length (yielded (yield_all es t)) ≡ length es + length (yielded t)
unfolding yielded yield_all
length-yield_all [] t = omega arith
length-yield_all (e ∷ es) t = omega (arith, length-yield_all es t)

Ends-yield_all : {E : Type 0} (es : List E) (t : Trace E) → Ends t → Ends (yield_all es t)
unfolding yield_all
Ends-yield_all [] t h = h
Ends-yield_all (e ∷ es) t h = Ends-yield_all es t h

module _ {E : Type 0} (limits : Limits) where
  leaf_entries_from_bounded :
      (t : Trace (BTreePage E)) (count : ℕ)
      → count ≤ limits.max_items
      → Ends t
      → Ends (leaf_entries_from limits count t)
        × (count + length (yielded (leaf_entries_from limits count t)) ≤ limits.max_items)
  unfolding leaf_entries_from yielded
  leaf_entries_from_bounded done count le h = (tt, omega arith)
  leaf_entries_from_bounded (raised e) count le h = (tt, omega arith)
  leaf_entries_from_bounded exhausted count le h = absurd h
  leaf_entries_from_bounded (yield_ page rest) count le h =
      on_page page.entries (λ n l. leaf_entries_from_bounded rest n l h)
    where
      counted :
          (es : List E) (c : Result (Unit {0}))
          → check_count (count + length es) limits.max_items ≡ c
          → ((n : ℕ)
              → n ≤ limits.max_items
              → Ends (leaf_entries_from limits n rest)
                × (n + length (yielded (leaf_entries_from limits n rest)) ≤ limits.max_items))
          → Ends (elim c [
            | ok u ↦ yield_all es (leaf_entries_from limits (count + length es) rest)
            | err e ↦ raised e
            | stuck ↦ exhausted
          ])
            × (count
                  + length (
                      yielded (elim c [
                        | ok u ↦ yield_all es (leaf_entries_from limits (count + length es) rest)
                        | err e ↦ raised e
                        | stuck ↦ exhausted
                      ]))
                ≤ limits.max_items)
      counted es (ok u) e ih =
          let (ends, few) =
            ih (count + length es) (check_count-le (count + length es) limits.max_items e) in
          (
            Ends-yield_all es (leaf_entries_from limits (count + length es) rest) ends,
            omega (
              arith,
              few,
              length-yield_all es (leaf_entries_from limits (count + length es) rest),
            ),
          )
      counted es (err x) e ih = (tt, omega arith)
      counted es stuck e ih =
          absurd (Settles-ne (check_count-Settles (count + length es) limits.max_items) e)

      on_page :
          (entries : PageEntries E)
          → ((n : ℕ)
              → n ≤ limits.max_items
              → Ends (leaf_entries_from limits n rest)
                × (n + length (yielded (leaf_entries_from limits n rest)) ≤ limits.max_items))
          → Ends (elim entries [
            | intermediate es ↦ leaf_entries_from limits count rest
            | leaf es ↦ elim (check_count (count + length es) limits.max_items) [
              | ok u ↦ yield_all es (leaf_entries_from limits (count + length es) rest)
              | err e ↦ raised e
              | stuck ↦ exhausted
            ]
          ])
            × (count
                  + length (
                      yielded (elim entries [
                        | intermediate es ↦ leaf_entries_from limits count rest
                        | leaf es ↦ elim (check_count (count + length es) limits.max_items) [
                          | ok u ↦ yield_all es (leaf_entries_from limits (count + length es) rest)
                          | err e ↦ raised e
                          | stuck ↦ exhausted
                        ]
                      ]))
                ≤ limits.max_items)
      on_page (intermediate es) ih = ih count le
      on_page (leaf es) ih = counted es (check_count (count + length es) limits.max_items) refl ih

-- The walk of the leaf entries ends on every file, and yields at most `max_items` entries.
pub leaf_entries_bounded :
    {E : Type 0} (kind : LeafKind E)
    → ((b : Bytes) (o : ℕ) → Settles (kind.unpack b o))
    → (file : Bytes) (limits : Limits) (root : PageRef)
    → Ends (leaf_entries kind file limits root)
      × (length (yielded (leaf_entries kind file limits root)) ≤ limits.max_items)
unfolding leaf_entries
leaf_entries_bounded kind unpack file limits root =
    let (ends, _) = pages_bounded kind unpack file limits root in
    let (e, few) =
      leaf_entries_from_bounded limits (pages kind file limits root) 0 (omega arith) ends in
    (e, omega (arith, few))
