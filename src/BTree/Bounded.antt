-- ===== src/BTree/Bounded.antt =====
-- The walks end, on every file: a lookup by its depth, the walk of all pages by the visited set.
use pypst_reader.Prelude.{
  ℕ, zero, suc, ◌+◌, ◌≤◌, ◌<◌, ◌≡◌, arith, ap, ◌∙◌, List, [], ◌∷◌, Option, none, some,
}
use mathlib.Core.Path.{subst}
use pypst_reader.Error.{Result, ok, err, not_found, >>=-eq-ok, ok-injective}
use pypst_reader.Error.Settles.{Settles, settle_rules, by_ok, by_err, Settles-bind_eq}
use pypst_reader.Bytes.{Bytes}
use pypst_reader.Limits.{Limits, VisitedSet, visited_set, add, check_depth, check_count}
use pypst_reader.Limits.Visited.{Added, add-Added}
use pypst_reader.Ids.BlockId.{ByteIndex}
use pypst_reader.Ids.Refs.{PageRef}
use pypst_reader.Page.Entries.{IntermediateEntry}
use pypst_reader.Page.Settles.{parse-Settles}
use pypst_reader.Page.{LeafKind, PageEntries, intermediate, leaf, BTreePage}
use pypst_reader.BTree.{
  read_page, choose, keys_fit, check_intermediate, read, child, find_leaf, search_page, find_from,
  find_key,
}

pub check_depth-Settles : (d c : ℕ) → Settles (check_depth d c)
unfolding check_depth
check_depth-Settles d c = search settle_rules

pub check_count-Settles : (d c : ℕ) → Settles (check_count d c)
unfolding check_count
check_count-Settles d c = search settle_rules

pub add-Settles : (v : VisitedSet) (key : ℕ) → Settles (add v key)
unfolding add
add-Settles v key = search settle_rules

pub check_depth-le : (d c : ℕ) {u : Unit {0}} → check_depth d c ≡ ok u → d ≤ c
unfolding check_depth
check_depth-le d c h = ground arith

keys_fit-Settles : (es : List IntermediateEntry) → Settles (keys_fit es)
unfolding keys_fit
keys_fit-Settles [] = by_ok tt
keys_fit-Settles (e ∷ es) = let rest = keys_fit-Settles es in search (settle_rules, rest)

read_page-Settles :
    (file : Bytes) (index : ByteIndex) (limits : Limits) → Settles (read_page file index limits)
unfolding read_page
read_page-Settles file index limits = search settle_rules

module _ {E : Type 0} (kind : LeafKind E) (unpack : (b : Bytes) (o : ℕ) → Settles (kind.unpack b o))
    (file : Bytes) (limits : Limits) where
  check_intermediate-Settles :
      (es : PageEntries E) → Settles (check_intermediate kind file limits es)
  unfolding check_intermediate
  check_intermediate-Settles (leaf es) = by_ok tt
  check_intermediate-Settles (intermediate es) = search (settle_rules, keys_fit-Settles)

  read-Settles : (index : ByteIndex) → Settles (read kind file limits index)
  unfolding read
  read-Settles index =
      search
        (settle_rules, read_page-Settles, parse-Settles kind unpack, check_intermediate-Settles)
        depth 9

  pub child-Settles :
      (ref : PageRef) (depth : ℕ) (v : VisitedSet) → Settles (child kind file limits ref depth v)
  unfolding child
  child-Settles ref depth v =
      search (settle_rules, check_depth-Settles, add-Settles, read-Settles) depth 9

  -- What a successful step of a walk has done.
  pub record Entered (ref : PageRef) (depth : ℕ) (v v' : VisitedSet) (page : BTreePage E)
      : Type 0 where
    pub shallow : depth ≤ limits.max_btree_depth
    pub added : Added v ref.index.value v'
    pub page_read : read kind file limits ref.index ≡ ok page

  pub child-Entered :
      (ref : PageRef) (depth : ℕ) (v v' : VisitedSet) (page : BTreePage E)
      → child kind file limits ref depth v ≡ ok (page, v')
      → Entered ref depth v v' page
  unfolding child
  child-Entered ref depth v v' page h =
      let (_, h1, k1) = >>=-eq-ok (check_depth depth limits.max_btree_depth) _ h in
      let (w, h2, k2) = >>=-eq-ok (add v ref.index.value) _ k1 in
      let (p, h3, k3) = >>=-eq-ok (read kind file limits ref.index) _ k2 in
      let same : w ≡ v' = ap (λ (t : BTreePage E × VisitedSet). t.1) (ok-injective k3) in
      let page_eq : p ≡ page = ap (λ (t : BTreePage E × VisitedSet). t.0) (ok-injective k3) in
      record {
        shallow = check_depth-le depth limits.max_btree_depth h1;
        added =
            subst (λ (t : VisitedSet). Added v ref.index.value t) same
              (add-Added v ref.index.value h2);
        page_read = h3 ∙ ap ok page_eq;
      }

  find_leaf-Settles : (key : ℕ) (es : List E) → Settles (find_leaf kind file limits key es)
  unfolding find_leaf
  find_leaf-Settles key [] = search settle_rules
  find_leaf-Settles key (e ∷ es) =
      let rest = find_leaf-Settles key es in search (settle_rules, rest)

  search_page-Settles :
      (key : ℕ) (es : PageEntries E) (next : PageRef → Result E)
      → ((r : PageRef) → Settles (next r))
      → Settles (search_page kind file limits key es next)
  unfolding search_page
  search_page-Settles key (leaf es) next h = find_leaf-Settles key es
  search_page-Settles key (intermediate es) next h = at (choose es key)
    where
      at :
          (o : Option IntermediateEntry)
          → Settles (elim o [ none ↦ err not_found | some entry ↦ next entry.ref ])
      at none = by_err not_found
      at (some e) = h e.ref

  find_from-Settles :
      (fuel key : ℕ) (ref : PageRef) (depth : ℕ) (v : VisitedSet)
      → 0 < fuel
      → limits.max_btree_depth + 2 ≤ fuel + depth
      → Settles (find_from kind file limits fuel key ref depth v)
  unfolding find_from
  find_from-Settles zero key ref depth v p q = elim p [ ]
  find_from-Settles (suc fuel) key ref depth v p q =
      Settles-bind_eq (child kind file limits ref depth v) _ (child-Settles ref depth v) λ pv e.
        let en = child-Entered ref depth v pv.1 pv.0 e in
        search_page-Settles key pv.0.entries _ (λ next.
          find_from-Settles fuel key next (depth + 1) pv.1 (omega (arith, en.shallow))
            (omega arith))

  -- A lookup ends on every file: it returns an entry or raises, within the depth limit.
  pub find_key-Settles : (root : PageRef) (key : ℕ) → Settles (find_key kind file limits root key)
  unfolding find_key
  find_key-Settles root key =
      find_from-Settles (limits.max_btree_depth + 2) key root 0 (visited_set limits.max_items)
        (omega arith) (omega arith)
