-- ===== src/Block/Subnode.antt =====
-- The walk of a subnode tree ends on every file; its dictionary keeps the first entry of a node.
use pypst_reader.Prelude.{
  ℕ, zero, suc, ◌+◌, ◌-◌, ◌≤◌, ◌<◌, ◌≡◌, refl, sym, ap, ◌∙◌, arith, true, false, ◌||◌, List, [],
  ◌∷◌, ◌++◌, length, length-append, ◌==◌, Option, none, some, Bool-cases, ◌⊎◌, inl, inr,
}
use mathlib.Core.Path.{subst}
use pypst_reader.Error.{Result, ok, >>=-eq-ok, ok-injective}
use pypst_reader.Error.Settles.{Settles, by_ok, Settles-bind, Settles-bind_eq}
use pypst_reader.Limits.{VisitedSet, visited_set, add, check_depth, check_count}
use pypst_reader.Limits.Visited.{add-Added}
use pypst_reader.Ids.NodeId.{NodeId}
use pypst_reader.Ids.BlockId.{BlockId, search_key}
use pypst_reader.BTree.Bounded.{check_depth-Settles, check_count-Settles, add-Settles}
use pypst_reader.Block.{
  BlockReader, SubNodeLeafEntry, SubNodeIntermediateEntry, SubNode, sub_leaf, sub_intermediate,
  read_subnode_block,
}
use pypst_reader.Block.Settles.{read_subnode_block-Settles}
use pypst_reader.Block.Walks.{
  next_levels, get, has, set_default, set_defaults, on_sub_node, subnodes_from, read_subnode_tree,
}

-- The first of two look-ups that finds something.
abbrev pub or_else : Option SubNodeLeafEntry → Option SubNodeLeafEntry → Option SubNodeLeafEntry
or_else none o = o
or_else (some e) o = some e

get-append :
    (d es : List SubNodeLeafEntry) (n : NodeId) → get (d ++ es) n ≡ or_else (get d n) (get es n)
unfolding get
get-append [] es n = refl
get-append (x ∷ d) es n = elim (Bool-cases (x.node.raw == n.raw)) [
  | inl e ↦ rw e refl
  | inr e ↦ rw e (get-append d es n)
]

has-get : (d : List SubNodeLeafEntry) (n : NodeId) → has d n ≡ false → get d n ≡ none
unfolding has get
has-get [] n h = refl
has-get (x ∷ d) n h = ground (arith, has-get d n)

get-has :
    (d : List SubNodeLeafEntry) (n : NodeId) (o : Option SubNodeLeafEntry)
    → has d n ≡ true
    → or_else (get d n) o ≡ get d n
unfolding has get
get-has [] n o h = cc
get-has (x ∷ d) n o h = elim (Bool-cases (x.node.raw == n.raw)) [
  | inl e ↦ rw e refl
  | inr e ↦ rw e (get-has d n o (rw e at h))
]

has-same : (d : List SubNodeLeafEntry) (m n : NodeId) → m.raw ≡ n.raw → has d m ≡ has d n
unfolding has
has-same [] m n e = refl
has-same (x ∷ d) m n e = ground (arith, has-same d m n e)

or_else-none : (o : Option SubNodeLeafEntry) → or_else o none ≡ o
or_else-none none = refl
or_else-none (some e) = refl

or_else_assoc :
    (a b c : Option SubNodeLeafEntry) → or_else (or_else a b) c ≡ or_else a (or_else b c)
or_else_assoc none b c = refl
or_else_assoc (some e) b c = refl

get-set_default :
    (d : List SubNodeLeafEntry) (e : SubNodeLeafEntry) (n : NodeId)
    → get (set_default d e) n ≡ or_else (get d n) (get (e ∷ []) n)
unfolding set_default
get-set_default d e n = elim (Bool-cases (has d e.node)) [
  | inl h ↦ rw h (kept (Bool-cases (e.node.raw == n.raw)) h)
  | inr h ↦ rw h (get-append d (e ∷ []) n)
]
  where
    kept :
        ((e.node.raw == n.raw) ≡ true) ⊎ ((e.node.raw == n.raw) ≡ false)
        → has d e.node ≡ true
        → get d n ≡ or_else (get d n) (get (e ∷ []) n)
    kept (inl same) h =
        let at : e.node.raw ≡ n.raw = ground arith in
        sym (get-has d n (get (e ∷ []) n) (sym (has-same d e.node n at) ∙ h))
    kept (inr other) h = unfold get in rw other (sym (or_else-none (get d n)))

-- The dictionary after a block's entries looks up the old ones first, then the block's own in
-- their order: the first entry of a node wins.
pub get-set_defaults :
    (d es : List SubNodeLeafEntry) (n : NodeId)
    → get (set_defaults d es) n ≡ or_else (get d n) (get es n)
unfolding set_defaults get
get-set_defaults d [] n = sym (or_else-none (get d n))
get-set_defaults d (e ∷ es) n =
    get-set_defaults (set_default d e) es n
    ∙ ap (λ o. or_else o (get es n)) (get-set_default d e n)
    ∙ or_else_assoc (get d n) (get (e ∷ []) n) (get es n)
    ∙ ap (or_else (get d n)) (sym (get-append (e ∷ []) es n))

-- No node has two entries.
abbrev pub Unique : List SubNodeLeafEntry → Type 0
Unique [] = Unit
Unique (e ∷ es) = (has es e.node ≡ false) × Unique es

has-append : (d es : List SubNodeLeafEntry) (n : NodeId) → has (d ++ es) n ≡ (has d n || has es n)
unfolding has
has-append [] es n = refl
has-append (x ∷ d) es n = ground (arith, has-append d es n)

Unique-append :
    (d : List SubNodeLeafEntry) (e : SubNodeLeafEntry)
    → Unique d
    → has d e.node ≡ false
    → Unique (d ++ e ∷ [])
Unique-append [] e u h = unfold has in (refl, tt)
Unique-append (x ∷ d) e (p, u) h =
    let (fresh, rest) = split in (has-append d (e ∷ []) x.node ∙ fresh, Unique-append d e u rest)
  where
    split : ((has d x.node || has (e ∷ []) x.node) ≡ false) × (has d e.node ≡ false)
    split = unfold has in (ground arith, ground arith)

set_default-Unique :
    (d : List SubNodeLeafEntry) (e : SubNodeLeafEntry) → Unique d → Unique (set_default d e)
unfolding set_default
set_default-Unique d e u = elim (Bool-cases (has d e.node)) [
  | inl h ↦ rw h u
  | inr h ↦ rw h (Unique-append d e u h)
]

set_defaults-Unique : (d es : List SubNodeLeafEntry) → Unique d → Unique (set_defaults d es)
unfolding set_defaults
set_defaults-Unique d [] u = u
set_defaults-Unique d (e ∷ es) u =
    set_defaults-Unique (set_default d e) es (set_default-Unique d e u)

length-set_defaults :
    (d es : List SubNodeLeafEntry) → length (set_defaults d es) ≤ length d + length es
unfolding set_defaults set_default
length-set_defaults d [] = omega arith
length-set_defaults d (e ∷ es) = elim (Bool-cases (has d e.node)) [
  | inl h ↦ rw h (omega (arith, length-set_defaults d es))
  | inr h ↦ rw h (omega (arith, length-set_defaults (d ++ e ∷ []) es, length-append d (e ∷ [])))
]

check_count-le : (n c : ℕ) {u : Unit {0}} → check_count n c ≡ ok u → n ≤ c
unfolding check_count
check_count-le n c h = ground arith

module _ (r : BlockReader) where
  on_sub_node-Settles :
      (node : SubNode) (entries : List SubNodeLeafEntry) (count : ℕ)
      (push : List SubNodeIntermediateEntry → Result (List SubNodeLeafEntry))
      (next : List SubNodeLeafEntry → ℕ → Result (List SubNodeLeafEntry))
      → ((es : List SubNodeIntermediateEntry) → Settles (push es))
      → ((es : List SubNodeLeafEntry) (n : ℕ) → Settles (next es n))
      → Settles (on_sub_node r node entries count push next)
  unfolding on_sub_node
  on_sub_node-Settles (sub_intermediate es) entries count push next hp hn = hp es
  on_sub_node-Settles (sub_leaf es) entries count push next hp hn =
      Settles-bind (check_count (count + length es) r.limits.max_items) _ (check_count-Settles _ _)
        (λ u. hn _ _)

  subnodes_from-Settles :
      (fuel : ℕ) (stack : List (BlockId × ℕ)) (v : VisitedSet) (entries : List SubNodeLeafEntry)
      (count : ℕ)
      → length v.seen ≤ v.ceiling
      → v.ceiling - length v.seen < fuel
      → Settles (subnodes_from r fuel stack v entries count)
  unfolding subnodes_from
  subnodes_from-Settles zero stack v entries count p f = elim f [ ]
  subnodes_from-Settles (suc fuel) [] v entries count p f = by_ok entries
  subnodes_from-Settles (suc fuel) ((child, depth) ∷ stack) v entries count p f =
      Settles-bind (check_depth depth r.limits.max_subnode_depth) _ (check_depth-Settles _ _) λ u.
        Settles-bind_eq (add v (search_key child)) _ (add-Settles v _) λ v' e.
          let a = add-Added v (search_key child) {v' = v'} e in
          let grown : length v'.seen ≡ length v.seen + 1 = ap length a.seen ∙ omega arith in
          let less : v'.ceiling - length v'.seen < fuel = omega (arith, a.room, a.ceiling, grown) in
          let fits : length v'.seen ≤ v'.ceiling = omega (arith, a.room, a.ceiling, grown) in
          Settles-bind (read_subnode_block r child) _ (read_subnode_block-Settles r child) λ node.
            on_sub_node-Settles node entries count _ _
              (λ es.
                subnodes_from-Settles fuel (next_levels es (depth + 1) ++ stack) v' entries count
                  fits less)
              (λ es n. subnodes_from-Settles fuel stack v' es n fits less)

  -- Reading a subnode tree ends on every file.
  pub read_subnode_tree-Settles : (block : BlockId) → Settles (read_subnode_tree r block)
  unfolding read_subnode_tree
  read_subnode_tree-Settles block =
      subnodes_from-Settles (r.limits.max_items + 2) ((block, 1) ∷ [])
        (visited_set r.limits.max_items) [] 0 (unfold visited_set in omega arith)
        (unfold visited_set in omega arith)

  on_sub_node-Unique :
      (node : SubNode) (entries : List SubNodeLeafEntry) (count : ℕ)
      (push : List SubNodeIntermediateEntry → Result (List SubNodeLeafEntry))
      (next : List SubNodeLeafEntry → ℕ → Result (List SubNodeLeafEntry))
      (out : List SubNodeLeafEntry)
      → Unique entries
      → ((es : List SubNodeIntermediateEntry)
          → push es ≡ ok out
          → Unique out × (length out ≤ r.limits.max_items))
      → ((es : List SubNodeLeafEntry) (n : ℕ)
          → Unique es
          → n ≤ r.limits.max_items
          → length es ≤ n
          → next es n ≡ ok out
          → Unique out × (length out ≤ r.limits.max_items))
      → length entries ≤ count
      → on_sub_node r node entries count push next ≡ ok out
      → Unique out × (length out ≤ r.limits.max_items)
  unfolding on_sub_node
  on_sub_node-Unique (sub_intermediate es) entries count push next out u hp hn le h = hp es h
  on_sub_node-Unique (sub_leaf es) entries count push next out u hp hn le h =
      let (_, h1, k1) = >>=-eq-ok (check_count (count + length es) r.limits.max_items) _ h in
      hn (set_defaults entries es) (count + length es) (set_defaults-Unique entries es u)
        (check_count-le (count + length es) r.limits.max_items h1)
        (omega (arith, length-set_defaults entries es)) k1

  subnodes_from-Unique :
      (fuel : ℕ) (stack : List (BlockId × ℕ)) (v : VisitedSet) (entries : List SubNodeLeafEntry)
      (count : ℕ) (out : List SubNodeLeafEntry)
      → Unique entries
      → count ≤ r.limits.max_items
      → length entries ≤ count
      → subnodes_from r fuel stack v entries count ≡ ok out
      → Unique out × (length out ≤ r.limits.max_items)
  unfolding subnodes_from
  subnodes_from-Unique zero stack v entries count out u c le h = cc
  subnodes_from-Unique (suc fuel) [] v entries count out u c le h =
      subst (λ (d : List SubNodeLeafEntry). Unique d × (length d ≤ r.limits.max_items))
        (ok-injective h) (u, omega arith)
  subnodes_from-Unique (suc fuel) ((child, depth) ∷ stack) v entries count out u c le h =
      let (_, h0, k0) = >>=-eq-ok (check_depth depth r.limits.max_subnode_depth) _ h in
      let (v', h1, k1) = >>=-eq-ok (add v (search_key child)) _ k0 in
      let (node, h2, k2) = >>=-eq-ok (read_subnode_block r child) _ k1 in
      on_sub_node-Unique node entries count _ _ out u
        (λ es q.
          subnodes_from-Unique fuel (next_levels es (depth + 1) ++ stack) v' entries count out u c
            le q)
        (λ es n u' c' le' q. subnodes_from-Unique fuel stack v' es n out u' c' le' q) le k2

  -- The dictionary of a subnode tree has one entry for a node, and at most `max_items` entries.
  pub read_subnode_tree-Unique :
      (block : BlockId) (out : List SubNodeLeafEntry)
      → read_subnode_tree r block ≡ ok out
      → Unique out × (length out ≤ r.limits.max_items)
  unfolding read_subnode_tree
  read_subnode_tree-Unique block out h =
      subnodes_from-Unique (r.limits.max_items + 2) ((block, 1) ∷ [])
        (visited_set r.limits.max_items) [] 0 out tt (omega arith) (omega arith) h
