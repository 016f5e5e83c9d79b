-- ===== src/Block/Data.antt =====
-- The walk of a data tree ends on every file, and assembles no more than the limit allows.
use pypst_reader.Prelude.{
  ℕ, zero, suc, ◌+◌, ◌-◌, ◌≤◌, ◌<◌, ◌≡◌, refl, sym, ap, ◌∙◌, arith, Bool, true, false, List, [],
  ◌∷◌, ◌++◌, length, length-append, ◌⊎◌, inl, inr,
}
use mathlib.Core.Path.{subst}
use pypst_reader.Error.{Result, ok, >>=-eq-ok, ok-injective}
use pypst_reader.Error.Settles.{Settles, settle_rules, by_ok, Settles-bind, Settles-bind_eq}
use pypst_reader.Bytes.{Bytes}
use pypst_reader.Limits.{VisitedSet, visited_set, add, check_depth, check_allocation}
use pypst_reader.Limits.Visited.{add-Added}
use pypst_reader.Ids.BlockId.{BlockId, is_internal, search_key}
use pypst_reader.BTree.Bounded.{check_depth-Settles, add-Settles}
use pypst_reader.Block.{BlockReader, DataNode, data_node, x_node, read_data_tree}
use pypst_reader.Block.Settles.{read_data_tree-Settles}
use pypst_reader.Block.Size.{is_x, data_length, read_data_tree_shape}
use pypst_reader.Block.Walks.{
  with_depth, mark, on_data_node, data_blocks_from, data_fuel, from_root, read_data_blocks, join,
  read_data,
}

check_allocation-Settles : (n c : ℕ) → Settles (check_allocation n c)
unfolding check_allocation
check_allocation-Settles n c = search settle_rules

check_allocation-le : (n c : ℕ) {u : Unit {0}} → check_allocation n c ≡ ok u → n ≤ c
unfolding check_allocation
check_allocation-le n c h = ground arith

mark-Settles :
    (r : BlockReader) (child : BlockId) (depth : ℕ) (v : VisitedSet) (b : Bool)
    → Settles (mark r child depth v b)
unfolding mark
mark-Settles r child depth v true = search (settle_rules, check_depth-Settles, add-Settles)
mark-Settles r child depth v false = by_ok v

-- How many keys a mark adds: one for an internal block, none for a data block.
abbrev marks : Bool → ℕ
marks true = 1
marks false = 0

record Marked (v v' : VisitedSet) (n : ℕ) : Type 0 where
  size : length v'.seen ≡ length v.seen + n
  room : length v'.seen ≤ v.ceiling
  ceiling : v'.ceiling ≡ v.ceiling

mark-Marked :
    (r : BlockReader) (child : BlockId) (depth : ℕ) (v v' : VisitedSet) (b : Bool)
    → length v.seen ≤ v.ceiling
    → mark r child depth v b ≡ ok v'
    → Marked v v' (marks b)
unfolding mark
mark-Marked r child depth v v' true le h =
    let (_, h1, k1) = >>=-eq-ok (check_depth depth r.limits.max_xblock_depth) _ h in
    let a = add-Added v (search_key child) {v' = v'} k1 in
    let grown : length v'.seen ≡ length v.seen + 1 = ap length a.seen ∙ omega arith in
    record { size = grown; room = omega (arith, a.room, grown); ceiling = a.ceiling }
mark-Marked r child depth v v' false le h =
    let same : v ≡ v' = ok-injective h in
    record {
      size = omega (arith, ap (λ (w : VisitedSet). length w.seen) same);
      room = omega (arith, ap (λ (w : VisitedSet). length w.seen) same);
      ceiling = sym (ap (λ (w : VisitedSet). w.ceiling) same);
    }

module _ (r : BlockReader) where
  -- The room that is left, in marks and in bytes.
  abbrev room : VisitedSet → ℕ → ℕ
  room v assembled = v.ceiling - length v.seen + (r.limits.max_allocation - assembled)

  on_data_node-Settles :
      (node : DataNode) (parts : List Bytes) (assembled : ℕ)
      (push : List BlockId → Result (List Bytes)) (next : List Bytes → ℕ → Result (List Bytes))
      → ((es : List BlockId) → is_x node ≡ true → Settles (push es))
      → ((ps : List Bytes) (n : ℕ)
          → assembled + data_length node ≤ n
          → n ≤ r.limits.max_allocation
          → is_x node ≡ false
          → Settles (next ps n))
      → Settles (on_data_node r node parts assembled push next)
  unfolding on_data_node
  on_data_node-Settles (x_node x) parts assembled push next hp hn = hp x.entries refl
  on_data_node-Settles (data_node d) parts assembled push next hp hn =
      Settles-bind_eq (check_allocation (assembled + length d.bytes) r.limits.max_allocation) _
        (check_allocation-Settles _ _)
        (λ u e.
          hn _ _ (omega arith)
            (check_allocation-le (assembled + length d.bytes) r.limits.max_allocation e) refl)

  data_blocks_from-Settles :
      (fuel : ℕ) (stack : List (BlockId × ℕ)) (v : VisitedSet) (parts : List Bytes) (assembled : ℕ)
      → length v.seen ≤ v.ceiling
      → assembled ≤ r.limits.max_allocation
      → room v assembled < fuel
      → Settles (data_blocks_from r fuel stack v parts assembled)
  unfolding data_blocks_from
  data_blocks_from-Settles zero stack v parts assembled p q f = elim f [ ]
  data_blocks_from-Settles (suc fuel) [] v parts assembled p q f = by_ok parts
  data_blocks_from-Settles (suc fuel) ((child, depth) ∷ stack) v parts assembled p q f =
      Settles-bind_eq (mark r child depth v (is_internal child)) _ (mark-Settles r child depth v _)
        λ v' e.
          let m = mark-Marked r child depth v v' (is_internal child) p e in
          Settles-bind_eq (read_data_tree r child) _ (read_data_tree-Settles r child) λ node e'.
            let (kind, lo, _) = read_data_tree_shape r child node e' in
            on_data_node-Settles node parts assembled _ _
              (λ es x.
                let one : marks (is_internal child) ≡ 1 = ap marks (sym kind ∙ x) in
                data_blocks_from-Settles fuel (with_depth es (depth + 1) ++ stack) v' parts
                  assembled (omega (arith, m.room, m.ceiling)) q
                  (omega (arith, m.size, m.room, m.ceiling, one)))
              (λ ps n le hi x.
                data_blocks_from-Settles fuel stack v' ps n (omega (arith, m.room, m.ceiling)) hi
                  (omega (arith, m.size, m.room, m.ceiling, lo)))

  from_root-Settles : (block : BlockId) (node : DataNode) → Settles (from_root r block node)
  unfolding from_root data_fuel
  from_root-Settles block (data_node d) = by_ok _
  from_root-Settles block (x_node x) =
      Settles-bind (check_allocation x.total_size r.limits.max_allocation) _
        (check_allocation-Settles _ _)
        λ u.
          Settles-bind_eq (add (visited_set r.limits.max_items) (search_key block)) _
            (add-Settles _ _)
            λ v e.
              let a = add-Added (visited_set r.limits.max_items) (search_key block) {v' = v} e in
              let one : length v.seen ≡ 1 =
                ap length a.seen ∙ (unfold visited_set in omega arith) in
              let top : v.ceiling ≡ r.limits.max_items = a.ceiling ∙ (unfold visited_set in refl) in
              let room1 : 0 < r.limits.max_items = unfold visited_set in omega (arith, a.room) in
              data_blocks_from-Settles (r.limits.max_items + r.limits.max_allocation + 2)
                (with_depth x.entries 2) v [] 0 (omega arith) (omega arith) (omega arith)

  -- Reading a node's data ends on every file, whatever blocks its tree names: every block that is
  -- followed is marked or adds a byte, and both are limited.
  pub read_data_blocks-Settles : (block : BlockId) → Settles (read_data_blocks r block)
  unfolding read_data_blocks
  read_data_blocks-Settles block = search (settle_rules, read_data_tree-Settles, from_root-Settles)

length-join-append :
    (ps : List Bytes) (b : Bytes) → length (join (ps ++ b ∷ [])) ≡ length (join ps) + length b
unfolding join
length-join-append [] b = omega (arith, length-append b [])
length-join-append (p ∷ ps) b = omega (
  arith,
  length-append p (join (ps ++ b ∷ [])),
  length-append p (join ps),
  length-join-append ps b,
)

module _ (r : BlockReader) where
  on_data_node-length :
      (node : DataNode) (parts : List Bytes) (assembled : ℕ)
      (push : List BlockId → Result (List Bytes)) (next : List Bytes → ℕ → Result (List Bytes))
      (out : List Bytes)
      → length (join parts) ≡ assembled
      → assembled ≤ r.limits.max_allocation
      → ((es : List BlockId) → push es ≡ ok out → length (join out) ≤ r.limits.max_allocation)
      → ((ps : List Bytes) (n : ℕ)
          → length (join ps) ≡ n
          → n ≤ r.limits.max_allocation
          → next ps n ≡ ok out
          → length (join out) ≤ r.limits.max_allocation)
      → on_data_node r node parts assembled push next ≡ ok out
      → length (join out) ≤ r.limits.max_allocation
  unfolding on_data_node
  on_data_node-length (x_node x) parts assembled push next out e le hp hn h = hp x.entries h
  on_data_node-length (data_node d) parts assembled push next out e le hp hn h =
      let (_, h1, k1) =
        >>=-eq-ok (check_allocation (assembled + length d.bytes) r.limits.max_allocation) _ h in
      hn (parts ++ d.bytes ∷ []) (assembled + length d.bytes)
        (omega (arith, length-join-append parts d.bytes))
        (check_allocation-le (assembled + length d.bytes) r.limits.max_allocation h1) k1

  data_blocks_from-length :
      (fuel : ℕ) (stack : List (BlockId × ℕ)) (v : VisitedSet) (parts : List Bytes) (assembled : ℕ)
      (out : List Bytes)
      → length (join parts) ≡ assembled
      → assembled ≤ r.limits.max_allocation
      → data_blocks_from r fuel stack v parts assembled ≡ ok out
      → length (join out) ≤ r.limits.max_allocation
  unfolding data_blocks_from
  data_blocks_from-length zero stack v parts assembled out e le h = cc
  data_blocks_from-length (suc fuel) [] v parts assembled out e le h =
      omega (arith, ap (λ (ps : List Bytes). length (join ps)) (ok-injective h))
  data_blocks_from-length (suc fuel) ((child, depth) ∷ stack) v parts assembled out e le h =
      let (v', h1, k1) = >>=-eq-ok (mark r child depth v (is_internal child)) _ h in
      let (node, h2, k2) = >>=-eq-ok (read_data_tree r child) _ k1 in
      on_data_node-length node parts assembled _ _ out e le
        (λ es q.
          data_blocks_from-length fuel (with_depth es (depth + 1) ++ stack) v' parts assembled out e
            le q)
        (λ ps n e' le' q. data_blocks_from-length fuel stack v' ps n out e' le' q) k2

  from_root-length :
      (block : BlockId) (node : DataNode) (out : List Bytes)
      → data_length node ≤ 8176
      → from_root r block node ≡ ok out
      → (length (join out) ≤ 8176) ⊎ (length (join out) ≤ r.limits.max_allocation)
  unfolding from_root join
  from_root-length block (data_node d) out le h = inl (
      omega (
        arith,
        ap (λ (ps : List Bytes). length (join ps)) (ok-injective h),
        length-append d.bytes [],
      ))
  from_root-length block (x_node x) out le h =
      let (_, h1, k1) = >>=-eq-ok (check_allocation x.total_size r.limits.max_allocation) _ h in
      let (v, h2, k2) = >>=-eq-ok (add (visited_set r.limits.max_items) (search_key block)) _ k1 in
      inr (
        data_blocks_from-length (data_fuel r) (with_depth x.entries 2) v [] 0 out refl (omega arith)
          k2)

  -- A node's data is one block of at most 8176 bytes, or a tree's blocks of at most
  -- `max_allocation` bytes together.
  pub length-read_data :
      (block : BlockId) (out : Bytes)
      → read_data r block ≡ ok out
      → (length out ≤ 8176) ⊎ (length out ≤ r.limits.max_allocation)
  unfolding read_data read_data_blocks
  length-read_data block out h =
      let (ps, h1, k1) = >>=-eq-ok (read_data_blocks r block) _ h in
      let (node, h2, k2) = >>=-eq-ok (read_data_tree r block) _ h1 in
      let (_, _, small) = read_data_tree_shape r block node h2 in
      subst (λ (b : Bytes). (length b ≤ 8176) ⊎ (length b ≤ r.limits.max_allocation))
        (ok-injective k1) (from_root-length block node ps small k2)
