-- ===== src/Heap/Coherent.antt =====
-- The cached page maps: what they hold, and what `get` returns with them.
use pypst_reader.Prelude.{
  ℕ, ◌≤◌, ◌<◌, ◌≡◌, refl, sym, ap, ◌∙◌, arith, List, ◌∷◌, length, ◌==◌, ==_iff, get_elem?, Option,
  none, some, some_inj, Bool-cases, inl, inr,
}
use pypst_reader.Error.{Result, ok, err, stuck}
use pypst_reader.Bytes.{Bytes}
use pypst_reader.Limits.{check_count}
use pypst_reader.Heap.Ids.{HeapId, HeapNodeId, as_heap, index, block_index}
use pypst_reader.Heap.PageMap.{HeapPageMap, parse_page_map}
use pypst_reader.Heap.Spans.{parse_page_map-IsMap}
use pypst_reader.Heap.Items.{item_inside}
use pypst_reader.Heap.State.{HeapNode, lift, continue, ◌>>=◌}
use pypst_reader.Heap.{
  block, block_of, cached, counted, count_items, fresh_page_map, found_or_parse, page_map, item,
  get, get_hnid, item_or_sub_node,
}

-- Every cached map is what its block parses to.
abbrev pub Coherent : List Bytes → List (ℕ × HeapPageMap) → Type 0
Coherent blocks maps =
    (i : ℕ) (m : HeapPageMap)
    → cached i maps ≡ some m
    → (b : Bytes) → get_elem? blocks i ≡ some b
    → parse_page_map i b ≡ ok m

Coherent-cons :
    (blocks : List Bytes) (maps : List (ℕ × HeapPageMap)) (i : ℕ) (m : HeapPageMap) (b : Bytes)
    → get_elem? blocks i ≡ some b
    → parse_page_map i b ≡ ok m
    → Coherent blocks maps
    → Coherent blocks ((i, m) ∷ maps)
unfolding cached
Coherent-cons blocks maps i m b at parsed c j n hit b2 at2 = elim (Bool-cases (i == j)) [
  | inl same ↦
      let e : i ≡ j = (==_iff i j).0 same in
      let maps_agree : m ≡ n = some_inj (rw same at hit) in
      let blocks_agree : b ≡ b2 = some_inj (sym at ∙ ap (get_elem? blocks) e ∙ at2) in cc
  | inr other ↦ c j n (rw other at hit) b2 at2
]

abbrev pub IsCoherent : HeapNode → Type 0
IsCoherent h = Coherent h.blocks h.page_maps

-- An answer about the page map of a block, with the heap after it.
abbrev pub IsPageMap : ℕ → Bytes → Result HeapPageMap × HeapNode → Type 0
IsPageMap i b r = IsCoherent r.1 × ((n : HeapPageMap) → r.0 ≡ ok n → parse_page_map i b ≡ ok n)

counted-IsPageMap :
    (i : ℕ) (m : HeapPageMap) (seen : ℕ) (r : Result (Unit {0})) (h : HeapNode) (b : Bytes)
    → get_elem? h.blocks i ≡ some b
    → parse_page_map i b ≡ ok m
    → IsCoherent h
    → IsPageMap i b (counted i m seen r h)
counted-IsPageMap i m seen (ok u) h b at parsed c =
    (Coherent-cons h.blocks h.page_maps i m b at parsed c, λ n same. parsed ∙ same)
counted-IsPageMap i m seen (err e) h b at parsed c = (c, λ n same. cc)
counted-IsPageMap i m seen stuck h b at parsed c = (c, λ n same. cc)

parsed-IsPageMap :
    (i : ℕ) (h : HeapNode) (b : Bytes) (r : Result HeapPageMap)
    → get_elem? h.blocks i ≡ some b
    → parse_page_map i b ≡ r
    → IsCoherent h
    → IsPageMap i b (continue r (count_items i) h)
unfolding count_items
parsed-IsPageMap i h b (ok m) at parsed c =
    counted-IsPageMap i m _ (check_count _ h.limits.max_heap_items) h b at parsed c
parsed-IsPageMap i h b (err e) at parsed c = (c, λ n same. cc)
parsed-IsPageMap i h b stuck at parsed c = (c, λ n same. cc)

fresh_page_map-IsPageMap :
    (i : ℕ) (h : HeapNode) (b : Bytes)
    → get_elem? h.blocks i ≡ some b
    → IsCoherent h
    → IsPageMap i b (fresh_page_map i h)
unfolding fresh_page_map block block_of
fresh_page_map-IsPageMap i h b at c = rw at (parsed-IsPageMap i h b (parse_page_map i b) at refl c)

page_map-IsPageMap :
    (i : ℕ) (h : HeapNode) (b : Bytes)
    → get_elem? h.blocks i ≡ some b
    → IsCoherent h
    → IsPageMap i b (page_map i h)
unfolding page_map found_or_parse
page_map-IsPageMap i h b at c = from_cache (cached i h.page_maps) refl
  where
    from_cache :
        (o : Option HeapPageMap) → cached i h.page_maps ≡ o → IsPageMap i b (found_or_parse o i h)
    from_cache (some m) hit = (c, λ n same. c i m hit b at ∙ same)
    from_cache none miss = fresh_page_map-IsPageMap i h b at c

-- An answer of `get`, and the heap after it.
abbrev pub IsItem : HeapId → HeapNode → Result Bytes × HeapNode → Type 0
IsItem hid h r =
    IsCoherent r.1
    × ((out : Bytes)
        → r.0 ≡ ok out
        → (b : Bytes) × (m : HeapPageMap) × (block h (block_index hid) ≡ ok b)
          × (parse_page_map (block_index hid) b ≡ ok m)
          × (item b m (index hid) ≡ ok out)
          × (0 < length out)
          × (length out ≤ length b))

item-IsItem :
    (hid : HeapId) (h : HeapNode) (b : Bytes) (r : Result HeapPageMap × HeapNode)
    → block h (block_index hid) ≡ ok b
    → IsPageMap (block_index hid) b r
    → IsItem hid h (continue r.0 (λ m. lift (item b m (index hid))) r.1)
item-IsItem hid h b (ok m, h2) at (c, parsed) = (
  c,
  λ out same.
      let p = parsed m refl in
      let (live, inside) =
        item_inside b m (index hid) out (parse_page_map-IsMap (block_index hid) b m p) same in
      (b, m, at, p, same, live, inside),
)
item-IsItem hid h b (err e, h2) at (c, parsed) = (c, λ out same. cc)
item-IsItem hid h b (stuck, h2) at (c, parsed) = (c, λ out same. cc)

block-at : (h : HeapNode) (i : ℕ) (b : Bytes) → block h i ≡ ok b → get_elem? h.blocks i ≡ some b
unfolding block block_of
block-at h i b e = ground arith

block-IsItem :
    (hid : HeapId) (h : HeapNode) (r : Result Bytes)
    → block h (block_index hid) ≡ r
    → IsCoherent h
    → IsItem hid h
        (continue r (λ b. page_map (block_index hid) >>= λ m. lift (item b m (index hid))) h)
block-IsItem hid h (ok b) at c =
    item-IsItem hid h b (page_map (block_index hid) h) at
      (page_map-IsPageMap (block_index hid) h b (block-at h (block_index hid) b at) c)
block-IsItem hid h (err e) at c = (c, λ out same. cc)
block-IsItem hid h stuck at c = (c, λ out same. cc)

-- `get` keeps every cached page map the one that its block parses to, whatever `get` answers.
pub get-IsCoherent : (hid : HeapId) (h : HeapNode) → IsCoherent h → IsCoherent (get hid h).1
unfolding get
get-IsCoherent hid h c = (block-IsItem hid h (block h (block_index hid)) refl c).0

item_or_sub_node-IsCoherent :
    (hnid : HeapNodeId) (hid : Option HeapId) (h : HeapNode)
    → IsCoherent h
    → IsCoherent (item_or_sub_node hnid hid h).1
unfolding item_or_sub_node
item_or_sub_node-IsCoherent hnid none h c = c
item_or_sub_node-IsCoherent hnid (some hid) h c = get-IsCoherent hid h c

pub get_hnid-IsCoherent :
    (hnid : HeapNodeId) (h : HeapNode) → IsCoherent h → IsCoherent (get_hnid hnid h).1
unfolding get_hnid
get_hnid-IsCoherent hnid h c = item_or_sub_node-IsCoherent hnid (as_heap hnid) h c

-- In a heap whose cached page maps are those of its blocks, what `get` returns is the item that the
-- block's own page map names, cache or no cache, and it is a piece of the block that is not empty.
pub get_exact :
    (hid : HeapId) (h : HeapNode) (out : Bytes)
    → IsCoherent h
    → (get hid h).0 ≡ ok out
    → (b : Bytes) × (m : HeapPageMap) × (block h (block_index hid) ≡ ok b)
      × (parse_page_map (block_index hid) b ≡ ok m)
      × (item b m (index hid) ≡ ok out)
      × (0 < length out)
      × (length out ≤ length b)
unfolding get
get_exact hid h out c same = (block-IsItem hid h (block h (block_index hid)) refl c).1 out same
