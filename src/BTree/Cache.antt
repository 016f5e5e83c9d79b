-- ===== src/BTree/Cache.antt =====
-- The cache of intermediate pages that `find` keeps, beside the lookup without one.
--
-- `_cache` is the state of a tree: each lookup takes it and returns it, an error keeping what was
-- cached before it. `find_key` of BTree.antt is the same lookup with every page read afresh.
use mathlib.Core.Path.{subst}
use pypst_reader.Prelude.{
  ℕ, zero, suc, ◌+◌, ◌≡◌, refl, sym, ap, ◌∙◌, arith, List, [], ◌∷◌, ◌==◌, Bool-cases, inl, inr,
  if◌then◌else◌, Option, none, some, some_inj,
}
use pypst_reader.Error.{Result, ok, err, stuck, not_found, ◌>>=◌, ◌>>◌}
use pypst_reader.Bytes.{Bytes}
use pypst_reader.Limits.{Limits, VisitedSet, visited_set, add, check_depth}
use pypst_reader.Ids.Refs.{PageRef}
use pypst_reader.Page.Entries.{IntermediateEntry}
use pypst_reader.Page.{LeafKind, PageEntries, intermediate, leaf, BTreePage}
use pypst_reader.BTree.{choose, read, child, find_leaf, search_page, find_from, find_key}

-- `dict[int, BTreePage]`, keyed by byte offset.
abbrev pub PageCache : Type 0 → Type 0
PageCache E = List (ℕ × BTreePage E)

unfoldable pub cached : {E : Type 0} → ℕ → PageCache E → Option (BTreePage E)
cached key [] = none
cached key ((k, page) ∷ rest) = if k == key then some page else cached key rest

module _ {E : Type 0} (kind : LeafKind E) (file : Bytes) (limits : Limits) where
  -- A page read afresh is kept if it is no leaf.
  unfoldable pub keep : ℕ → Result (BTreePage E) → PageCache E → Result (BTreePage E) × PageCache E
  keep offset (ok page) cache = (ok page, if page.level == 0 then cache else (offset, page) ∷ cache)
  keep offset (err e) cache = (err e, cache)
  keep offset stuck cache = (stuck, cache)

  unfoldable pub found_or_read :
      ℕ
      → Option (BTreePage E)
      → Result (BTreePage E)
      → PageCache E
      → Result (BTreePage E) × PageCache E
  unfolding keep
  found_or_read offset (some page) fresh cache = (ok page, cache)
  found_or_read offset none fresh cache = keep offset fresh cache

  unfoldable pub read_through : PageRef → PageCache E → Result (BTreePage E) × PageCache E
  unfolding found_or_read cached
  read_through ref cache =
      found_or_read ref.index.value (cached ref.index.value cache) (read kind file limits ref.index)
        cache

  -- The part of `_child` before the page is looked up.
  unfoldable pub enter : PageRef → ℕ → VisitedSet → Result VisitedSet
  enter ref depth visited = do check_depth depth limits.max_btree_depth; add visited ref.index.value

  -- What `_find` does with a page: `next` goes on from the child with the cache.
  unfoldable pub search_cached :
      ℕ
      → PageEntries E
      → PageCache E
      → (PageRef → PageCache E → Result E × PageCache E)
      → Result E × PageCache E
  search_cached key (leaf es) cache next = (find_leaf kind file limits key es, cache)
  search_cached key (intermediate es) cache next = elim (choose es key) [
    | none ↦ (err not_found, cache)
    | some entry ↦ next entry.ref cache
  ]

  unfoldable pub on_page :
      ℕ
      → Result (BTreePage E) × PageCache E
      → (PageRef → PageCache E → Result E × PageCache E)
      → Result E × PageCache E
  unfolding search_cached
  on_page key (ok page, cache) next = search_cached key page.entries cache next
  on_page key (err e, cache) next = (err e, cache)
  on_page key (stuck, cache) next = (stuck, cache)

  -- A refusal before the page is looked up leaves the cache alone.
  unfoldable pub entered :
      Result VisitedSet
      → PageCache E
      → (VisitedSet → Result E × PageCache E)
      → Result E × PageCache E
  entered (ok visited) cache next = next visited
  entered (err e) cache next = (err e, cache)
  entered stuck cache next = (stuck, cache)

  -- `_find` from one reference on, through the cache.
  unfoldable pub find_cached :
      ℕ → ℕ → PageRef → ℕ → VisitedSet → PageCache E → Result E × PageCache E
  unfolding enter entered read_through on_page
  find_cached zero key ref depth visited cache = (stuck, cache)
  find_cached (suc fuel) key ref depth visited cache =
      entered (enter ref depth visited) cache (λ visited'.
        on_page key (read_through ref cache)
          (λ next c. find_cached fuel key next (depth + 1) visited' c))

  -- `find` of a tree with its cache.
  unfoldable pub find_key_cached : PageRef → ℕ → PageCache E → Result E × PageCache E
  find_key_cached root key cache =
      find_cached (limits.max_btree_depth + 2) key root 0 (visited_set limits.max_items) cache

  -- Every cached page is what the file holds at its offset.
  abbrev pub IsCoherent : PageCache E → Type 0
  IsCoherent [] = Unit
  IsCoherent ((k, page) ∷ rest) =
      (read kind file limits (record { value = k }) ≡ ok page) × IsCoherent rest

  cached-IsCoherent :
      (offset : ℕ) (cache : PageCache E) {page : BTreePage E}
      → IsCoherent cache
      → cached offset cache ≡ some page
      → read kind file limits (record { value = offset }) ≡ ok page
  unfolding cached
  cached-IsCoherent offset [] c h = cc
  cached-IsCoherent offset ((k, p) ∷ rest) {page} (e, c) h = elim (Bool-cases (k == offset)) [
    | inl same ↦
        let at : k ≡ offset = ground arith in
        let found : p ≡ page = some_inj (rw same at h) in
        subst (λ (t : ℕ). read kind file limits (record { value = t }) ≡ ok page) at
          (e ∙ ap ok found)
    | inr other ↦ cached-IsCoherent offset rest c (rw other at h)
  ]

  -- A read through a coherent cache is a read of the file, and leaves a coherent cache.
  read_through-read :
      (ref : PageRef) (cache : PageCache E)
      → IsCoherent cache
      → ((read_through ref cache).0 ≡ read kind file limits ref.index)
        × IsCoherent (read_through ref cache).1
  unfolding read_through
  read_through-read ref cache c = by_lookup (cached ref.index.value cache) refl
    where
      kept :
          (r : Result (BTreePage E))
          → read kind file limits ref.index ≡ r
          → ((keep ref.index.value r cache).0 ≡ r) × IsCoherent (keep ref.index.value r cache).1
      kept (ok page) e = elim (Bool-cases (page.level == 0)) [
        | inl l ↦ rw l (refl, c)
        | inr l ↦ rw l (refl, (e, c))
      ]
      kept (err x) e = (refl, c)
      kept stuck e = (refl, c)

      by_lookup :
          (o : Option (BTreePage E))
          → cached ref.index.value cache ≡ o
          → ((found_or_read ref.index.value o (read kind file limits ref.index) cache).0
              ≡ read kind file limits ref.index)
            × IsCoherent (found_or_read ref.index.value o (read kind file limits ref.index) cache).1
      by_lookup none e = kept (read kind file limits ref.index) refl
      by_lookup (some page) e = (sym (cached-IsCoherent ref.index.value cache c e), c)

  -- The answer of a cached step, against the step without the cache.
  SameAnswer : Result E × PageCache E → Result E → Type 0
  SameAnswer (r, cache) s = (r ≡ s) × IsCoherent cache

  search_cached-search_page :
      (key : ℕ) (es : PageEntries E) (cache : PageCache E)
      (next : PageRef → PageCache E → Result E × PageCache E) (next' : PageRef → Result E)
      → IsCoherent cache
      → ((r : PageRef) (c : PageCache E) → IsCoherent c → SameAnswer (next r c) (next' r))
      → SameAnswer (search_cached key es cache next) (search_page kind file limits key es next')
  unfolding search_cached search_page SameAnswer
  search_cached-search_page key (leaf es) cache next next' c h = (refl, c)
  search_cached-search_page key (intermediate es) cache next next' c h = by_child (choose es key)
    where
      by_child :
          (o : Option IntermediateEntry)
          → SameAnswer
              (elim o as (λ _. Result E × PageCache E) [
                | none ↦ (err not_found, cache)
                | some entry ↦ next entry.ref cache
              ])
              (elim o [ none ↦ err not_found | some entry ↦ next' entry.ref ])
      by_child none = (refl, c)
      by_child (some entry) = h entry.ref cache c

  abbrev paired : Result (BTreePage E) → VisitedSet → Result (BTreePage E × VisitedSet)
  paired r v = r >>= λ page. ok (page, v)

  child-enter :
      (ref : PageRef) (depth : ℕ) (v : VisitedSet)
      → child kind file limits ref depth v
        ≡ (enter ref depth v >>= λ v'. paired (read kind file limits ref.index) v')
  unfolding child enter
  child-enter ref depth v = by_depth (check_depth depth limits.max_btree_depth)
    where
      by_depth :
          (r : Result (Unit {0}))
          → (r >>= λ _. add v ref.index.value >>= λ v'. paired (read kind file limits ref.index) v')
            ≡ ((r >>= λ _. add v ref.index.value) >>= λ v'.
                paired (read kind file limits ref.index) v')
      by_depth (ok u) = refl
      by_depth (err e) = refl
      by_depth stuck = refl

  -- One page of a lookup, with the cache and without.
  module _ (key : ℕ) (next : VisitedSet → PageRef → PageCache E → Result E × PageCache E)
      (next' : VisitedSet → PageRef → Result E)
      (same : (v : VisitedSet) (r : PageRef) (c : PageCache E)
        → IsCoherent c
        → SameAnswer (next v r c) (next' v r)) where
    on_page_same :
        (v : VisitedSet) (got : Result (BTreePage E)) (cache : PageCache E)
        (fresh : Result (BTreePage E))
        → got ≡ fresh
        → IsCoherent cache
        → SameAnswer (on_page key (got, cache) (next v)) (
            paired fresh v >>= λ (pv : BTreePage E × VisitedSet).
            search_page kind file limits key pv.0.entries (next' pv.1))
    unfolding on_page
    on_page_same v (ok page) cache fresh e c =
        rw (← e) (search_cached-search_page key page.entries cache (next v) (next' v) c (same v))
    on_page_same v (err x) cache fresh e c = rw (← e) (unfold SameAnswer in (refl, c))
    on_page_same v stuck cache fresh e c = rw (← e) (unfold SameAnswer in (refl, c))

    entered_same :
        (r : Result VisitedSet) (got : Result (BTreePage E) × PageCache E) (cache : PageCache E)
        (fresh : Result (BTreePage E))
        → got.0 ≡ fresh
        → IsCoherent got.1
        → IsCoherent cache
        → SameAnswer (entered r cache (λ v'. on_page key got (next v'))) (
            (r >>= λ v'. paired fresh v') >>= λ (pv : BTreePage E × VisitedSet).
            search_page kind file limits key pv.0.entries (next' pv.1))
    unfolding entered
    entered_same (ok v) got cache fresh e c c' = on_page_same v got.0 got.1 fresh e c
    entered_same (err x) got cache fresh e c c' = unfold SameAnswer in (refl, c')
    entered_same stuck got cache fresh e c c' = unfold SameAnswer in (refl, c')

  find_cached-find_from :
      (fuel key : ℕ) (ref : PageRef) (depth : ℕ) (v : VisitedSet) (cache : PageCache E)
      → IsCoherent cache
      → SameAnswer
          (find_cached fuel key ref depth v cache)
          (find_from kind file limits fuel key ref depth v)
  unfolding find_cached find_from
  find_cached-find_from zero key ref depth v cache c = unfold SameAnswer in (refl, c)
  find_cached-find_from (suc fuel) key ref depth v cache c =
      let (e, c') = read_through-read ref cache c in
      rw (child-enter ref depth v) (
        entered_same key (λ v' next c. find_cached fuel key next (depth + 1) v' c)
          (λ v' next. find_from kind file limits fuel key next (depth + 1) v')
          (λ v' r k h. find_cached-find_from fuel key r (depth + 1) v' k h) (enter ref depth v)
          (read_through ref cache) cache (read kind file limits ref.index) e c' c)

  -- From a coherent cache, a lookup through the cache gives the answer of a lookup that reads every
  -- page afresh, the errors included, and leaves a coherent cache.
  pub find_key_cached-find_key :
      (root : PageRef) (key : ℕ) (cache : PageCache E)
      → IsCoherent cache
      → ((find_key_cached root key cache).0 ≡ find_key kind file limits root key)
        × IsCoherent (find_key_cached root key cache).1
  unfolding find_key_cached find_key SameAnswer
  find_key_cached-find_key root key cache c =
      find_cached-find_from (limits.max_btree_depth + 2) key root 0 (visited_set limits.max_items)
        cache c
