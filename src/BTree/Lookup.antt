-- ===== src/BTree/Lookup.antt =====
-- What a lookup returns: an entry of the tree, under the key asked for.
use mathlib.Core.Path.{subst}
use pypst_reader.Prelude.{
  ℕ, zero, suc, ◌+◌, ◌-◌, ◌/◌, ◌≤◌, ◌<◌, ◌≡◌, refl, sym, arith, ap, List, [], ◌∷◌, length, map, ltb,
  ◌==◌, Option, none, some, get_elem?, get_or, Bool-cases, ◌⊎◌, inl, inr,
}
use pypst_reader.Error.{Result, ok, err, not_found, >>=-eq-ok, ok-injective}
use pypst_reader.Error.Settles.{Settles}
use pypst_reader.Bytes.{Bytes}
use pypst_reader.Limits.{Limits, VisitedSet, visited_set}
use pypst_reader.Ids.Refs.{PageRef}
use pypst_reader.Page.Entries.{IntermediateEntry}
use pypst_reader.Page.{LeafKind, PageEntries, intermediate, leaf, BTreePage}
use pypst_reader.BTree.{
  bisect, bisect_right, child_at, choose, entry_key, read, child, find_leaf, search_page, find_from,
  find_key,
}
use pypst_reader.BTree.Bounded.{child-Entered}

-- An element of a list.
pub data In {A : Type 0} (a : A) : List A → Type 0 where
  here : (xs : List A) → In a (a ∷ xs)
  there : (x : A) (xs : List A) → In a xs → In a (x ∷ xs)

In-get_elem? : {A : Type 0} (xs : List A) (i : ℕ) {a : A} → get_elem? xs i ≡ some a → In a xs
In-get_elem? [] i h = cc
In-get_elem? (x ∷ xs) zero {a} h = let e : x ≡ a = cc in subst (λ t. In t (x ∷ xs)) e (here xs)
In-get_elem? (x ∷ xs) (suc i) h = there x xs (In-get_elem? xs i h)

-- `bisect_right` on any keys, ordered or not: it is no further than the end, the key before the
-- position is at most the key sought, and the key at it is above.
abbrev pub Splits : List ℕ → ℕ → ℕ → Type 0
Splits keys key at =
    (at ≤ length keys)
    × (0 < at → get_or keys (at - 1) 0 ≤ key)
    × (at < length keys → key < get_or keys at 0)

bisect-Splits :
    (fuel : ℕ) (keys : List ℕ) (key lo hi : ℕ)
    → hi ≤ fuel + lo
    → lo ≤ hi
    → hi ≤ length keys
    → (0 < lo → get_or keys (lo - 1) 0 ≤ key)
    → (hi < length keys → key < get_or keys hi 0)
    → Splits keys key (bisect fuel keys key lo hi)
unfolding bisect
bisect-Splits zero keys key lo hi f le end below above =
    let e : hi ≡ lo = omega arith in
    (omega arith, below, λ h. subst (λ (t : ℕ). key < get_or keys t 0) e (above (omega arith)))
bisect-Splits (suc fuel) keys key lo hi f le end below above = elim (Bool-cases (ltb lo hi)) [
  | inl more ↦ rw more (elim (Bool-cases (ltb key (get_or keys ((lo + hi) / 2) 0))) [
    | inl down ↦ rw down (
        bisect-Splits fuel keys key lo ((lo + hi) / 2) (ground arith) (ground arith) (ground arith)
          below (λ h. ground arith))
    | inr up ↦ rw up (
        bisect-Splits fuel keys key ((lo + hi) / 2 + 1) hi (ground arith) (ground arith) end
          (λ h.
            let e : (lo + hi) / 2 + 1 - 1 ≡ (lo + hi) / 2 = omega arith in
            subst (λ (t : ℕ). get_or keys t 0 ≤ key) (sym e) (ground arith))
          above)
  ])
  | inr stop ↦
      let e : hi ≡ lo = ground arith in
      rw stop
        (omega arith, below, λ h. subst (λ (t : ℕ). key < get_or keys t 0) e (above (omega arith)))
]

pub bisect_right-Splits : (keys : List ℕ) (key : ℕ) → Splits keys key (bisect_right keys key)
unfolding bisect_right
bisect_right-Splits keys key =
    bisect-Splits (length keys) keys key 0 (length keys) (omega arith) (omega arith) (omega arith)
      (λ h. elim h [ ]) (λ h. absurd (omega arith))

child_at-In :
    (es : List IntermediateEntry) (n : ℕ) {c : IntermediateEntry} → child_at es n ≡ some c → In c es
unfolding child_at
child_at-In es zero h = cc
child_at-In es (suc n) h = In-get_elem? es n h

get_or-map :
    (es : List IntermediateEntry) (n : ℕ) {c : IntermediateEntry}
    → get_elem? es n ≡ some c
    → get_or (map entry_key es) n 0 ≡ c.key
get_or-map [] n h = cc
get_or-map (x ∷ es) zero {c} h = let e : x ≡ c = cc in ap entry_key e
get_or-map (x ∷ es) (suc n) h = get_or-map es n h

chosen_key :
    (es : List IntermediateEntry) (key at : ℕ) {c : IntermediateEntry}
    → Splits (map entry_key es) key at
    → child_at es at ≡ some c
    → c.key ≤ key
unfolding child_at
chosen_key es key zero sp h = cc
chosen_key es key (suc n) (le, below, above) h =
    let e : suc n - 1 ≡ n = omega arith in
    let b : get_or (map entry_key es) n 0 ≤ key =
      subst (λ (t : ℕ). get_or (map entry_key es) t 0 ≤ key) e (below (omega arith)) in
    omega (arith, get_or-map es n h, b)

-- The chosen child is one of the page's entries, and its key is at most the key sought.
pub choose-In :
    (es : List IntermediateEntry) (key : ℕ) {c : IntermediateEntry}
    → choose es key ≡ some c
    → In c es × (c.key ≤ key)
unfolding choose
choose-In es key h = (
  child_at-In es (bisect_right (map entry_key es) key) h,
  chosen_key es key (bisect_right (map entry_key es) key)
      (bisect_right-Splits (map entry_key es) key) h,
)

module _ {E : Type 0} (kind : LeafKind E) (unpack : (b : Bytes) (o : ℕ) → Settles (kind.unpack b o))
    (file : Bytes) (limits : Limits) where
  -- `e` is a leaf entry of the tree whose root page is at `ref`.
  pub data InTree : PageRef → E → Type 0 where
    in_leaf :
        (ref : PageRef) (page : BTreePage E) (es : List E) (e : E)
        → read kind file limits ref.index ≡ ok page
        → page.entries ≡ leaf es
        → In e es
        → InTree ref e
    in_child :
        (ref : PageRef) (page : BTreePage E) (es : List IntermediateEntry) (c : IntermediateEntry)
        (e : E)
        → read kind file limits ref.index ≡ ok page
        → page.entries ≡ intermediate es
        → In c es
        → InTree c.ref e
        → InTree ref e

  find_leaf-In :
      (key : ℕ) (es : List E) (e : E)
      → find_leaf kind file limits key es ≡ ok e
      → In e es × (kind.key e ≡ key)
  unfolding find_leaf
  find_leaf-In key [] e h = cc
  find_leaf-In key (x ∷ es) e h = elim (Bool-cases (kind.key x == key)) [
    | inl same ↦
        let found : x ≡ e = ok-injective (rw same at h) in
        let k : kind.key x ≡ key = ground arith in
        subst (λ t. In t (x ∷ es) × (kind.key t ≡ key)) found (here es, k)
    | inr other ↦ let (i, k) = find_leaf-In key es e (rw other at h) in (there x es i, k)
  ]

  find_from-InTree :
      (fuel key : ℕ) (ref : PageRef) (depth : ℕ) (v : VisitedSet) (e : E)
      → find_from kind file limits fuel key ref depth v ≡ ok e
      → InTree ref e × (kind.key e ≡ key)
  unfolding find_from search_page
  find_from-InTree zero key ref depth v e h = cc
  find_from-InTree (suc fuel) key ref depth v e h =
      let (pv, h1, h2) = >>=-eq-ok (child kind file limits ref depth v) _ h in
      let en = child-Entered kind unpack file limits ref depth v pv.1 pv.0 h1 in
      on_page pv.0 en.page_read pv.0.entries refl
        (λ next. find_from kind file limits fuel key next (depth + 1) pv.1)
        (λ next found. find_from-InTree fuel key next (depth + 1) pv.1 e found) h2
    where
      on_page :
          (page : BTreePage E)
          → read kind file limits ref.index ≡ ok page
          → (es : PageEntries E) → page.entries ≡ es
          → (next : PageRef → Result E)
          → ((r : PageRef) → next r ≡ ok e → InTree r e × (kind.key e ≡ key))
          → search_page kind file limits key es next ≡ ok e
          → InTree ref e × (kind.key e ≡ key)
      on_page page r (leaf es) q next ih found =
          let (i, k) = find_leaf-In key es e found in (in_leaf ref page es e r q i, k)
      on_page page r (intermediate es) q next ih found = chosen (choose es key) refl found
        where
          chosen :
              (o : Option IntermediateEntry)
              → choose es key ≡ o
              → (elim o [ none ↦ err not_found | some entry ↦ next entry.ref ]) ≡ ok e
              → InTree ref e × (kind.key e ≡ key)
          chosen none c g = cc
          chosen (some c) p g =
              let (below, k) = ih c.ref g in
              (in_child ref page es c e r q (choose-In es key p).0 below, k)

  -- What a lookup returns has the key that was asked for, and stands in a leaf page that is
  -- reached from the root through intermediate entries.
  pub find_key-InTree :
      (root : PageRef) (key : ℕ) (e : E)
      → find_key kind file limits root key ≡ ok e
      → InTree root e × (kind.key e ≡ key)
  unfolding find_key
  find_key-InTree root key e h =
      find_from-InTree (limits.max_btree_depth + 2) key root 0 (visited_set limits.max_items) e h

-- On any keys, in order or not, the position is within the list; it is 0 or the key before it is at
-- most the key sought; and it is the end or the key at it is greater.
pub bisect_right_position :
    (keys : List ℕ) (key : ℕ)
    → (bisect_right keys key ≤ length keys)
      × ((bisect_right keys key ≡ 0) ⊎ (get_or keys (bisect_right keys key - 1) 0 ≤ key))
      × ((bisect_right keys key ≡ length keys) ⊎ (key < get_or keys (bisect_right keys key) 0))
bisect_right_position keys key =
    let (within, before, after) = bisect_right-Splits keys key in
    (
      within,
      elim (Bool-cases (bisect_right keys key == 0)) [
        | inl first ↦ inl (ground arith)
        | inr later ↦ inr (before (ground arith))
      ],
      elim (Bool-cases (bisect_right keys key == length keys)) [
        | inl last ↦ inl (ground arith)
        | inr earlier ↦ inr (after (ground arith))
      ],
    )
