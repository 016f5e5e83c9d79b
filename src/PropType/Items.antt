-- ===== src/PropType/Items.antt =====
-- The items of a variable-size multi-value: pieces that lie end to end.
use pypst_reader.Prelude.{
  ℕ, zero, suc, ◌+◌, ◌-◌, ◌*◌, ◌≤◌, ◌≡◌, refl, sym, ap, ◌∙◌, arith, true, ◌&&◌, List, [], ◌∷◌, ◌++◌,
  leb, ◌==◌, length, take, drop, take_all, drop-drop, length-drop, take-append-drop, ◌⊎◌, inl, inr,
  ==_iff,
}
use mathlib.Core.List.{append-nil}
use pypst_reader.Error.{ok, format, require, >>=-eq-ok, require-eq-ok, ok-injective}
use pypst_reader.Bytes.{Bytes, slice, u32}
use pypst_reader.Block.Walks.{join}
use pypst_reader.PropType.Multi.{
  item_between, cut, cut_all, offsets, mv_variable_items, check_count,
}

abbrev first_offset : List ℕ → ℕ
first_offset [] = 0
first_offset (a ∷ r) = a

item_between-eq-ok :
    (bs : Bytes) (start end : ℕ) (item : Bytes)
    → item_between bs start end ≡ ok item
    → (start ≤ end) × (end ≤ length bs) × (item ≡ slice bs start (end - start))
unfolding item_between
item_between-eq-ok bs start end item h =
    let (u, h1, h2) = >>=-eq-ok (require (leb start end && leb end (length bs)) format) _ h in
    let test : (leb start end && leb end (length bs)) ≡ true = require-eq-ok _ _ h1 in
    (ground arith, ground arith, sym (ok-injective h2))

-- A piece, and the bytes after it.
slice-drop :
    (bs : Bytes) (start end : ℕ)
    → start ≤ end
    → slice bs start (end - start) ++ drop end bs ≡ drop start bs
unfolding slice
slice-drop bs start end le =
    let e : end ≡ start + (end - start) = omega arith in
    ap (λ n. take (end - start) (drop start bs) ++ drop n bs) e
    ∙ ap (λ t. take (end - start) (drop start bs) ++ t) (sym (drop-drop (end - start) start bs))
    ∙ take-append-drop (end - start) (drop start bs)

cut_lem :
    (bs : Bytes) (start : ℕ) (rest : List ℕ) (items : List Bytes)
    → cut bs (start ∷ rest) ≡ ok items
    → (join items ≡ drop start bs) × (length items ≡ suc (length rest))
unfolding cut join
cut_lem bs start [] items h =
    let (item, h1, h2) = >>=-eq-ok (item_between bs start (length bs)) _ h in
    let (le, _, same) = item_between-eq-ok bs start (length bs) item h1 in
    let shape : items ≡ item ∷ [] = sym (ok-injective h2) in
    (
      ap join shape
          ∙ append-nil item
          ∙ same
          ∙ unfold slice in
            (take_all (length bs - start) (drop start bs) (omega (arith, length-drop start bs))),
      ap length shape,
    )
cut_lem bs start (end ∷ rest) items h =
    let (item, h1, h2) = >>=-eq-ok (item_between bs start end) _ h in
    let (others, h3, h4) = >>=-eq-ok (cut bs (end ∷ rest)) _ h2 in
    let (le, _, same) = item_between-eq-ok bs start end item h1 in
    let (tiled, count) = cut_lem bs end rest others h3 in
    let shape : items ≡ item ∷ others = sym (ok-injective h4) in
    (
      ap join shape
          ∙ ap (λ t. t ++ join others) same
          ∙ ap (λ t. slice bs start (end - start) ++ t) tiled
          ∙ slice-drop bs start end le,
      ap length shape ∙ ap suc count,
    )

length-offsets : (bs : Bytes) (count at : ℕ) → length (offsets bs count at) ≡ count
unfolding offsets
length-offsets bs zero at = refl
length-offsets bs (suc count) at = ap suc (length-offsets bs count (at + 4))

cut_all_lem :
    (bs : Bytes) (offs : List ℕ) (table_end : ℕ) (items : List Bytes)
    → cut_all bs offs table_end ≡ ok items
    → (length items ≡ length offs) × ((length items ≡ 0) ⊎ (join items ≡ drop table_end bs))
unfolding cut_all
cut_all_lem bs [] table_end items h =
    let shape : items ≡ [] = sym (ok-injective h) in (ap length shape, inl (ap length shape))
cut_all_lem bs (first ∷ rest) table_end items h =
    let (u, h1, h2) = >>=-eq-ok (require (first == table_end) format) _ h in
    let at : first ≡ table_end = (==_iff _ _).0 (require-eq-ok _ _ h1) in
    let (tiled, count) = cut_lem bs first rest items h2 in
    (count, inr (tiled ∙ ap (λ n. drop n bs) at))

pub check_count-le : (count most : ℕ) {u : Unit {0}} → check_count count most ≡ ok u → count ≤ most
unfolding check_count
check_count-le count most h = ground arith

-- The items of a variable-size multi-value are as many as its count says, `max_items` at most.
-- Unless there are none, end to end they are the bytes behind the table of offsets, so that no byte
-- is lost or read twice; what follows a count of 0 is ignored.
pub mv_variable_items_exact :
    (bs : Bytes) (max_items : ℕ) (items : List Bytes)
    → mv_variable_items bs max_items ≡ ok items
    → (length items ≡ u32 bs 0)
      × (length items ≤ max_items)
      × ((length items ≡ 0) ⊎ (join items ≡ drop (4 * (u32 bs 0 + 1)) bs))
unfolding mv_variable_items
mv_variable_items_exact bs max_items items h =
    let (_, _, h1) = >>=-eq-ok (require (leb 4 (length bs)) format) _ h in
    let (_, few, h2) = >>=-eq-ok (check_count (u32 bs 0) max_items) _ h1 in
    let (_, _, h3) = >>=-eq-ok (require (leb (4 * (u32 bs 0 + 1)) (length bs)) format) _ h2 in
    let (count, tiled) = cut_all_lem bs (offsets bs (u32 bs 0) 4) (4 * (u32 bs 0 + 1)) items h3 in
    let n = length-offsets bs (u32 bs 0) 4 in
    (count ∙ n, omega (arith, count, n, check_count-le (u32 bs 0) max_items few), tiled)
