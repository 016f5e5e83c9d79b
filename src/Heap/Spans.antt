-- ===== src/Heap/Spans.antt =====
-- What a page map that parses says: the items' spans lie in the block, in order.
use pypst_reader.Prelude.{
  ℕ, zero, suc, ◌+◌, ◌*◌, ◌≤◌, ◌<◌, ◌≡◌, sym, ap, arith, true, List, [], ◌∷◌, length, ltb, leb,
  ◌==◌, if◌then◌else◌, Option, get_or, Bool-cases, inl, inr, leb→le, ==_iff,
}
use mathlib.Core.Path.{subst}
use pypst_reader.Error.{Result, ok, err, format, require, >>=-eq-ok, require-eq-ok, ok-injective}
use pypst_reader.Bytes.{Bytes, u16, need}
use pypst_reader.Heap.PageMap.{
  HeapPageMap, count, offset_at, block_header, words, scan, scan_all, parse_page_map,
}

-- Each offset is at least the one before it.
abbrev pub Ascending : List ℕ → Type 0
Ascending [] = Unit
Ascending (a ∷ []) = Unit
Ascending (a ∷ b ∷ r) = (a ≤ b) × Ascending (b ∷ r)

abbrev pub zero_steps : List ℕ → ℕ
zero_steps [] = 0
zero_steps (a ∷ []) = 0
zero_steps (a ∷ b ∷ r) = (if b == a then 1 else 0) + zero_steps (b ∷ r)

abbrev pub last_of : ℕ → List ℕ → ℕ
last_of a [] = a
last_of a (b ∷ r) = last_of b r

scan_lem :
    (rest : List ℕ) (last freed : ℕ) (l f : ℕ)
    → scan last freed rest ≡ ok (l, f)
    → Ascending (last ∷ rest) × (l ≡ last_of last rest) × (f ≡ freed + zero_steps (last ∷ rest))
unfolding scan
scan_lem [] last freed l f h =
    let p : last ≡ l = ap (λ (t : ℕ × ℕ). t.0) (ok-injective h) in
    let q : freed ≡ f = ap (λ (t : ℕ × ℕ). t.1) (ok-injective h) in (tt, sym p, omega arith)
scan_lem (o ∷ rest) last freed l f h = elim (Bool-cases (ltb o last)) [
  | inl bad ↦ absurd (never (rw bad at h))
  | inr good ↦
      let (up, end, free) =
        scan_lem rest o (if o == last then freed + 1 else freed) l f (rw good at h) in
      ((ground arith, up), end, ground arith)
]
  where
    never : ◌≡◌ {A = Result (ℕ × ℕ)} (err format) (ok (l, f)) → ⊥
    never e = cc

last_bounds :
    (rest : List ℕ) (a i : ℕ)
    → Ascending (a ∷ rest)
    → i ≤ length rest
    → get_or (a ∷ rest) i 0 ≤ last_of a rest
last_bounds [] a zero u h = omega arith
last_bounds [] a (suc i) u h = elim h [ ]
last_bounds (b ∷ rest) a zero (p, u) h = omega (arith, last_bounds rest b 0 u (omega arith))
last_bounds (b ∷ rest) a (suc i) (p, u) h = last_bounds rest b i u (omega arith)

step_up :
    (rest : List ℕ) (a i : ℕ)
    → Ascending (a ∷ rest)
    → i < length rest
    → get_or (a ∷ rest) i 0 ≤ get_or (a ∷ rest) (suc i) 0
step_up [] a i u h = elim h [ ]
step_up (b ∷ rest) a zero (p, u) h = p
step_up (b ∷ rest) a (suc i) (p, u) h = step_up rest b i u (omega arith)

pub record IsMap (size : ℕ) (m : HeapPageMap) : Type 0 where
  pub ordered : (i : ℕ) → i < count m → offset_at m i ≤ offset_at m (suc i)
  pub inside : (i : ℕ) → i ≤ count m → offset_at m i ≤ size
  pub freed : m.free_count ≡ zero_steps m.offsets

scan_all-IsMap :
    (offsets : List ℕ) (free : ℕ) (levels : Option (List ℕ)) (size l f : ℕ)
    → scan_all offsets ≡ ok (l, f)
    → l ≤ size
    → f ≡ free
    → IsMap size (record { offsets = offsets; free_count = free; fill_levels = levels })
unfolding scan_all count offset_at
scan_all-IsMap [] free levels size l f h le e = absurd (never h)
  where
    never : ◌≡◌ {A = Result (ℕ × ℕ)} (err format) (ok (l, f)) → ⊥
    never e = cc
scan_all-IsMap (a ∷ rest) free levels size l f h le e =
    let (up, end, zeros) = scan_lem rest a 0 l f h in
    record {
      ordered = λ i lt. step_up rest a i up (omega arith);
      inside = λ i hi. omega (arith, last_bounds rest a i up (omega arith), end);
      freed = omega arith;
    }

-- In a page map that parses, each item ends where the next starts or before, no item ends past the
-- block, and `cFree` is the number of items of length 0.
pub parse_page_map-IsMap :
    (block_index : ℕ) (block : Bytes) (m : HeapPageMap)
    → parse_page_map block_index block ≡ ok m
    → IsMap (length block) m
unfolding parse_page_map
parse_page_map-IsMap block_index block m h =
    let (header, h1, k1) = >>=-eq-ok (block_header block_index block) _ h in
    let (_, h2, k2) = >>=-eq-ok (need 4 block header.0) _ k1 in
    let (_, h3, k3) = >>=-eq-ok (need (2 * (u16 block header.0 + 1)) block (header.0 + 4)) _ k2 in
    let offsets = words block (u16 block header.0 + 1) (header.0 + 4) in
    let (ends, h4, k4) = >>=-eq-ok (scan_all offsets) _ k3 in
    let (_, h5, k5) = >>=-eq-ok (require (leb ends.0 (length block)) format) _ k4 in
    let (_, h6, k6) = >>=-eq-ok (require (ends.1 == u16 block (header.0 + 2)) format) _ k5 in
    let b5 : leb ends.0 (length block) ≡ true = require-eq-ok _ _ h5 in
    let b6 : (ends.1 == u16 block (header.0 + 2)) ≡ true = require-eq-ok _ _ h6 in
    subst (IsMap (length block)) (ok-injective k6) (
      scan_all-IsMap offsets (u16 block (header.0 + 2)) header.1 (length block) ends.0 ends.1 h4
        (leb→le _ _ b5) ((==_iff _ _).0 b6))
