-- ===== src/TableContext/Starts.antt =====
-- The starts of the blocks of a row matrix, and the block in which a row lies.
use mathlib.Core.Path.{subst}
use pypst_reader.Prelude.{
  ℕ, zero, suc, ◌+◌, ◌-◌, ◌*◌, ◌/◌, ◌≤◌, ◌<◌, ◌≡◌, refl, sym, ap, ◌∙◌, arith, List, [], ◌∷◌, ◌++◌,
  length, length-append, take, drop, drop-drop, ◌==◌, some, get_or, get_elem?,
  get_elem?-append_left, get_elem?-append_right, Bool-cases, inl, inr,
}
use pypst_reader.Error.{ok, >>=-eq-ok, ok-injective}
use pypst_reader.Bytes.{Bytes, slice}
use pypst_reader.TableContext.RowMatrix.{row_count_of, row_counts, starts_from}

-- `count` rows of `width` bytes.
abbrev pub cut_rows : ℕ → ℕ → Bytes → List Bytes
cut_rows width zero b = []
cut_rows width (suc count) b = take width b ∷ cut_rows width count (drop width b)

-- The rows of all blocks: what is left over at a block's end is in none.
abbrev pub rows_of : ℕ → List Bytes → List Bytes
rows_of width [] = []
rows_of width (b ∷ blocks) = cut_rows width (length b / width) b ++ rows_of width blocks

length-cut_rows : (width count : ℕ) (b : Bytes) → length (cut_rows width count b) ≡ count
length-cut_rows width zero b = refl
length-cut_rows width (suc count) b = ap suc (length-cut_rows width count (drop width b))

get_elem?-cut_rows :
    (width count : ℕ) (b : Bytes) (i : ℕ)
    → i < count
    → get_elem? (cut_rows width count b) i ≡ some (slice b (i * width) width)
unfolding slice
get_elem?-cut_rows width zero b i h = absurd (omega arith)
get_elem?-cut_rows width (suc count) b zero h =
    let e : 0 * width ≡ 0 = omega arith in ap (λ (k : ℕ). some (take width (drop k b))) (sym e)
get_elem?-cut_rows width (suc count) b (suc i) h =
    let e : width + i * width ≡ suc i * width = omega arith in
    get_elem?-cut_rows width count (drop width b) i (omega arith)
    ∙ ap (λ t. some (take width t)) (drop-drop (i * width) width b)
    ∙ ap (λ (k : ℕ). some (take width (drop k b))) e

pub get_or-starts_from : (n : ℕ) (counts : List ℕ) → get_or (starts_from n counts) 0 0 ≡ n
unfolding starts_from
get_or-starts_from n [] = refl
get_or-starts_from n (c ∷ counts) = refl

-- A block that has a start after its own starts no earlier than the first.
starts_from-le :
    (n : ℕ) (counts : List ℕ) (k : ℕ)
    → 0 < get_or (starts_from n counts) (suc k) 0
    → n ≤ get_or (starts_from n counts) k 0
unfolding starts_from
starts_from-le n [] k h = absurd (omega arith)
starts_from-le n (c ∷ counts) zero h = omega arith
starts_from-le n (c ∷ counts) (suc k) h = omega (arith, starts_from-le (n + c) counts k h)

pub length-starts_from :
    (n : ℕ) (counts : List ℕ) → length (starts_from n counts) ≡ suc (length counts)
unfolding starts_from
length-starts_from n [] = refl
length-starts_from n (c ∷ counts) = ap suc (length-starts_from (n + c) counts)

row_count_of_lem :
    (width : ℕ) (b : Bytes) {n : ℕ} → row_count_of width b ≡ ok n → length b / width ≡ n
unfolding row_count_of
row_count_of_lem width b h = elim (Bool-cases (width == 0)) [
  | inl zero_width ↦ absurd (grind (arith, zero_width, h))
  | inr wide ↦ ok-injective (rw wide at h)
]

pub row_counts-cons :
    (width : ℕ) (b : Bytes) (blocks : List Bytes) (counts : List ℕ)
    → row_counts width (b ∷ blocks) ≡ ok counts
    → (rest : List ℕ) × (row_counts width blocks ≡ ok rest) × (length b / width ∷ rest ≡ counts)
unfolding row_counts
row_counts-cons width b blocks counts h =
    let (n, at, h1) = >>=-eq-ok (row_count_of width b) _ h in
    let (rest, others, h2) = >>=-eq-ok (row_counts width blocks) _ h1 in
    (rest, others, ap (λ k. k ∷ rest) (row_count_of_lem width b at) ∙ ok-injective h2)

pub get_or-starts_from_end :
    (width n : ℕ) (blocks : List Bytes) (counts : List ℕ)
    → row_counts width blocks ≡ ok counts
    → get_or (starts_from n counts) (length counts) 0 ≡ n + length (rows_of width blocks)
unfolding row_counts starts_from
get_or-starts_from_end width n [] counts h =
    subst (λ cs. get_or (starts_from n cs) (length cs) 0 ≡ n + 0) (ok-injective h) (omega arith)
get_or-starts_from_end width n (b ∷ blocks) counts h =
    let (rest, others, e) = row_counts-cons width b blocks counts h in
    let here = cut_rows width (length b / width) b in
    let shift = get_or-starts_from_end width (n + length b / width) blocks rest others in
    let size = length-append here (rows_of width blocks) in
    let front = length-cut_rows width (length b / width) b in
    subst (λ cs. get_or (starts_from n cs) (length cs) 0 ≡ n + length (rows_of width (b ∷ blocks)))
      e (shift ∙ omega (arith, size, front))

-- If `index` lies in block `k`, then its row is there.
abbrev pub Located : ℕ → ℕ → List Bytes → List ℕ → ℕ → ℕ → Type 0
Located width n blocks counts index k =
    get_or (starts_from n counts) k 0 ≤ index
    → index < get_or (starts_from n counts) (suc k) 0
    → get_elem? (rows_of width blocks) (index - n)
      ≡ some
          (slice (get_or blocks k []) ((index - get_or (starts_from n counts) k 0) * width) width)

cons-Located :
    (width n : ℕ) (b : Bytes) (blocks : List Bytes) (rest : List ℕ) (index k : ℕ)
    → ((k : ℕ) → Located width (n + length b / width) blocks rest index k)
    → Located width n (b ∷ blocks) (length b / width ∷ rest) index k
unfolding starts_from
cons-Located width n b blocks rest index zero later low high =
    let front = length-cut_rows width (length b / width) b in
    let at_head = get_or-starts_from (n + length b / width) rest in
    get_elem?-append_left (cut_rows width (length b / width) b) (rows_of width blocks) (index - n)
      (omega (arith, front, at_head))
    ∙ get_elem?-cut_rows width (length b / width) b (index - n) (omega (arith, at_head))
cons-Located width n b blocks rest index (suc k) later low high =
    let here = cut_rows width (length b / width) b in
    let past = starts_from-le (n + length b / width) rest k (omega arith) in
    let e : index - n ≡ length here + (index - (n + length b / width)) =
      omega (arith, length-cut_rows width (length b / width) b, past) in
    ap (λ (i : ℕ). get_elem? (here ++ rows_of width blocks) i) e
    ∙ get_elem?-append_right here (rows_of width blocks) (index - (n + length b / width))
    ∙ later k low high

pub blocks-Located :
    (width n : ℕ) (blocks : List Bytes) (counts : List ℕ) (index : ℕ)
    → row_counts width blocks ≡ ok counts
    → (k : ℕ) → Located width n blocks counts index k
unfolding row_counts starts_from
blocks-Located width n [] counts index h k =
    subst (λ cs. Located width n [] cs index k) (ok-injective h) (λ low high. absurd (omega arith))
blocks-Located width n (b ∷ blocks) counts index h k =
    let (rest, others, e) = row_counts-cons width b blocks counts h in
    subst (λ cs. Located width n (b ∷ blocks) cs index k) e
      (cons-Located width n b blocks rest index k
        (λ j. blocks-Located width (n + length b / width) blocks rest index others j))
