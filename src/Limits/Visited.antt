-- ===== src/Limits/Visited.antt =====
-- `VisitedSet.add` as a walk uses it: the keys seen, and the room left.
use pypst_reader.Prelude.{
  ℕ, ◌≤◌, ◌<◌, ◌≡◌, arith, true, false, Bool-cases, inl, inr, ◌⊎◌, leb, List, [], ◌∷◌, length,
}
use pypst_reader.Error.{ok, err, stuck, limit}
use pypst_reader.Limits.{VisitedSet, contains, add, visited_set}

-- No key occurs twice.
abbrev pub Distinct : List ℕ → Type 0
Distinct [] = Unit
Distinct (k ∷ ks) = (contains ks k ≡ false) × Distinct ks

pub record IsWellFormed (v : VisitedSet) : Type 0 where
  pub distinct : Distinct v.seen
  pub bounded : length v.seen ≤ v.ceiling

pub visited_set-IsWellFormed : (ceiling : ℕ) → IsWellFormed (visited_set ceiling)
unfolding visited_set
visited_set-IsWellFormed ceiling = record { distinct = tt; bounded = omega arith }

pub record Added (v : VisitedSet) (key : ℕ) (v' : VisitedSet) : Type 0 where
  pub fresh : contains v.seen key ≡ false
  pub room : length v.seen < v.ceiling
  pub seen : v'.seen ≡ key ∷ v.seen
  pub ceiling : v'.ceiling ≡ v.ceiling

-- `add` succeeds only on a fresh key with room left, and then it records that key and nothing else.
pub add-Added : (v : VisitedSet) (key : ℕ) {v' : VisitedSet} → add v key ≡ ok v' → Added v key v'
unfolding add
add-Added v key h = ground arith

pub add-ne-stuck : (v : VisitedSet) (key : ℕ) → add v key ≡ stuck → ⊥
unfolding add
add-ne-stuck v key h = ground arith

-- A key is taken exactly if it is fresh and there is room left; every other key, one seen before or
-- one past the ceiling, is refused with a limit error.
pub add_exact :
    (v : VisitedSet) (key : ℕ)
    → ((contains v.seen key ≡ false)
        × (length v.seen < v.ceiling)
        × (add v key ≡ ok (record v { seen = key ∷ v.seen })))
      ⊎ (((contains v.seen key ≡ true) ⊎ (v.ceiling ≤ length v.seen)) × (add v key ≡ err limit))
unfolding add
add_exact v key = elim (Bool-cases (contains v.seen key)) [
  | inl seen ↦ inr (inl seen, ground arith)
  | inr fresh ↦ elim (Bool-cases (leb v.ceiling (length v.seen))) [
    | inl full ↦ inr (inr (ground arith), ground arith)
    | inr room ↦ inl (fresh, ground arith, ground arith)
  ]
]

-- A key that is taken keeps the set well-formed: its keys are distinct, and at most the ceiling.
pub add-IsWellFormed :
    (v : VisitedSet) (key : ℕ) {v' : VisitedSet}
    → IsWellFormed v
    → add v key ≡ ok v'
    → IsWellFormed v'
unfolding add
add-IsWellFormed v key w h = ground arith
