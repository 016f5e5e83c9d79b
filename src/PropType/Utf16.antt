-- ===== src/PropType/Utf16.antt =====
-- Where a UTF-16 value ends: the search over bytes against the units.
use pypst_reader.Prelude.{
  ℕ, zero, suc, ◌+◌, ◌%◌, ◌≤◌, ◌≡◌, refl, sym, ap, ◌∙◌, arith, true, false, ◌&&◌, [], ◌∷◌, ◌++◌,
  ◌==◌, length, length-append, take, drop, drop-append, take-append_add, take-append-drop,
  length-take, length-drop, ==_iff, if◌then◌else◌, Option, none, some, Bool-cases, ◌⊎◌, inl, inr,
}
use mathlib.Core.Option
use mathlib.Core.List.{append_assoc}
use mathlib.Core.Path.{subst}
use pypst_reader.Bytes.{Bytes}
use pypst_reader.PropType.Text.{find_double, truncate}

-- The units before the first zero unit, two bytes at a time.
unfoldable pub units_before : Bytes → Bytes
units_before [] = []
units_before (a ∷ []) = a ∷ []
units_before (a ∷ b ∷ rest) = if a == 0 && b == 0 then [] else a ∷ b ∷ units_before rest

-- What the search's answer says of the units: nothing found, a unit at an even place, or, at an odd
-- place, that no unit up to there is zero.
abbrev Found : Option ℕ → Bytes → Type 0
Found none bs = units_before bs ≡ bs
Found (some k) bs =
    (suc (suc k) ≤ length bs)
    × (((k % 2 ≡ 0) × (units_before bs ≡ take k bs))
        ⊎ ((k % 2 ≡ 1) × (units_before bs ≡ take (suc k) bs ++ units_before (drop (suc k) bs))))

abbrev up : ℕ → ℕ
up k = k + 1

two_on :
    (a b : ℕ) (bs : Bytes) (o : Option ℕ)
    → (a == 0 && b == 0) ≡ false
    → Found o bs
    → Found (Option.map up (Option.map up o)) (a ∷ b ∷ bs)
unfolding units_before
two_on a b bs none nz f = rw nz (ap (λ t. a ∷ b ∷ t) f)
two_on a b bs (some k) nz (le, inl (even, e)) =
    subst (λ (n : ℕ). Found (some n) (a ∷ b ∷ bs)) (two k)
      (omega arith, inl (omega arith, rw nz (ap (λ t. a ∷ b ∷ t) e)))
  where
    two : (k : ℕ) → suc (suc k) ≡ k + 1 + 1
    two k = omega arith
two_on a b bs (some k) nz (le, inr (odd, e)) =
    subst (λ (n : ℕ). Found (some n) (a ∷ b ∷ bs)) (two k)
      (omega arith, inr (omega arith, rw nz (ap (λ t. a ∷ b ∷ t) e)))
  where
    two : (k : ℕ) → suc (suc k) ≡ k + 1 + 1
    two k = omega arith

at_zero : (a b : ℕ) (bs : Bytes) → (a == 0 && b == 0) ≡ true → Found (some 0) (a ∷ b ∷ bs)
unfolding units_before
at_zero a b bs z = (omega arith, inl (refl, rw z))

at_one : (a b c : ℕ) (bs : Bytes) → (a == 0 && b == 0) ≡ false → Found (some 1) (a ∷ b ∷ c ∷ bs)
unfolding units_before
at_one a b c bs nz = (omega arith, inr (refl, rw nz))

-- What the search finds from the front of some bytes, for the units of those bytes.
find_double-Found : (bs : Bytes) → Found (find_double bs) bs
unfolding find_double
find_double-Found [] = unfold units_before in refl
find_double-Found (a ∷ []) = unfold units_before in refl
find_double-Found (a ∷ b ∷ []) = elim (Bool-cases (a == 0 && b == 0)) [
  | inl z ↦ rw z (at_zero a b [] z)
  | inr nz ↦ rw nz (unfold units_before in (rw nz))
]
find_double-Found (a ∷ b ∷ c ∷ rest) = elim (Bool-cases (a == 0 && b == 0)) [
  | inl z ↦ rw z (at_zero a b (c ∷ rest) z)
  | inr nz ↦ elim (Bool-cases (b == 0 && c == 0)) [
    | inl z ↦ rw (nz, z) (at_one a b c rest nz)
    | inr nz2 ↦
        rw (nz, nz2)
          (two_on a b (c ∷ rest) (find_double (c ∷ rest)) nz (find_double-Found (c ∷ rest)))
  ]
]

-- The rest of the loop after a search from `length pre`.
after_search :
    (fuel : ℕ) (pre suf : Bytes) (o : Option ℕ)
    → length pre % 2 ≡ 0
    → length suf ≤ suc fuel
    → Found o suf
    → ((pre' suf' : Bytes)
        → length pre' % 2 ≡ 0
        → length suf' ≤ fuel
        → truncate fuel (pre' ++ suf') (length pre') ≡ pre' ++ units_before suf')
    → elim o [
      | none ↦ pre ++ suf
      | some k ↦
          if (length pre + k) % 2 == 0
          then take (length pre + k) (pre ++ suf)
          else truncate fuel (pre ++ suf) (length pre + k + 1)
    ]
      ≡ pre ++ units_before suf
after_search fuel pre suf none even le e ih = ap (λ t. pre ++ t) (sym e)
after_search fuel pre suf (some k) even le (in_range, inl (k_even, e)) ih =
    let here : ((length pre + k) % 2 == 0) ≡ true = (==_iff _ 0).1 (omega arith) in
    rw here (take-append_add pre suf k ∙ ap (λ t. pre ++ t) (sym e))
after_search fuel pre suf (some k) even le (in_range, inr (k_odd, e)) ih =
    let on : ((length pre + k) % 2 == 0) ≡ false = ground arith in
    let head = take (suc k) suf in
    let size : length head ≡ suc k = omega (arith, length-take (suc k) suf) in
    let left : length (drop (suc k) suf) ≤ fuel = omega (arith, length-drop (suc k) suf) in
    let whole : (pre ++ head) ++ drop (suc k) suf ≡ pre ++ suf =
      append_assoc pre head (drop (suc k) suf)
      ∙ ap (λ t. pre ++ t) (take-append-drop (suc k) suf) in
    let at : length (pre ++ head) ≡ length pre + k + 1 = omega (arith, length-append pre head) in
    let step = ih (pre ++ head) (drop (suc k) suf) (omega (arith, at)) left in
    rw on (
      sym (ap (λ (t : Bytes). truncate fuel t (length pre + k + 1)) whole)
      ∙ sym (ap (λ (n : ℕ). truncate fuel ((pre ++ head) ++ drop (suc k) suf) n) at)
      ∙ step
      ∙ append_assoc pre head (units_before (drop (suc k) suf))
      ∙ ap (λ t. pre ++ t) (sym e))

truncate_lem :
    (fuel : ℕ) (pre suf : Bytes)
    → length pre % 2 ≡ 0
    → length suf ≤ fuel
    → truncate fuel (pre ++ suf) (length pre) ≡ pre ++ units_before suf
unfolding truncate
truncate_lem zero pre [] even le = unfold units_before in refl
truncate_lem zero pre (b ∷ suf) even le = absurd (omega arith)
truncate_lem (suc fuel) pre suf even le =
    after_search fuel pre suf (find_double (drop (length pre) (pre ++ suf))) even le
      (subst (λ (t : Bytes). Found (find_double t) suf) (sym (drop-append pre suf))
        (find_double-Found suf))
      (λ pre' suf' e l. truncate_lem fuel pre' suf' e l)

-- The search for a zero pair of bytes, which skips those across two units, ends a value where its
-- first zero unit starts; a value without one is kept whole.
pub truncate-units_before : (raw : Bytes) → truncate (length raw) raw 0 ≡ units_before raw
truncate-units_before raw = truncate_lem (length raw) [] raw refl (omega arith)
