-- ===== src/Error.antt =====
-- src/pypstreader/errors.py: what a reader may raise, as values.
--
-- Each exception class is a kind; the messages are not modelled. `not_found` is
-- `PstNotFoundError`, a subclass of `PstFormatError`; `escaped` is an exception of Python itself, outside
-- the hierarchy. `stuck` is no value of the program: a loop
-- that the model runs on fuel ran out of it.
pub mod Settles
use pypst_reader.Prelude.{◌≡◌, refl, ◌⊎◌, inl, inr, Bool, true, false, ◌≢◌}

pub data PstError : Type 0 where
  format unsupported limit not_found escaped : PstError

pub data Result {ℓ} (A : Type ℓ) : Type ℓ where
  ok : A → Result A
  err : PstError → Result A
  stuck : Result A

infixl 5 ◌>>=◌ ◌>>◌
abbrev pub ◌>>=◌ {ℓ κ} : {A : Type ℓ} {B : Type κ} → Result A → (A → Result B) → Result B
stuck >>= next = stuck
err e >>= next = err e
ok a >>= next = next a

abbrev pub ◌>>◌ {ℓ} : {B : Type ℓ} → Result (Unit {0}) → Result B → Result B
m >> k = m >>= λ _. k

-- `if not test: raise e`
abbrev pub require : Bool → PstError → Result (Unit {0})
require true e = ok tt
require false e = err e

-- A sequence that succeeds: its first part did, and so did the rest on the value.
pub >>=-eq-ok {ℓ κ} :
    {A : Type ℓ} {B : Type κ} (first : Result A) (next : A → Result B) {out : B}
    → (first >>= next) ≡ ok out
    → (a : A) × (first ≡ ok a) × (next a ≡ ok out)
>>=-eq-ok stuck next run = cc
>>=-eq-ok (err e) next run = cc
>>=-eq-ok (ok a) next run = (a, refl, run)

pub require-eq-ok : (b : Bool) (e : PstError) {u : Unit {0}} → require b e ≡ ok u → b ≡ true
require-eq-ok true e h = refl
require-eq-ok false e h = cc

pub ok-injective {ℓ} : {A : Type ℓ} {a b : A} → ok a ≡ ok b → a ≡ b
ok-injective h = cc
