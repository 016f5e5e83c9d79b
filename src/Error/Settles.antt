-- ===== src/Error/Settles.antt =====
-- Results that are values of the program: everything but `stuck`. One rule for each way to build
-- a result, for `search`.
use pypst_reader.Prelude.{◌≡◌, ◌≢◌, refl, Bool, true, false, if◌then◌else◌}
use pypst_reader.Error.{PstError, Result, ok, err, stuck, ◌>>=◌, require}

pub data Settles {ℓ} {A : Type ℓ} : Result A → Type ℓ where
  by_ok : (a : A) → Settles (ok a)
  by_err : (e : PstError) → Settles (err e)

pub Settles-ne {ℓ} : {A : Type ℓ} {r : Result A} → Settles r → r ≢ stuck
Settles-ne (by_ok a) h = cc
Settles-ne (by_err e) h = cc

pub Settles-require : (b : Bool) (e : PstError) → Settles (require b e)
Settles-require true e = by_ok tt
Settles-require false e = by_err e

pub Settles-if {ℓ} :
    {A : Type ℓ} (b : Bool) (r s : Result A) → Settles r → Settles s → Settles (if b then r else s)
Settles-if true r s h k = h
Settles-if false r s h k = k

pub Settles-bind {ℓ κ} :
    {A : Type ℓ} {B : Type κ} (m : Result A) (f : A → Result B)
    → Settles m
    → ((a : A) → Settles (f a))
    → Settles (m >>= f)
Settles-bind (ok a) f h k = k a
Settles-bind (err e) f h k = by_err e
Settles-bind stuck f h k = absurd (Settles-ne h refl)

-- The rest may use the value of the first part.
pub Settles-bind_eq {ℓ κ} :
    {A : Type ℓ} {B : Type κ} (m : Result A) (f : A → Result B)
    → Settles m
    → ((a : A) → m ≡ ok a → Settles (f a))
    → Settles (m >>= f)
Settles-bind_eq (ok a) f h k = k a refl
Settles-bind_eq (err e) f h k = by_err e
Settles-bind_eq stuck f h k = absurd (Settles-ne h refl)

pub ruleset settle_rules = (by_ok, by_err, Settles-require, Settles-if, Settles-bind)
