-- ===== src/Trace.antt =====
-- A generator: what it yields, and how it ends. `exhausted` is no value of the program: the model
-- ran out of fuel.
use pypst_reader.Prelude.{List, [], ◌∷◌}
use pypst_reader.Error.{PstError}

pub data Trace {ℓ} (A : Type ℓ) : Type ℓ where
  done : Trace A
  raised : PstError → Trace A
  exhausted : Trace A
  yield_ : A → Trace A → Trace A

-- What a consumer has received when the generator ends, in either way.
unfoldable pub yielded {ℓ} : {A : Type ℓ} → Trace A → List A
yielded done = []
yielded (raised e) = []
yielded exhausted = []
yielded (yield_ a t) = a ∷ yielded t

-- yield from xs, and go on.
unfoldable pub yield_all {ℓ} : {A : Type ℓ} → List A → Trace A → Trace A
yield_all [] t = t
yield_all (x ∷ xs) t = yield_ x (yield_all xs t)

-- The generator ends by itself, within the fuel.
abbrev pub Ends {ℓ} : {A : Type ℓ} → Trace A → Type 0
Ends done = Unit
Ends (raised e) = Unit
Ends exhausted = ⊥
Ends (yield_ a t) = Ends t
