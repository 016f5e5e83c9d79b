-- ===== src/NamedProp/State.antt =====
-- The state of a named property map, and the operations on it as a state and exception monad.
use pypst_reader.Prelude.{ℕ, List, Option, Bool, true, false, ◌&&◌, [], ◌∷◌, ◌==◌}
use pypst_reader.Error.{Result, ok, err, stuck}
use pypst_reader.Limits.{Limits}
use pypst_reader.PropType.Value.{Uuid, Text}
use pypst_reader.PropContext.{PropertyContext}
use pypst_reader.NamedProp.Entry.{NameIdEntry}

-- A name in a property set: its text, or a number.
pub data Name : Type 0 where
  numbered : ℕ → Name
  named : Text → Name

-- The streams and the two indexes are parsed on first use.
pub record NamedPropertyMap : Type 0 where
  pub properties : PropertyContext
  pub limits : Limits
  pub guids : Option (List Uuid)
  pub entries : Option (List NameIdEntry)
  pub by_prop_id : Option (List (ℕ × NameIdEntry))
  pub by_name : Option (List ((Uuid × Name) × ℕ))

unfoldable pub same_numbers : List ℕ → List ℕ → Bool
same_numbers [] [] = true
same_numbers (a ∷ xs) (b ∷ ys) = a == b && same_numbers xs ys
same_numbers _ _ = false

unfoldable pub same_uuid : Uuid → Uuid → Bool
unfolding same_numbers
same_uuid u v =
    u.time_low == v.time_low
    && (u.time_mid == v.time_mid
        && (u.time_hi_version == v.time_hi_version && same_numbers u.rest v.rest))

-- A text and a number are never equal.
unfoldable pub same_name : Name → Name → Bool
unfolding same_numbers
same_name (numbered a) (numbered b) = a == b
same_name (named s) (named t) = same_numbers s t
same_name _ _ = false

abbrev pub Action {ℓ} : Type ℓ → Type ℓ
Action A = NamedPropertyMap → Result A × NamedPropertyMap

module _ {ℓ} {A : Type ℓ} where
  abbrev pub pure : A → Action A
  pure a m = (ok a, m)

  abbrev pub lift : Result A → Action A
  lift r m = (r, m)

  -- An operation of the property context.
  abbrev pub in_context : (PropertyContext → Result A × PropertyContext) → Action A
  in_context f m = let p = f m.properties in (p.0, record m { properties = p.1 })

abbrev pub continue {ℓ κ} : {A : Type ℓ} {B : Type κ} → Result A → (A → Action B) → Action B
continue (ok a) f m = f a m
continue (err e) f m = (err e, m)
continue stuck f m = (stuck, m)

infixl 5 ◌>>=◌ ◌>>◌
abbrev pub ◌>>=◌ {ℓ κ} : {A : Type ℓ} {B : Type κ} → Action A → (A → Action B) → Action B
◌>>=◌ p f m = let q = p m in continue q.0 f q.1

abbrev pub ◌>>◌ {ℓ} : {B : Type ℓ} → Action (Unit {0}) → Action B → Action B
p >> q = p >>= λ _. q
