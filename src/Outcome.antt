-- ===== src/Outcome.antt =====
-- What a run of the C++ code comes to, and postconditions on it.
use tarracsh.Prelude.{◌≡◌, refl, ◌≢◌, Bool, true, false, if◌then◌else◌}

-- `threw` is an exception that leaves the code, `fault` is undefined behaviour (an index out of
-- range, a read of freed or indeterminate memory) or a failed assertion; `out_of_fuel` has no
-- counterpart in the code.
pub data Outcome {ℓ} (A : Type ℓ) : Type ℓ where
  ok : A → Outcome A
  threw fault out_of_fuel : Outcome A

module _ {ℓ κ} {A : Type ℓ} {B : Type κ} where
  infixl 5 ◌>>=◌
  abbrev pub ◌>>=◌ : Outcome A → (A → Outcome B) → Outcome B
  ok a >>= f = f a
  threw >>= f = threw
  fault >>= f = fault
  out_of_fuel >>= f = out_of_fuel

pub ok_lem : {A : Type 0} {a b : A} → ◌≡◌ {A = Outcome A} (ok a) (ok b) → a ≡ b
ok_lem h = cc

-- What comes of a sequence came of its first run.
pub >>=-ok :
    {A B : Type 0} (r : Outcome A) (f : A → Outcome B) (b : B)
    → (r >>= f) ≡ ok b
    → (a : A) × (r ≡ ok a) × (f a ≡ ok b)
>>=-ok (ok a) f b h = (a, refl, h)
>>=-ok threw f b h = cc
>>=-ok fault f b h = cc
>>=-ok out_of_fuel f b h = cc

-- The run kept within its fuel, and `P` holds of what it returned, if it returned.
abbrev pub Within : {A : Type 0} → (A → Type 0) → Outcome A → Type 0
Within P (ok a) = P a
Within P threw = Unit
Within P fault = Unit
Within P out_of_fuel = ⊥

pub not_out_of_fuel : {A : Type 0} (P : A → Type 0) (r : Outcome A) → Within P r → r ≢ out_of_fuel
not_out_of_fuel P (ok a) h = cc
not_out_of_fuel P threw h = cc
not_out_of_fuel P fault h = cc
not_out_of_fuel P out_of_fuel h = absurd h

pub Within-weaken :
    {A : Type 0} {P Q : A → Type 0} (r : Outcome A)
    → ((a : A) → P a → Q a)
    → Within P r
    → Within Q r
Within-weaken (ok a) k h = k a h
Within-weaken threw k h = tt
Within-weaken fault k h = tt
Within-weaken out_of_fuel k h = h

-- The rule for a sequence of two runs.
pub Within-bind :
    {A B : Type 0} (P : A → Type 0) (Q : B → Type 0) (r : Outcome A) (f : A → Outcome B)
    → Within P r
    → ((a : A) → P a → Within Q (f a))
    → Within Q (r >>= f)
Within-bind P Q (ok a) f h k = k a h
Within-bind P Q threw f h k = tt
Within-bind P Q fault f h k = tt
Within-bind P Q out_of_fuel f h k = h

pub Within-if :
    {A : Type 0} (P : A → Type 0) (b : Bool) (x y : Outcome A)
    → (b ≡ true → Within P x)
    → (b ≡ false → Within P y)
    → Within P (if b then x else y)
Within-if P true x y hx hy = hx refl
Within-if P false x y hx hy = hy refl
