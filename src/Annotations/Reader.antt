-- ===== src/Annotations/Reader.antt =====
-- src/domain/classfile/reader/VectorReader.h, on a little-endian host.
use tarracsh.Prelude.{ℕ, zero, suc, Bool, List, [], ◌∷◌, if◌then◌else◌}
use tarracsh.Outcome
use tarracsh.Outcome.{Outcome, ok, fault, out_of_fuel}
use tarracsh.ClassFile.Pool.{Bytes}
use tarracsh.ClassFile.Reader.{little, swap_short, swap_long}

-- `rest` is what lies beyond `position` in the vector.
pub record VectorReader : Type 0 where
  pub rest : Bytes
  pub is_big_endian : Bool

abbrev pub Decode : Type 0 → Type 0
Decode A = VectorReader → Outcome (A × VectorReader)

infixl 5 ◌>>=◌
abbrev pub ◌>>=◌ : {A B : Type 0} → Decode A → (A → Decode B) → Decode B
◌>>=◌ p k r = Outcome.◌>>=◌ (p r) (λ (a, r'). k a r')

abbrev pub pure : {A : Type 0} → A → Decode A
pure a r = ok (a, r)

abbrev pub failed : {A : Type 0} → Decode A
failed r = fault

abbrev pub exhausted : {A : Type 0} → Decode A
exhausted r = out_of_fuel

-- `readU1`; beyond the end of the vector an assertion fails.
abbrev u1_of : Bytes → Bool → Outcome (ℕ × VectorReader)
u1_of [] big = fault
u1_of (a ∷ rest) big = ok (a, record { rest = rest; is_big_endian = big })

unfoldable pub read_u1 : Decode ℕ
read_u1 r = u1_of r.rest r.is_big_endian

-- `readU2`.
abbrev u2_of : Bytes → Bool → Outcome (ℕ × VectorReader)
u2_of [] big = fault
u2_of (a ∷ []) big = fault
u2_of (a ∷ b ∷ rest) big =
    let v = little (a ∷ b ∷ []) in
    ok (if big then v else swap_short v, record { rest = rest; is_big_endian = big })

unfoldable pub read_u2 : Decode ℕ
read_u2 r = u2_of r.rest r.is_big_endian

-- `readU4`.
abbrev u4_of : Bytes → Bool → Outcome (ℕ × VectorReader)
u4_of (a ∷ b ∷ c ∷ d ∷ rest) big =
    let v = little (a ∷ b ∷ c ∷ d ∷ []) in
    ok (if big then v else swap_long v, record { rest = rest; is_big_endian = big })
u4_of bytes big = fault

unfoldable pub read_u4 : Decode ℕ
read_u4 r = u4_of r.rest r.is_big_endian

-- A call that reads nothing.
abbrev pub lift : {A : Type 0} → Outcome A → Decode A
lift o r = Outcome.◌>>=◌ o (λ a. ok (a, r))

-- A loop with a count, whose rounds read one item each.
unfoldable pub times : {A : Type 0} → ℕ → Decode A → Decode (List A)
times zero one = pure []
times (suc n) one = one >>= λ a. times n one >>= λ as'. pure (a ∷ as')
