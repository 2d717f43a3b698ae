-- ===== src/Annotations/Bounded.antt =====
-- Rules for reading with src/domain/classfile/reader/VectorReader.h: what is left never grows.
use tarracsh.Prelude.{
  ℕ, zero, suc, ◌≤◌, ◌≢◌, Bool, true, false, [], ◌∷◌, length, if◌then◌else◌, arith,
}
use tarracsh.Outcome.{out_of_fuel, Within, Within-bind, not_out_of_fuel}
use tarracsh.ClassFile.Pool.{Bytes}
use tarracsh.Annotations.Reader.{VectorReader, Decode, ◌>>=◌, pure, read_u1, read_u2, times}

-- At most `n` bytes are left.
abbrev pub Left : {A : Type 0} → ℕ → A × VectorReader → Type 0
Left n (a, r) = length r.rest ≤ n

-- From a reader with at most `n` bytes, the piece stays within its fuel and leaves at most as many.
abbrev pub Bounded : {A : Type 0} → ℕ → Decode A → Type 0
Bounded n p = (r : VectorReader) → length r.rest ≤ n → Within (Left n) (p r)

pub Bounded-bind :
    {A B : Type 0} (n : ℕ) (p : Decode A) (q : A → Decode B)
    → Bounded n p
    → ((a : A) → Bounded n (q a))
    → Bounded n (p >>= q)
Bounded-bind n p q h k r l = Within-bind (Left n) (Left n) (p r) _ (h r l) (λ (a, r') i. k a r' i)

pub Bounded-if :
    {A : Type 0} (n : ℕ) (b : Bool) (p q : Decode A)
    → Bounded n p
    → Bounded n q
    → Bounded n (if b then p else q)
Bounded-if n true p q h k = h
Bounded-if n false p q h k = k

pub read_u1-Bounded : (n : ℕ) → Bounded n read_u1
unfolding read_u1
read_u1-Bounded n r h = of_rest r.rest r.is_big_endian h
  where
    of_rest :
        (rest : Bytes) (big : Bool)
        → length rest ≤ n
        → Within (Left n) (read_u1 (record { rest = rest; is_big_endian = big }))
    of_rest [] big h = tt
    of_rest (a ∷ rest) big h = omega (arith, h)

pub read_u2-Bounded : (n : ℕ) → Bounded n read_u2
unfolding read_u2
read_u2-Bounded n r h = of_rest r.rest r.is_big_endian h
  where
    of_rest :
        (rest : Bytes) (big : Bool)
        → length rest ≤ n
        → Within (Left n) (read_u2 (record { rest = rest; is_big_endian = big }))
    of_rest [] big h = tt
    of_rest (a ∷ []) big h = tt
    of_rest (a ∷ b ∷ rest) big h = omega (arith, h)

pub times-Bounded :
    {A : Type 0} (n count : ℕ) (one : Decode A) → Bounded n one → Bounded n (times count one)
unfolding times
times-Bounded n zero one h = λ r l. l
times-Bounded n (suc count) one h =
    Bounded-bind n one _ h
      (λ a. Bounded-bind n (times count one) _ (times-Bounded n count one h) (λ l r h. h))

pub u1-Bounded : {A : Type 0} (n : ℕ) (f : ℕ → A) → Bounded n (read_u1 >>= λ i. pure (f i))
u1-Bounded n f = Bounded-bind n read_u1 _ (read_u1-Bounded n) (λ i r h. h)

pub u2-Bounded : {A : Type 0} (n : ℕ) (f : ℕ → A) → Bounded n (read_u2 >>= λ i. pure (f i))
u2-Bounded n f = Bounded-bind n read_u2 _ (read_u2-Bounded n) (λ i r h. h)

pub within_fuel :
    {A : Type 0} (n : ℕ) (p : Decode A) (r : VectorReader)
    → Bounded n p
    → length r.rest ≤ n
    → p r ≢ out_of_fuel
within_fuel n p r h l = not_out_of_fuel (Left n) (p r) (h r l)
