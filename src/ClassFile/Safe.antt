-- ===== src/ClassFile/Safe.antt =====
-- What it is for a piece of the parser to return or throw on every input from memory, the rules by
-- which pieces are put together, and the numbers of a class file.
use tarracsh.Prelude.{
  ℕ, zero, suc, ◌+◌, ◌%◌, ◌^◌, ◌≤◌, ◌≡◌, refl, ap, Bool, true, false, [], ◌∷◌, length, arith, ltb,
  Bool-cases, inl, inr, if◌then◌else◌, take,
}
use tarracsh.Outcome
use tarracsh.Outcome.{Outcome, ok, threw, fault, out_of_fuel}
use tarracsh.ClassFile.Reader.{
  memory, Reader, Parse, ◌>>=◌, pure, raise, read_bytes, read_raw, read_u1, read_u2, read_u4,
  read_zeroed_u2, read_zeroed_u4,
}
use tarracsh.ClassFile.Pool.{Bytes, Constant}
use tarracsh.ClassFile.Parser.{single, wide, one, two, two_words}

-- The run returned or threw.
abbrev pub Returned : {A : Type 0} → (A → Type 0) → Outcome A → Type 0
Returned P (ok a) = P a
Returned P threw = Unit
Returned P fault = ⊥
Returned P out_of_fuel = ⊥

-- From a memory reader, `p` returns or throws, and a memory reader is left.
pub record Safe {A : Type 0} (P : A → Type 0) (p : Parse A) : Type 0 where
  pub run :
      (r : Reader) → r.source ≡ memory → Returned (λ (a, r'). P a × (r'.source ≡ memory)) (p r)

abbrev pub Anything : {A : Type 0} → A → Type 0
Anything a = Unit

pub Returned-bind :
    {A B : Type 0} (P : A → Type 0) (Q : B → Type 0) (r : Outcome A) (f : A → Outcome B)
    → Returned P r
    → ((a : A) → P a → Returned Q (f a))
    → Returned Q (Outcome.◌>>=◌ r f)
Returned-bind P Q (ok a) f h k = k a h
Returned-bind P Q threw f h k = tt
Returned-bind P Q fault f h k = h
Returned-bind P Q out_of_fuel f h k = h

pub Safe-pure : {A : Type 0} (a : A) → Safe Anything (pure a)
Safe-pure a = record { run = λ r m. (tt, m) }

pub Safe-raise : {A : Type 0} → Safe {A = A} Anything raise
Safe-raise = record { run = λ r m. tt }

pub Safe-bind :
    {A B : Type 0} (P : A → Type 0) (Q : B → Type 0) (p : Parse A) (q : A → Parse B)
    → Safe P p
    → ((a : A) → P a → Safe Q (q a))
    → Safe Q (p >>= q)
Safe-bind P Q p q hp hq = record {
  run = λ r m.
      Returned-bind (λ (a, r'). P a × (r'.source ≡ memory)) (λ (b, r'). Q b × (r'.source ≡ memory))
        (p r) (λ (a, r'). q a r') (hp.run r m) (λ (a, r') h. (hq a h.0).run r' h.1);
}

pub Safe-then :
    {A B : Type 0} (p : Parse A) (q : A → Parse B)
    → Safe Anything p
    → ((a : A) → Safe Anything (q a))
    → Safe Anything (p >>= q)
Safe-then p q hp hq = Safe-bind Anything Anything p q hp (λ a u. hq a)

pub Safe-if :
    {A : Type 0} (P : A → Type 0) (b : Bool) (x y : Parse A)
    → Safe P x
    → Safe P y
    → Safe P (if b then x else y)
Safe-if P true x y hx hy = hx
Safe-if P false x y hx hy = hy

pub Safe-weaken : {A : Type 0} (P : A → Type 0) (p : Parse A) → Safe P p → Safe Anything p
Safe-weaken {A = A} P p h = record { run = λ r m. weaken (p r) (h.run r m) }
  where
    weaken :
        (x : Outcome (A × Reader))
        → Returned (λ (a, r'). P a × (r'.source ≡ memory)) x
        → Returned (λ (a, r'). Anything a × (r'.source ≡ memory)) x
    weaken (ok a) h = (tt, h.1)
    weaken threw h = tt
    weaken fault h = h
    weaken out_of_fuel h = h

length-take : (n : ℕ) (xs : Bytes) → n ≤ length xs → length (take n xs) ≡ n
length-take zero xs h = refl
length-take (suc n) [] h = absurd (omega arith)
length-take (suc n) (x ∷ xs) h = ap suc (length-take n xs (omega arith))

enough_left : (a b : ℕ) → ltb a b ≡ false → b ≤ a
enough_left a b h = ground arith

-- From memory exactly what was asked for is read.
pub Safe-bytes : (count : ℕ) → Safe (λ bytes. length bytes ≡ count) (read_bytes count)
unfolding read_bytes
Safe-bytes count = record {
  run = λ r m. elim (Bool-cases (ltb (length r.rest) count)) [
    | inl short ↦ rw (m, short) tt
    | inr enough ↦
        rw (m, enough) (length-take count r.rest (enough_left (length r.rest) count enough), refl)
  ];
}

pub Safe-raw : (count : ℕ) → Safe (λ bytes. length bytes ≡ count) (read_raw count)
unfolding read_raw
Safe-raw count = record {
  run = λ r m. elim (Bool-cases (ltb r.size ((r.bytes_read + count) % 2 ^ 32))) [
    | inl much ↦ rw much tt
    | inr enough ↦ rw enough (
        (Safe-bind (λ bytes. length bytes ≡ count) (λ bytes. length bytes ≡ count)
            (read_bytes count)
            (λ bytes r'. ok (bytes, record r' { bytes_read = (r'.bytes_read + count) % 2 ^ 32 }))
            (Safe-bytes count) (λ bytes e. record { run = λ r' m'. (e, m') })).run
          r m)
  ];
}

pub Safe-u1 : Safe Anything read_u1
unfolding read_u1
Safe-u1 =
    Safe-bind (λ bytes. length bytes ≡ 1) Anything (read_raw 1) _ (Safe-raw 1)
      (λ bytes e. record { run = λ r m. rw e (tt, m) })

pub Safe-u2 : Safe Anything read_u2
unfolding read_u2
Safe-u2 =
    Safe-bind (λ bytes. length bytes ≡ 2) Anything (read_raw 2) _ (Safe-raw 2)
      (λ bytes e. record { run = λ r m. rw e (tt, m) })

pub Safe-u4 : Safe Anything read_u4
unfolding read_u4
Safe-u4 =
    Safe-bind (λ bytes. length bytes ≡ 4) Anything (read_raw 4) _ (Safe-raw 4)
      (λ bytes e. record { run = λ r m. rw e (tt, m) })

pub Safe-zeroed_u2 : Safe Anything read_zeroed_u2
unfolding read_zeroed_u2
Safe-zeroed_u2 =
    Safe-bind (λ bytes. length bytes ≡ 2) Anything (read_raw 2) _ (Safe-raw 2)
      (λ bytes e. record { run = λ r m. (tt, m) })

pub Safe-zeroed_u4 : Safe Anything read_zeroed_u4
unfolding read_zeroed_u4
Safe-zeroed_u4 =
    Safe-bind (λ bytes. length bytes ≡ 4) Anything (read_raw 4) _ (Safe-raw 4)
      (λ bytes e. record { run = λ r m. (tt, m) })

pub Safe-map :
    {A B : Type 0} (p : Parse A) (f : A → B)
    → Safe Anything p
    → Safe Anything (p >>= λ a. pure (f a))
Safe-map p f h = Safe-then p _ h (λ a. Safe-pure (f a))

pub Safe-one : (make : ℕ → Constant) → Safe Anything (one make)
Safe-one make = Safe-map read_u2 (λ a. single (make a)) Safe-u2

pub Safe-two : (make : ℕ → ℕ → Constant) → Safe Anything (two make)
Safe-two make = Safe-then read_u2 _ Safe-u2 (λ a. Safe-one (make a))

pub Safe-two_words : (make : ℕ → ℕ → Constant) → Safe Anything (two_words make)
Safe-two_words make =
    Safe-then read_u4 _ Safe-u4 (λ a. Safe-map read_u4 (λ b. wide (make a b)) Safe-u4)
