-- ===== src/Digest/Order.antt =====
-- On the order of a `std::set<DigestVector>` and insertions into it.
use tarracsh.Prelude.{
  ℕ, ◌<◌, true, false, List, [], ◌∷◌, ◌≡◌, refl, sym, ap, ap₂, ltb, ltb→lt, lt→ltb, ltb-ge, ◌⊎◌,
  inl, inr, arith,
}
use tarracsh.ClassFile.Pool.{Bytes}
use tarracsh.Digest.Buffer.{less, insert}

-- How two vectors stand to each other.
data Ordered (a b : Bytes) : Type 0 where
  before : less a b ≡ true → less b a ≡ false → Ordered a b
  same : a ≡ b → less a b ≡ false → less b a ≡ false → Ordered a b
  after : less a b ≡ false → less b a ≡ true → Ordered a b

data Compared (x y : ℕ) : Type 0 where
  smaller : ltb x y ≡ true → ltb y x ≡ false → Compared x y
  equal : x ≡ y → ltb x y ≡ false → ltb y x ≡ false → Compared x y
  greater : ltb x y ≡ false → ltb y x ≡ true → Compared x y

compare_numbers : (x y : ℕ) → (x < y) ⊎ ((x ≡ y) ⊎ (y < x))
compare_numbers x y = omega arith

compared : (x y : ℕ) → Compared x y
compared x y = elim (compare_numbers x y) [
  | inl h ↦ smaller (lt→ltb x y h) (ltb-ge y x (omega arith))
  | inr (inl h) ↦ equal h (ltb-ge x y (omega arith)) (ltb-ge y x (omega arith))
  | inr (inr h) ↦ greater (ltb-ge x y (omega arith)) (lt→ltb y x h)
]

ordered : (a b : Bytes) → Ordered a b
unfolding less
ordered [] [] = same refl refl refl
ordered [] (y ∷ ys) = before refl refl
ordered (x ∷ xs) [] = after refl refl
ordered (x ∷ xs) (y ∷ ys) = elim (compared x y) [
  | smaller p q ↦ before (rw p refl) (rw (q, p) refl)
  | equal e p q ↦ elim (ordered xs ys) [
    | before h k ↦ before (rw (p, q) h) (rw (q, p) k)
    | same g h k ↦ same (ap₂ (λ u v. u ∷ v) e g) (rw (p, q) h) (rw (q, p) k)
    | after h k ↦ after (rw (p, q) h) (rw (q, p) k)
  ]
  | greater p q ↦ after (rw (p, q) refl) (rw q refl)
]

less_trans : (a b c : Bytes) → less a b ≡ true → less b c ≡ true → less a c ≡ true
unfolding less
less_trans a [] c h k = absurd cc
less_trans a (y ∷ ys) [] h k = absurd cc
less_trans [] (y ∷ ys) (z ∷ zs) h k = refl
less_trans (x ∷ xs) (y ∷ ys) (z ∷ zs) h k = elim (compared x y) [
  | smaller p q ↦ elim (compared y z) [
    | smaller r s ↦ rw (lt→ltb x z (omega (arith, ltb→lt x y p, ltb→lt y z r))) refl
    | equal e r s ↦ rw (lt→ltb x z (omega (arith, ltb→lt x y p, e))) refl
    | greater r s ↦ let k' = rw (r, s) at k in absurd cc
  ]
  | equal d p q ↦ elim (compared y z) [
    | smaller r s ↦ rw (lt→ltb x z (omega (arith, d, ltb→lt y z r))) refl
    | equal e r s ↦
        let h' = rw (p, q) at h in
        let k' = rw (r, s) at k in
        rw (ltb-ge x z (omega (arith, d, e)), ltb-ge z x (omega (arith, d, e)))
          (less_trans xs ys zs h' k')
    | greater r s ↦ let k' = rw (r, s) at k in absurd cc
  ]
  | greater p q ↦ let h' = rw (p, q) at h in absurd cc
]

less_asym : (a b : Bytes) → less a b ≡ true → less b a ≡ false
less_asym a b h = elim (ordered a b) [ before p q ↦ q | same e p q ↦ q | after p q ↦ absurd cc ]

-- Two vectors that go before the first of the set.
insert_both :
    (a b x : Bytes) (xs : List Bytes)
    → less a x ≡ true
    → less b x ≡ true
    → insert a (insert b (x ∷ xs)) ≡ insert b (insert a (x ∷ xs))
unfolding insert
insert_both a b x xs p r = elim (ordered a b) [
  | before u v ↦ simp (p, r, u, v)
  | same e u v ↦ simp (r, e)
  | after u v ↦ simp (p, r, u, v)
]

-- One that goes before the first of the set and one that does not.
insert_around :
    (a b x : Bytes) (xs : List Bytes)
    → less a x ≡ true
    → less x b ≡ true
    → insert a (insert b (x ∷ xs)) ≡ insert b (insert a (x ∷ xs))
unfolding insert
insert_around a b x xs p s =
    let u = less_trans a x b p s in
    let v = less_asym a b u in let r = less_asym x b s in simp (p, r, s, u, v)

insert_present :
    (a b x : Bytes) (xs : List Bytes)
    → less a x ≡ true
    → b ≡ x
    → less b x ≡ false
    → less x b ≡ false
    → insert a (insert b (x ∷ xs)) ≡ insert b (insert a (x ∷ xs))
unfolding insert
insert_present a b x xs p e r s =
    let u : less a b ≡ true = rw e p in let v = less_asym a b u in simp (p, r, s, u, v)

pub insert_commute : (a b : Bytes) (s : List Bytes) → insert a (insert b s) ≡ insert b (insert a s)
unfolding insert
insert_commute a b [] = elim (ordered a b) [
  | before p q ↦ rw (p, q) refl
  | same e p q ↦ rw (p, q) (ap (λ d. d ∷ []) (sym e))
  | after p q ↦ rw (p, q) refl
]
insert_commute a b (x ∷ xs) = elim (ordered a x) [
  | before p q ↦ elim (ordered b x) [
    | before r s ↦ insert_both a b x xs p r
    | same e r s ↦ insert_present a b x xs p e r s
    | after r s ↦ insert_around a b x xs p s
  ]
  | same d p q ↦ elim (ordered b x) [
    | before r s ↦ sym (insert_present b a x xs r d p q)
    | same e r s ↦ simp (p, q, r, s)
    | after r s ↦ simp (p, q, r, s)
  ]
  | after p q ↦ elim (ordered b x) [
    | before r s ↦ sym (insert_around b a x xs r q)
    | same e r s ↦ simp (p, q, r, s)
    | after r s ↦ simp (p, q, r, s, insert_commute a b xs)
  ]
]
