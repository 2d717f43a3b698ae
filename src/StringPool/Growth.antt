-- ===== src/StringPool/Growth.antt =====
-- What any run of `internalAdd` of src/infrastructure/db/StringPool.cpp does to the block, wherever
-- `realloc` puts it.
use tarracsh.Prelude.{
  ℕ, ◌+◌, ◌≤◌, ◌≢◌, ◌≡◌, ap, sym, ◌∙◌, Bool, true, [], ◌∷◌, ◌++◌, length, drop, Option, none, some,
  length-append, append-nil, leb, ltb, arith, Bool-cases, inl, inr, ltb→lt, subst, ◌⊎◌,
}
use tarracsh.Outcome.{Outcome, ok, >>=-ok}
use tarracsh.ClassFile.Pool.{Bytes}
use tarracsh.StringPool.{
  StringPool, position, c_string, has_zero, find, assign, assign_at, append, grown, added,
  realloc_pool, internal_add, get_c_string,
}
use tarracsh.StringPool.Layout.{drop-append, drop_beyond, c_string-extend}

-- Bytes were put behind, and nothing is above the end of the block.
pub record Grows (p p' : StringPool) : Type 0 where
  pub more : Bytes
  pub more_bytes : p'.memory ≡ p.memory ++ more
  pub bounded : position p ≤ p.size → position p' ≤ p'.size

unchanged : (p : StringPool) → Grows p p
unchanged p = record { more = []; more_bytes = sym (append-nil p.memory); bounded = λ h. h }

pub pool_inj :
    (i j : ℕ) (p p' : StringPool)
    → ◌≡◌ {A = Outcome (ℕ × StringPool)} (ok (i, p)) (ok (j, p'))
    → p ≡ p'
pool_inj i j p p' h = cc

module _ (hash_of : Bytes → ℕ) where
  assign_at-block :
      (offset : ℕ) (q p' : StringPool) (text : Bytes)
      → assign_at hash_of offset q ≡ ok (text, p')
      → (p'.memory ≡ q.memory) × (p'.size ≡ q.size)
  unfolding assign_at
  assign_at-block offset q p' text h =
      let (text', e, f) = >>=-ok (c_string (drop offset q.memory)) _ (text, p') h in
      let (es, d, g) = >>=-ok (assign hash_of q text' _ offset q.entries) _ (text, p') f in (cc, cc)

  append-Grows :
      (s : Bytes) (q p' : StringPool) (result : ℕ)
      → append hash_of s q ≡ ok (result, p')
      → Grows q p'
  unfolding append
  append-Grows s q p' result = elim (Bool-cases (has_zero s)) [
    | inl e ↦ rw e (λ h. cc)
    | inr e ↦ elim (Bool-cases (ltb (position q + length s) q.size)) [
      | inr d ↦ rw (e, d) (λ h. cc)
      | inl d ↦
          rw (e, d)
            (λ h.
              let ((text, p₁), f, g) = >>=-ok (assign_at hash_of (position q) _) _ (result, p') h in
              let (m, n) = assign_at-block (position q) _ p₁ text f in
              let same = sym (pool_inj (position q) result (record p₁ { is_dirty = true }) p' g) in
              let bytes = ap (λ r. r.memory) same ∙ m in
              record {
                more = s ++ (0 ∷ []);
                more_bytes = bytes;
                bounded = λ b. omega (
                  arith,
                  ap (λ l. length l) bytes,
                  ap (λ r. r.size) same ∙ n,
                  length-append q.memory (s ++ (0 ∷ [])),
                  length-append s (0 ∷ []),
                  ltb→lt (position q + length s) q.size d,
                );
              })
    ]
  ]

  grown-Grows :
      (moves : Bool) (s : Bytes) (p p' : StringPool) → Grows (grown moves s p) p' → Grows p p'
  unfolding realloc_pool
  grown-Grows moves s p p' = elim (Bool-cases (leb p.size (length s + position p))) [
    | inl e ↦ rw e (λ g. record {
      more = g.more;
      more_bytes = g.more_bytes;
      bounded = λ h. g.bounded (omega (arith, h));
    })
    | inr e ↦ rw e (λ g. g)
  ]

  pub internal_add-Grows :
      (moves : Bool) (s : Bytes) (result : ℕ) (p p' : StringPool)
      → internal_add hash_of moves s p ≡ ok (result, p')
      → Grows p p'
  unfolding internal_add
  internal_add-Grows moves s result p p' h =
      let (o, e, g) =
        >>=-ok (find hash_of p s p.entries) (added hash_of moves s p) (result, p') h in
      of_added o g
    where
      of_added : (o : Option ℕ) → added hash_of moves s p o ≡ ok (result, p') → Grows p p'
      of_added (some i) g = subst (λ q. Grows p q) (pool_inj i result p p' g) (unchanged p)
      of_added none g = grown-Grows moves s p p' (append-Grows s (grown moves s p) p' result g)

le_or_ge : (a b : ℕ) → (a ≤ b) ⊎ (b ≤ a)
le_or_ge a b = omega arith

nothing_known : (bytes t : Bytes) → bytes ≡ [] → c_string bytes ≢ ok t
unfolding c_string
nothing_known bytes t h = rw h (λ g. cc)

-- Adding leaves what the ids given before stand for, also when the block grows or moves.
pub internal_add-extends :
    (hash_of : Bytes → ℕ) (moves : Bool) (s t : Bytes) (item result : ℕ) (p p' : StringPool)
    → internal_add hash_of moves s p ≡ ok (result, p')
    → get_c_string item p ≡ ok t
    → get_c_string item p' ≡ ok t
unfolding get_c_string
internal_add-extends hash_of moves s t item result p p' h g =
    let k = internal_add-Grows hash_of moves s result p p' h in
    elim (le_or_ge item (position p)) [
      | inl inside ↦
          rw (k.more_bytes, drop-append item p.memory k.more inside)
            (c_string-extend (drop item p.memory) k.more t g)
      | inr beyond ↦
          absurd (nothing_known (drop item p.memory) t (drop_beyond item p.memory beyond) g)
    ]

-- Where adding succeeds on a pool whose position is within the block, it is within the block after.
pub internal_add-bounded :
    (hash_of : Bytes → ℕ) (moves : Bool) (s : Bytes) (result : ℕ) (p p' : StringPool)
    → internal_add hash_of moves s p ≡ ok (result, p')
    → position p ≤ p.size
    → position p' ≤ p'.size
internal_add-bounded hash_of moves s result p p' h =
    (internal_add-Grows hash_of moves s result p p' h).bounded
