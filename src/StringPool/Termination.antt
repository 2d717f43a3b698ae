-- ===== src/StringPool/Termination.antt =====
-- The loops of src/infrastructure/db/StringPool.cpp on any file and any pool.
use tarracsh.Prelude.{
  ℕ, zero, suc, ◌+◌, ◌<◌, ◌≡◌, ◌≢◌, refl, List, [], ◌∷◌, length, drop, Option, none, some, leb, ltb,
  ◌==◌, ◌&&◌, arith, Bool-cases, inl, inr, ltb→lt,
}
use tarracsh.Outcome.{out_of_fuel, Within, Within-bind, Within-if, not_out_of_fuel}
use tarracsh.ClassFile.Pool.{Bytes}
use tarracsh.StringPool.{
  View, Node, StringPool, position, c_string, text_of, has_key, assign, assign_at, index_strings,
  filled, read,
}

abbrev Always : {A : Type 0} → A → Type 0
Always a = Unit

c_string-Within : (bytes : Bytes) → Within Always (c_string bytes)
unfolding c_string
c_string-Within [] = tt
c_string-Within (b ∷ bytes) =
    Within-if Always (b == 0) _ _ (λ e. tt)
      (λ e. Within-bind Always Always (c_string bytes) _ (c_string-Within bytes) (λ text h. tt))

text_of-Within : (p : StringPool) (v : View) → Within Always (text_of p v)
unfolding text_of
text_of-Within p v =
    Within-if Always (v.size == 0) _ _ (λ e. tt)
      (λ e.
        Within-if Always (v.generation == p.generation && leb (v.offset + v.size) (position p)) _ _
          (λ i. tt) (λ i. tt))

module _ (hash_of : Bytes → ℕ) where
  has_key-Within : (p : StringPool) (s : Bytes) (e : Node) → Within Always (has_key hash_of p s e)
  unfolding has_key
  has_key-Within p s e =
      Within-if Always (e.hash_code == hash_of s && e.key.size == length s) _ _
        (λ i. Within-bind Always Always (text_of p e.key) _ (text_of-Within p e.key) (λ t h. tt))
        (λ i. tt)

  assign-Within :
      (p : StringPool) (s : Bytes) (key : View) (value : ℕ) (es : List Node)
      → Within Always (assign hash_of p s key value es)
  unfolding assign
  assign-Within p s key value [] = tt
  assign-Within p s key value (e ∷ es) =
      Within-bind Always Always (has_key hash_of p s e) _ (has_key-Within p s e) (λ found h.
        Within-if Always found _ _ (λ i. tt)
          (λ i.
            Within-bind Always Always (assign hash_of p s key value es) _
              (assign-Within p s key value es) (λ es' h'. tt)))

  abbrev SameLength : StringPool → Bytes × StringPool → Type 0
  SameLength p (text, p') = position p' ≡ position p

  assign_at-Within :
      (offset : ℕ) (p : StringPool) → Within (SameLength p) (assign_at hash_of offset p)
  unfolding assign_at
  assign_at-Within offset p =
      Within-bind Always (SameLength p) (c_string (drop offset p.memory)) _
        (c_string-Within (drop offset p.memory))
        (λ text h.
          Within-bind Always (SameLength p) (assign hash_of p text _ offset p.entries) _
            (assign-Within p text _ offset p.entries) (λ es h'. refl))

  index_strings-Within :
      (fuel current : ℕ) (p : StringPool)
      → 0 < fuel
      → position p < fuel + current
      → Within Always (index_strings hash_of fuel current p)
  unfolding index_strings
  index_strings-Within zero current p k h = absurd (omega (arith, k))
  index_strings-Within (suc fuel) current p k h =
      Within-if Always (ltb current (position p)) _ _
        (λ e.
          Within-bind (SameLength p) Always (assign_at hash_of current p) _
            (assign_at-Within current p)
            (λ (text, p') i.
              index_strings-Within fuel (current + (length text + 1)) p'
                (omega (arith, h, ltb→lt current (position p) e)) (omega (arith, h, i))))
        (λ e. tt)

  filled-position : (bytes : Bytes) (p : StringPool) → position (filled bytes p) ≡ length bytes
  filled-position bytes p = elim (Bool-cases (ltb p.size (length bytes))) [
    | inl e ↦ rw e refl
    | inr e ↦ rw e refl
  ]

  -- Reading ends, whatever the file holds and whatever the pool held before.
  pub read-ends : (file : Option Bytes) (p : StringPool) → read hash_of file p ≢ out_of_fuel
  unfolding read
  read-ends none p = cc
  read-ends (some bytes) p = not_out_of_fuel Always (read hash_of (some bytes) p) (
      Within-bind Always Always (index_strings hash_of (suc (length bytes)) 0 (filled bytes p)) _
        (index_strings-Within (suc (length bytes)) 0 (filled bytes p) (omega arith)
          (omega (arith, filled-position bytes p)))
        (λ p' h. tt))
