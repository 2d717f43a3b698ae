-- ===== src/StringPool/Lookup.antt =====
-- `_hash.find` and `_hash[key] = value` of src/infrastructure/db/StringPool.cpp on nodes whose views
-- show the strings of a list.
use tarracsh.Prelude.{
  ℕ, suc, ◌+◌, ◌≡◌, refl, ap, ◌∙◌, Bool, true, false, List, [], ◌∷◌, ◌++◌, length, Option, none,
  some, ◌==◌, ◌&&◌, if◌then◌else◌, arith, Bool-cases, inl, inr,
}
use tarracsh.Outcome.{ok}
use tarracsh.ClassFile.Pool.{Bytes}
use tarracsh.Digest.Class.{equal}
use tarracsh.StringPool.{View, Node, StringPool, has_key, find, assign}
use tarracsh.StringPool.Layout.{place, Holds, Indexed, equal_sound}

pub codes_agree : (a b c d : ℕ) → a ≡ b → c ≡ d → (a == b && c == d) ≡ true
codes_agree a b c d h k = ground (arith, h, k)

if-ok : (b : Bool) (x y : Option ℕ) → (if b then ok x else ok y) ≡ ok (if b then x else y)
if-ok true x y = refl
if-ok false x y = refl

module _ (hash_of : Bytes → ℕ) (p : StringPool) where
  -- Comparing codes and lengths first makes no difference.
  pub has_key-Holds :
      (s t : Bytes) (offset : ℕ) (e : Node)
      → Holds hash_of p offset t e
      → has_key hash_of p s e ≡ ok (equal t s)
  unfolding has_key
  has_key-Holds s t offset e h =
      elim (Bool-cases (e.hash_code == hash_of s && e.key.size == length s)) [
        | inl c ↦ rw (c, h.shows) refl
        | inr c ↦ elim (Bool-cases (equal t s)) [
          | inl d ↦
              absurd
                let same = equal_sound t s d in
                  let agree =
                    codes_agree e.hash_code (hash_of s) e.key.size (length s)
                      (h.code ∙ ap hash_of same) (h.key_size ∙ ap length same) in
                  cc
          | inr d ↦ rw (c, d) refl
        ]
      ]

  pub find-Indexed :
      (s : Bytes) (offset : ℕ) (ss : List Bytes) (es : List Node)
      → Indexed hash_of p offset ss es
      → find hash_of p s es ≡ ok (place s offset ss)
  unfolding find
  find-Indexed s offset [] [] h = refl
  find-Indexed s offset [] (e ∷ es) h = absurd h
  find-Indexed s offset (t ∷ ss) [] h = absurd h
  find-Indexed s offset (t ∷ ss) (e ∷ es) (h, hs) =
      rw
        (
          has_key-Holds s t offset e h,
          find-Indexed s (offset + suc (length t)) ss es hs,
          h.value_offset,
        )
        (if-ok (equal t s) (some offset) (place s (offset + suc (length t)) ss))

  -- A string that is not there gets a node of its own, the last one.
  pub assign-Indexed :
      (s : Bytes) (key : View) (value offset : ℕ) (ss : List Bytes) (es : List Node)
      → Indexed hash_of p offset ss es
      → place s offset ss ≡ none
      → assign hash_of p s key value es
        ≡ ok (es ++ (record { key = key; hash_code = hash_of s; value = value } ∷ []))
  unfolding assign
  assign-Indexed s key value offset [] [] h = λ n. refl
  assign-Indexed s key value offset [] (e ∷ es) h = absurd h
  assign-Indexed s key value offset (t ∷ ss) [] h = absurd h
  assign-Indexed s key value offset (t ∷ ss) (e ∷ es) (h, hs) = elim (Bool-cases (equal t s)) [
    | inl c ↦ rw c (λ n. cc)
    | inr c ↦
        rw (c, has_key-Holds s t offset e h)
          (λ n. rw (c, assign-Indexed s key value (offset + suc (length t)) ss es hs n) refl)
  ]
