-- ===== src/StringPool/Refinement.antt =====
-- `add` and `getCString` of src/infrastructure/db/StringPool.cpp as operations on a list of distinct
-- strings.
use tarracsh.Prelude.{
  ℕ, suc, ◌+◌, ◌*◌, ◌<◌, ◌≡◌, refl, ap, sym, ◌∙◌, Bool, false, List, [], ◌∷◌, ◌++◌, length, none,
  some, All, length-append, append_assoc, leb, arith, Bool-cases, Option-cases, inl, inr, subst,
  ◌⊎◌,
}
use tarracsh.Outcome.{ok}
use tarracsh.ClassFile.Pool.{Bytes}
use tarracsh.Digest.Class.{equal}
use tarracsh.StringPool.{
  StringPool, position, append, grown, realloc_pool, internal_add, get_c_string,
}
use tarracsh.StringPool.Layout.{
  flat, place, place_after, with_string, ZeroFree, Represents, drop-length, c_string-append,
  equal_sound, equal_refl,
}
use tarracsh.StringPool.Lookup.{find-Indexed}
use tarracsh.StringPool.Adding.{Represents-unchanged, stored, append-new, stored-Represents}

-- The string goes into the block as it is, or into one twice as large at the same address.
abbrev pub Fits : Bool → Bytes → StringPool → Type 0
Fits moves s p =
    (position p + length s < p.size) ⊎ ((moves ≡ false) × (position p + length s < p.size * 2))

module _ (hash_of : Bytes → ℕ) where
  realloc_pool-Represents :
      (p : StringPool) (ss : List Bytes)
      → Represents hash_of p ss
      → Represents hash_of (realloc_pool false p) ss
  unfolding realloc_pool
  realloc_pool-Represents p ss r =
      Represents-unchanged hash_of p (realloc_pool false p) ss refl refl refl r

  append-grown :
      (moves : Bool) (s : Bytes) (p : StringPool) (ss : List Bytes)
      → Represents hash_of p ss
      → ZeroFree s
      → Fits moves s p
      → place s 0 ss ≡ none
      → (p' : StringPool) × (append hash_of s (grown moves s p) ≡ ok (length (flat ss), p'))
        × Represents hash_of p' (ss ++ (s ∷ []))
  unfolding realloc_pool
  append-grown moves s p ss r z f n = elim (Bool-cases (leb p.size (length s + position p))) [
    | inl e ↦ elim f [
      | inl h ↦ absurd (ground (arith, e, h))
      | inr (m, h) ↦
          let r' = realloc_pool-Represents p ss r in
          (
            stored hash_of (realloc_pool false p) s,
            rw (e, m)
                (append-new hash_of (realloc_pool false p) s ss r' z n h
                  ∙ ap (λ m. ok (length m, stored hash_of (realloc_pool false p) s)) r.contents),
            stored-Represents hash_of (realloc_pool false p) s ss r' z n,
          )
    ]
    | inr e ↦ (
      stored hash_of p s,
      rw e (
          append-new hash_of p s ss r z n (ground (arith, e))
          ∙ ap (λ m. ok (length m, stored hash_of p s)) r.contents),
      stored-Represents hash_of p s ss r z n,
    )
  ]

  -- Adding gives the place that the string has in the list, or the place behind it, and leaves the
  -- pool with that list: for a string without zeros, while the block has room or doubling it in place
  -- makes room.
  pub internal_add-refines :
      (moves : Bool) (s : Bytes) (p : StringPool) (ss : List Bytes)
      → Represents hash_of p ss
      → ZeroFree s
      → Fits moves s p
      → (p' : StringPool) × (internal_add hash_of moves s p ≡ ok (place_after s ss, p'))
        × Represents hash_of p' (with_string s ss)
  unfolding internal_add
  internal_add-refines moves s p ss r z f = elim (Option-cases (place s 0 ss)) [
    | inl n ↦
        let (p', e, r') = append-grown moves s p ss r z f n in
        (
          p',
          rw (find-Indexed hash_of p s 0 ss p.entries r.index, place_after, n) e,
          rw (with_string, n) r',
        )
    | inr (offset, n) ↦ (
      p,
      rw (find-Indexed hash_of p s 0 ss p.entries r.index, place_after, n) refl,
      rw (with_string, n) r,
    )
  ]

some_inj : (m n : ℕ) → some m ≡ some n → m ≡ n
some_inj m n h = cc

-- The string whose place is found stands there.
place-split :
    (s : Bytes) (start offset : ℕ) (ss : List Bytes)
    → place s start ss ≡ some offset
    → (before : List Bytes) × (after : List Bytes) × (ss ≡ before ++ (s ∷ after))
      × (offset ≡ start + length (flat before))
place-split s start offset [] = λ h. cc
place-split s start offset (t ∷ ss) = elim (Bool-cases (equal t s)) [
  | inl e ↦
      rw e (λ h.
        ([], ss, ap (λ u. u ∷ ss) (equal_sound t s e), omega (arith, some_inj start offset h)))
  | inr e ↦ rw e (λ h.
      let (before, after, split, o) = place-split s (start + suc (length t)) offset ss h in
      (
        t ∷ before,
        after,
        ap (λ l. t ∷ l) split,
        omega (arith, o, length-append t (0 ∷ flat before)),
      ))
]

pub flat-split :
    (before : List Bytes) (after : List Bytes) → flat (before ++ after) ≡ flat before ++ flat after
flat-split [] after = refl
flat-split (t ∷ before) after =
    rw (flat-split before after) (sym (append_assoc t (0 ∷ flat before) (flat after)))

ZeroFree-split :
    (before : List Bytes) (s : Bytes) (after : List Bytes)
    → All ZeroFree (before ++ (s ∷ after))
    → ZeroFree s
ZeroFree-split [] s after (h, hs) = h
ZeroFree-split (t ∷ before) s after (h, hs) = ZeroFree-split before s after hs

place-append :
    (s : Bytes) (start : ℕ) (ss : List Bytes)
    → place s start ss ≡ none
    → place s start (ss ++ (s ∷ [])) ≡ some (start + length (flat ss))
place-append s start [] = λ h. rw (equal_refl s) (ap (λ o. some o) (omega arith))
place-append s start (t ∷ ss) = elim (Bool-cases (equal t s)) [
  | inl e ↦ rw e (λ h. cc)
  | inr e ↦ rw e (λ h.
      place-append s (start + suc (length t)) ss h
      ∙ ap (λ o. some o) (omega (arith, length-append t (0 ∷ flat ss))))
]

pub place-with_string :
    (s : Bytes) (ss : List Bytes) → place s 0 (with_string s ss) ≡ some (place_after s ss)
place-with_string s ss = elim (Option-cases (place s 0 ss)) [
  | inl n ↦
      rw (with_string, place_after, n) (place-append s 0 ss n ∙ ap (λ o. some o) (omega arith))
  | inr (offset, n) ↦ rw (with_string, place_after, n) n
]

pub get_c_string-split :
    (p : StringPool) (before : List Bytes) (s : Bytes) (after : List Bytes)
    → p.memory ≡ flat (before ++ (s ∷ after))
    → ZeroFree s
    → get_c_string (length (flat before)) p ≡ ok s
unfolding get_c_string
get_c_string-split p before s after h z =
    rw (h, flat-split before (s ∷ after), drop-length (flat before) (s ++ (0 ∷ flat after)))
      (c_string-append s (flat after) z)

module _ (hash_of : Bytes → ℕ) where
  pub get_c_string-place :
      (s : Bytes) (offset : ℕ) (p : StringPool) (ss : List Bytes)
      → Represents hash_of p ss
      → place s 0 ss ≡ some offset
      → get_c_string offset p ≡ ok s
  get_c_string-place s offset p ss r h =
      let (before, after, split, o) = place-split s 0 offset ss h in
      subst (λ n. get_c_string n p ≡ ok s) (sym (omega (arith, o)))
        (get_c_string-split p before s after (r.contents ∙ ap (λ l. flat l) split)
          (ZeroFree-split before s after (subst (λ l. All ZeroFree l) split r.zero_free)))
