-- ===== src/StringPool/Loading.antt =====
-- `read` of src/infrastructure/db/StringPool.cpp on what `write` has written.
use tarracsh.Prelude.{
  ℕ, zero, suc, ◌+◌, ◌<◌, ◌≡◌, refl, ap, sym, ◌∙◌, true, List, [], ◌∷◌, ◌++◌, length, drop, none,
  All, length-append, append_assoc, append-nil, leb, ◌==◌, ◌&&◌, arith, Bool-cases, inl, inr,
  lt→ltb, ltb-ge, subst,
}
use tarracsh.Outcome.{ok}
use tarracsh.ClassFile.Pool.{Bytes}
use tarracsh.StringPool.{
  View, Node, StringPool, position, c_string, text_of, assign, assign_at, index_strings,
  get_c_string,
}
use tarracsh.StringPool.Layout.{flat, place, Indexed, Fresh, ZeroFree, take-length, drop-length}
use tarracsh.StringPool.Lookup.{assign-Indexed}
use tarracsh.StringPool.Adding.{Indexed-Extends, Indexed-append, empty_lem}
use tarracsh.StringPool.Refinement.{flat-split, get_c_string-split}

length_split :
    (before : List Bytes) (s : Bytes) (after : List Bytes)
    → length (flat (before ++ (s ∷ after)))
      ≡ length (flat before) + (length s + suc (length (flat after)))
length_split before s after = omega (
  arith,
  ap {B = ℕ} (λ l. length l) (flat-split before (s ∷ after)),
  length-append (flat before) (flat (s ∷ after)),
  length-append s (0 ∷ flat after),
)

view_test : (g a n c m : ℕ) → c ≡ a + (n + suc m) → (g == g && leb (a + n) c) ≡ true
view_test g a n c m h = ground (arith, h)

-- The view of a string in the block.
abbrev view_behind : StringPool → List Bytes → Bytes → View
view_behind q before s = record {
  generation = q.generation;
  offset = length (flat before);
  size = length s;
}

text_of-split :
    (q : StringPool) (before : List Bytes) (s : Bytes) (after : List Bytes)
    → q.memory ≡ flat (before ++ (s ∷ after))
    → text_of q (view_behind q before s) ≡ ok s
unfolding text_of
text_of-split q before s after h = elim (Bool-cases (length s == 0)) [
  | inl e ↦ rw e (empty_lem s e)
  | inr e ↦
      rw
        (
          e,
          view_test q.generation (length (flat before)) (length s) (position q)
              (length (flat after)) (ap {B = ℕ} (λ l. length l) h ∙ length_split before s after),
          h,
          flat-split before (s ∷ after),
          drop-length (flat before) (s ++ (0 ∷ flat after)),
          take-length s (0 ∷ flat after),
        )
        refl
]

module _ (hash_of : Bytes → ℕ) where
  abbrev node : StringPool → List Bytes → Bytes → Node
  node q before s = record {
    key = view_behind q before s;
    hash_code = hash_of s;
    value = length (flat before);
  }

  abbrev indexed : StringPool → List Bytes → Bytes → StringPool
  indexed q before s = record q { entries = q.entries ++ (node q before s ∷ []) }

  pub assign_at-lem :
      (offset : ℕ) (q : StringPool) (text : Bytes) (es : List Node)
      → c_string (drop offset q.memory) ≡ ok text
      → assign hash_of q text
          (record { generation = q.generation; offset = offset; size = length text })
          offset
          q.entries
        ≡ ok es
      → assign_at hash_of offset q ≡ ok (text, record q { entries = es })
  unfolding assign_at
  assign_at-lem offset q text es h k = rw (h, k) refl

  -- A round of the loop, at a string that is not in the hash.
  round :
      (q : StringPool) (before : List Bytes) (s : Bytes) (after : List Bytes)
      → q.memory ≡ flat (before ++ (s ∷ after))
      → Indexed hash_of q 0 before q.entries
      → place s 0 before ≡ none
      → ZeroFree s
      → assign_at hash_of (length (flat before)) q ≡ ok (s, indexed q before s)
  unfolding get_c_string
  round q before s after h i n z =
      assign_at-lem (length (flat before)) q s _ (get_c_string-split q before s after h z) (
        assign-Indexed hash_of q s (view_behind q before s) (length (flat before)) 0 before
          q.entries i n)

  round-Indexed :
      (q : StringPool) (before : List Bytes) (s : Bytes) (after : List Bytes)
      → q.memory ≡ flat (before ++ (s ∷ after))
      → Indexed hash_of q 0 before q.entries
      → Indexed hash_of (indexed q before s) 0 (before ++ (s ∷ [])) (indexed q before s).entries
  round-Indexed q before s after h i =
      Indexed-append hash_of (indexed q before s) 0 before q.entries s (node q before s)
        (Indexed-Extends hash_of q (indexed q before s) [] 0 before q.entries
          (record { same_block = refl; more_bytes = sym (append-nil q.memory) }) i)
        (record {
          shows = text_of-split (indexed q before s) before s after h;
          key_size = refl;
          code = refl;
          value_offset = omega arith;
        })

  -- The loop, from the first string that is not in the hash.
  pub index_strings-Indexed :
      (fuel current : ℕ) (q : StringPool) (before after : List Bytes)
      → q.memory ≡ flat (before ++ after)
      → current ≡ length (flat before)
      → Indexed hash_of q 0 before q.entries
      → Fresh before after
      → All ZeroFree after
      → length (flat after) < fuel
      → (q' : StringPool) × (index_strings hash_of fuel current q ≡ ok q')
        × (q'.memory ≡ q.memory)
        × Indexed hash_of q' 0 (before ++ after) q'.entries
  unfolding index_strings
  index_strings-Indexed zero current q before after h c i f z l = absurd (omega (arith, l))
  index_strings-Indexed (suc fuel) current q before [] h c i f z l = (
    q,
    rw
        (ltb-ge current (position q)
          (omega (arith, c, ap {B = ℕ} (λ l. length l) (h ∙ ap (λ b. flat b) (append-nil before)))))
        refl,
    refl,
    subst (λ b. Indexed hash_of q 0 b q.entries) (sym (append-nil before)) i,
  )
  index_strings-Indexed (suc fuel) current q before (s ∷ after) h c i (n, f) (z, zs) l =
      let (q', e, m, j) =
        index_strings-Indexed fuel (current + (length s + 1)) (indexed q before s)
          (before ++ (s ∷ [])) after
          (h ∙ ap (λ b. flat b) (sym (append_assoc before (s ∷ []) after)))
          (omega (arith, c, length_split before s [])) (round-Indexed q before s after h i) f zs
          (omega (arith, l, length-append s (0 ∷ flat after))) in
      (
        q',
        rw
            (
              lt→ltb current (position q)
                  (omega (arith, c, ap {B = ℕ} (λ l. length l) h, length_split before s after)),
              ap (λ o. assign_at hash_of o q) c ∙ round q before s after h i n z,
            )
            e,
        m,
        subst (λ b. Indexed hash_of q' 0 b q'.entries) (append_assoc before (s ∷ []) after) j,
      )
