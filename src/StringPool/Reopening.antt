-- ===== src/StringPool/Reopening.antt =====
-- The constructor, `read` and `write` of src/infrastructure/db/StringPool.cpp, on the same file.
use tarracsh.Prelude.{
  ℕ, suc, ◌≡◌, refl, ap, sym, ◌∙◌, true, false, List, [], ◌∷◌, length, Option, some, All, ltb,
  arith, Bool-cases, inl, inr, lt→ltb,
}
use tarracsh.Outcome.{ok, ◌>>=◌}
use tarracsh.ClassFile.Pool.{Bytes}
use tarracsh.StringPool.{
  Node, StringPool, position, c_string, text_of, assign, assign_at, make_pool, start_pool_size,
  index_strings, filled, read, write,
}
use tarracsh.StringPool.Layout.{flat, Indexed, Fresh, ZeroFree, Represents}
use tarracsh.StringPool.Lookup.{has_key-Holds}
use tarracsh.StringPool.Adding.{Represents-unchanged}
use tarracsh.StringPool.Refinement.{internal_add-refines}
use tarracsh.StringPool.Loading.{assign_at-lem, index_strings-Indexed}

module _ (hash_of : Bytes → ℕ) where
  -- The node of the empty string shows it in any block.
  filled-Indexed :
      (bytes : Bytes) (p : StringPool) (es : List Node)
      → Indexed hash_of p 0 ([] ∷ []) es
      → Indexed hash_of (filled bytes p) 0 ([] ∷ []) es
  unfolding text_of
  filled-Indexed bytes p [] h = h
  filled-Indexed bytes p (e ∷ []) (h, u) = (
    record {
      shows = rw h.key_size refl;
      key_size = h.key_size;
      code = h.code;
      value_offset = h.value_offset;
    },
    tt,
  )
  filled-Indexed bytes p (e ∷ d ∷ es) (h, hs) = absurd hs

  -- The first round comes to the node that the constructor has made.
  first_round :
      (q : StringPool) (es : List Node) (ss : List Bytes)
      → q.memory ≡ 0 ∷ flat ss
      → q.entries ≡ es
      → Indexed hash_of q 0 ([] ∷ []) es
      → (ds : List Node) × (assign_at hash_of 0 q ≡ ok ([], record q { entries = ds }))
        × Indexed hash_of (record q { entries = ds }) 0 ([] ∷ []) ds
  unfolding assign c_string text_of
  first_round q [] ss m e h = absurd h
  first_round q (d ∷ []) ss m e (h, u) = (
    record { key = d.key; hash_code = d.hash_code; value = 0 } ∷ [],
    assign_at-lem hash_of 0 q [] _ (rw m refl) (
        ap (assign hash_of q [] (record { generation = q.generation; offset = 0; size = 0 }) 0) e
        ∙ rw (has_key-Holds hash_of q [] [] 0 d h) refl),
    (
      record {
        shows = rw h.key_size refl;
        key_size = h.key_size;
        code = h.code;
        value_offset = refl;
      },
      tt,
    ),
  )
  first_round q (d ∷ c ∷ es) ss m e (h, hs) = absurd hs

  filled-memory : (bytes : Bytes) (p : StringPool) → (filled bytes p).memory ≡ bytes
  filled-memory bytes p = elim (Bool-cases (ltb p.size (length bytes))) [
    | inl e ↦ rw e refl
    | inr e ↦ rw e refl
  ]

  filled-entries : (bytes : Bytes) (p : StringPool) → (filled bytes p).entries ≡ p.entries
  filled-entries bytes p = elim (Bool-cases (ltb p.size (length bytes))) [
    | inl e ↦ rw e refl
    | inr e ↦ rw e refl
  ]

  index_strings-flat :
      (q : StringPool) (es : List Node) (ss : List Bytes)
      → q.memory ≡ 0 ∷ flat ss
      → q.entries ≡ es
      → Indexed hash_of q 0 ([] ∷ []) es
      → All ZeroFree ss
      → Fresh ([] ∷ []) ss
      → (q' : StringPool) × (index_strings hash_of (suc (length (0 ∷ flat ss))) 0 q ≡ ok q')
        × Represents hash_of q' ([] ∷ ss)
  unfolding index_strings
  index_strings-flat q es ss m e i z f =
      let (ds, a, j) = first_round q es ss m e i in
      let (q', b, n, k) =
        index_strings-Indexed hash_of (suc (length (flat ss))) 1 (record q { entries = ds })
          ([] ∷ []) ss m refl j f z (omega arith) in
      (
        q',
        rw (lt→ltb 0 (position q) (omega (arith, ap {B = ℕ} (λ l. length l) m)), a) b,
        record { contents = n ∙ m; index = k; zero_free = (refl, z); distinct = (refl, f) },
      )

  pub read-flat :
      (p : StringPool) (ss : List Bytes)
      → Represents hash_of p ([] ∷ [])
      → All ZeroFree ss
      → Fresh ([] ∷ []) ss
      → (p' : StringPool) × (read hash_of (some (flat ([] ∷ ss))) p ≡ ok (true, p'))
        × Represents hash_of p' ([] ∷ ss)
  unfolding read
  read-flat p ss r z f =
      let bytes = flat ([] ∷ ss) in
      let (q', e, s) =
        index_strings-flat (filled bytes p) p.entries ss (filled-memory bytes p)
          (filled-entries bytes p) (filled-Indexed bytes p p.entries r.index) z f in
      (
        record q' { is_dirty = false },
        rw e refl,
        Represents-unchanged hash_of q' (record q' { is_dirty = false }) ([] ∷ ss) refl refl refl s,
      )

  pub make_pool-Represents :
      (p : StringPool) × (make_pool hash_of ≡ ok p) × Represents hash_of p ([] ∷ [])
  unfolding make_pool
  make_pool-Represents =
      let (p, e, r) =
        internal_add-refines hash_of false []
          (record {
            memory = [];
            size = start_pool_size;
            generation = 0;
            entries = [];
            is_dirty = false;
          })
          [] (record { contents = refl; index = tt; zero_free = tt; distinct = tt }) refl
          (inl (omega arith)) in
      (p, rw e refl, r)

  -- What a changed pool writes, a new pool reads: it stands for the same strings at the same places.
  pub read-write :
      (p : StringPool) (ss : List Bytes) (file : Option Bytes)
      → Represents hash_of p ([] ∷ ss)
      → p.is_dirty ≡ true
      → (p' : StringPool) × ((make_pool hash_of >>= λ q. read hash_of (write file p) q)
          ≡ ok (true, p'))
        × Represents hash_of p' ([] ∷ ss)
        × (p'.memory ≡ p.memory)
  unfolding write
  read-write p ss file r d =
      let (q, e, i) = make_pool-Represents in
      let (p', h, s) = read-flat q ss i (r.zero_free).1 (r.distinct).1 in
      (p', rw (e, d, r.contents) h, s, s.contents ∙ sym r.contents)
