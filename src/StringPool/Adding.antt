-- ===== src/StringPool/Adding.antt =====
-- `internalAdd` of src/infrastructure/db/StringPool.cpp against a list of distinct strings, while the
-- block has room or `realloc` leaves it where it is.
use tarracsh.Prelude.{
  All-append, ℕ, suc, ◌+◌, ◌<◌, ◌≤◌, ◌≡◌, refl, ap, sym, ◌∙◌, Bool, true, List, [], ◌∷◌, ◌++◌,
  length, drop, none, length-append, append_assoc, append-nil, leb, ◌==◌, ◌&&◌, arith, Bool-cases,
  inl, inr, lt→ltb, subst,
}
use tarracsh.Outcome.{ok}
use tarracsh.ClassFile.Pool.{Bytes}
use tarracsh.StringPool.{View, Node, StringPool, position, text_of, assign_at, append}
use tarracsh.StringPool.Layout.{
  flat, place, Holds, Indexed, Fresh, ZeroFree, Represents, take-length, drop-length,
  c_string-append, take-append, drop-append, length-drop,
}
use tarracsh.StringPool.Lookup.{assign-Indexed}

-- The pool with `more` bytes behind, and anything but its block changed.
pub record Extends (p : StringPool) (more : Bytes) (p' : StringPool) : Type 0 where
  pub same_block : p'.generation ≡ p.generation
  pub more_bytes : p'.memory ≡ p.memory ++ more

within_more :
    (a b c : ℕ) (x : Bool)
    → (x && leb (a + b) c) ≡ true
    → (d : ℕ) → (x && leb (a + b) (c + d)) ≡ true
within_more a b c x h d = ground (arith, h)

within_le : (a b c : ℕ) (x : Bool) → (x && leb (a + b) c) ≡ true → a + b ≤ c
within_le a b c x h = ground (arith, h)

pub text_of-Extends :
    (p p' : StringPool) (more s : Bytes) (v : View)
    → Extends p more p'
    → text_of p v ≡ ok s
    → text_of p' v ≡ ok s
unfolding text_of
text_of-Extends p p' more s v x = elim (Bool-cases (v.size == 0)) [
  | inl e ↦ rw e (λ h. h)
  | inr e ↦
      rw (e, x.same_block, x.more_bytes)
        (elim (Bool-cases (v.generation == p.generation && leb (v.offset + v.size) (position p))) [
          | inl i ↦
              let inside =
                within_le v.offset v.size (position p) (v.generation == p.generation) i in
              rw
                (
                  i,
                  length-append p.memory more,
                  within_more v.offset v.size (position p) (v.generation == p.generation) i
                      (length more),
                  drop-append v.offset p.memory more (omega (arith, inside)),
                  take-append v.size (drop v.offset p.memory) more (
                      omega (arith, inside, length-drop v.offset p.memory (omega (arith, inside)))),
                )
                (λ h. h)
          | inr i ↦ rw i (λ h. cc)
        ])
]

module _ (hash_of : Bytes → ℕ) where
  pub Holds-Extends :
      (p p' : StringPool) (more s : Bytes) (offset : ℕ) (e : Node)
      → Extends p more p'
      → Holds hash_of p offset s e
      → Holds hash_of p' offset s e
  Holds-Extends p p' more s offset e x h = record {
    shows = text_of-Extends p p' more s e.key x h.shows;
    key_size = h.key_size;
    code = h.code;
    value_offset = h.value_offset;
  }

  pub Indexed-Extends :
      (p p' : StringPool) (more : Bytes) (offset : ℕ) (ss : List Bytes) (es : List Node)
      → Extends p more p'
      → Indexed hash_of p offset ss es
      → Indexed hash_of p' offset ss es
  Indexed-Extends p p' more offset [] [] x h = tt
  Indexed-Extends p p' more offset [] (e ∷ es) x h = h
  Indexed-Extends p p' more offset (s ∷ ss) [] x h = h
  Indexed-Extends p p' more offset (s ∷ ss) (e ∷ es) x (h, hs) = (
    Holds-Extends p p' more s offset e x h,
    Indexed-Extends p p' more (offset + suc (length s)) ss es x hs,
  )

  pub Indexed-append :
      (p : StringPool) (offset : ℕ) (ss : List Bytes) (es : List Node) (s : Bytes) (e : Node)
      → Indexed hash_of p offset ss es
      → Holds hash_of p (offset + length (flat ss)) s e
      → Indexed hash_of p offset (ss ++ (s ∷ [])) (es ++ (e ∷ []))
  Indexed-append p offset [] [] s e h k = (subst (λ o. Holds hash_of p o s e) (omega arith) k, tt)
  Indexed-append p offset [] (d ∷ es) s e h k = absurd h
  Indexed-append p offset (t ∷ ss) [] s e h k = absurd h
  Indexed-append p offset (t ∷ ss) (d ∷ es) s e (h, hs) k = (
    h,
    Indexed-append p (offset + suc (length t)) ss es s e hs
        (subst (λ o. Holds hash_of p o s e) (omega (arith, length-append t (0 ∷ flat ss))) k),
  )

-- A pool that differs in its size and flag only.
pub Represents-unchanged :
    (hash_of : Bytes → ℕ) (p p' : StringPool) (ss : List Bytes)
    → p'.generation ≡ p.generation
    → p'.memory ≡ p.memory
    → p'.entries ≡ p.entries
    → Represents hash_of p ss
    → Represents hash_of p' ss
Represents-unchanged hash_of p p' ss g m e r = record {
  contents = m ∙ r.contents;
  index =
      subst (λ es. Indexed hash_of p' 0 ss es) (sym e)
        (Indexed-Extends hash_of p p' [] 0 ss p.entries
          (record { same_block = g; more_bytes = m ∙ sym (append-nil p.memory) }) r.index);
  zero_free = r.zero_free;
  distinct = r.distinct;
}

pub flat-append : (ss : List Bytes) (s : Bytes) → flat (ss ++ (s ∷ [])) ≡ flat ss ++ (s ++ (0 ∷ []))
flat-append [] s = refl
flat-append (t ∷ ss) s = rw (flat-append ss s) (sym (append_assoc t (0 ∷ flat ss) (s ++ (0 ∷ []))))

pub Fresh-append :
    (earlier ss : List Bytes) (s : Bytes)
    → Fresh earlier ss
    → place s 0 (earlier ++ ss) ≡ none
    → Fresh earlier (ss ++ (s ∷ []))
Fresh-append earlier [] s h k = (subst (λ l. place s 0 l ≡ none) (append-nil earlier) k, tt)
Fresh-append earlier (t ∷ ss) s (h, hs) k = (
  h,
  Fresh-append (earlier ++ (t ∷ [])) ss s hs
      (subst (λ l. place s 0 l ≡ none) (sym (append_assoc earlier (t ∷ []) ss)) k),
)

pub empty_lem : (s : Bytes) → (length s == 0) ≡ true → ok [] ≡ ok s
empty_lem [] h = refl
empty_lem (b ∷ s) h = absurd (ground (arith, h))

block_test : (g a n c : ℕ) → c ≡ a + n + 1 → (g == g && leb (a + n) c) ≡ true
block_test g a n c h = ground arith

module _ (hash_of : Bytes → ℕ) (p : StringPool) (s : Bytes) where
  abbrev new_key : View
  new_key = record { generation = p.generation; offset = position p; size = length s }

  -- The pool with `s` behind what it holds.
  abbrev pub stored : StringPool
  stored = record {
    memory = p.memory ++ (s ++ (0 ∷ []));
    size = p.size;
    generation = p.generation;
    entries =
        p.entries ++ (record { key = new_key; hash_code = hash_of s; value = position p } ∷ []);
    is_dirty = true;
  }

  stored-Extends : Extends p (s ++ (0 ∷ [])) stored
  stored-Extends = record { same_block = refl; more_bytes = refl }

  new_key_lem : text_of stored new_key ≡ ok s
  unfolding text_of
  new_key_lem = elim (Bool-cases (length s == 0)) [
    | inl e ↦ rw e (empty_lem s e)
    | inr e ↦
        rw
          (
            e,
            block_test p.generation (position p) (length s) (position stored)
                (omega (arith, length-append p.memory (s ++ (0 ∷ [])), length-append s (0 ∷ []))),
            drop-length p.memory (s ++ (0 ∷ [])),
            take-length s (0 ∷ []),
          )
          refl
  ]

  module _ (ss : List Bytes) (r : Represents hash_of p ss) (z : ZeroFree s)
      (n : place s 0 ss ≡ none) where
    pub append-new : position p + length s < p.size → append hash_of s p ≡ ok (position p, stored)
    unfolding append assign_at
    append-new h =
        rw
          (
            z,
            lt→ltb (position p + length s) p.size h,
            drop-length p.memory (s ++ (0 ∷ [])),
            c_string-append s [] z,
            assign-Indexed hash_of (record p { memory = p.memory ++ (s ++ (0 ∷ [])) }) s new_key
                (position p) 0 ss p.entries
                (Indexed-Extends hash_of p (record p { memory = p.memory ++ (s ++ (0 ∷ [])) })
                  (s ++ (0 ∷ [])) 0 ss p.entries (record { same_block = refl; more_bytes = refl })
                  r.index)
                n,
          )
          refl

    pub stored-Represents : Represents hash_of stored (ss ++ (s ∷ []))
    stored-Represents = record {
      contents = ap (λ m. m ++ (s ++ (0 ∷ []))) r.contents ∙ sym (flat-append ss s);
      index =
          Indexed-append hash_of stored 0 ss p.entries s _
            (Indexed-Extends hash_of p stored (s ++ (0 ∷ [])) 0 ss p.entries stored-Extends r.index)
            (record {
              shows = new_key_lem;
              key_size = refl;
              code = refl;
              value_offset = omega (arith, ap (λ m. length m) r.contents);
            });
      zero_free = All-append ZeroFree ss s r.zero_free z;
      distinct = Fresh-append [] ss s r.distinct n;
    }
