-- ===== src/StringPool/Dangling.antt =====
-- `reallocPool` of src/infrastructure/db/StringPool.cpp when `realloc` moves the block: the keys of
-- `_hash` go on pointing into the old one.
use tarracsh.Prelude.{
  ℕ, suc, ◌+◌, ◌≤◌, ◌≢◌, ◌≡◌, refl, ap, sym, ◌∙◌, Bool, true, false, List, [], ◌∷◌, length, drop,
  none, some, leb, ltb, ◌==◌, ◌&&◌, if◌then◌else◌, arith, Bool-cases, inl, inr, subst,
}
use tarracsh.Outcome.{ok, fault, ◌>>=◌, >>=-ok}
use tarracsh.ClassFile.Pool.{Bytes}
use tarracsh.Digest.Class.{equal}
use tarracsh.StringPool.{
  View, Node, StringPool, position, c_string, text_of, has_zero, has_key, find, assign, assign_at,
  append, realloc_pool, internal_add,
}
use tarracsh.StringPool.Layout.{place, Holds, Indexed, Represents, equal_sound}
use tarracsh.StringPool.Lookup.{find-Indexed, codes_agree}
use tarracsh.StringPool.Growth.{pool_inj}

-- The nodes with their keys and codes, others perhaps behind them.
abbrev Keeps : List Node → List Node → Type 0
Keeps [] es' = Unit
Keeps (e ∷ es) [] = ⊥
Keeps (e ∷ es) (e' ∷ es') = (e'.key ≡ e.key) × (e'.hash_code ≡ e.hash_code) × Keeps es es'

all_kept : (es : List Node) → Keeps es es
all_kept [] = tt
all_kept (e ∷ es) = (refl, refl, all_kept es)

list_inj : (es es' : List Node) → ok es ≡ ok es' → es ≡ es'
list_inj es es' h = cc

same_number : (a b : ℕ) (x : Bool) → (a == b && x) ≡ true → a ≡ b
same_number a b x h = ground (arith, h)

le→leb : (a b : ℕ) → a ≤ b → leb a b ≡ true
le→leb a b h = ground arith

stale_test : (a b : ℕ) (x : Bool) → b ≡ suc a → (a == b && x) ≡ false
stale_test a b x h = ground (arith, h)

size_test : (a b c d : ℕ) → (a == b && c == d) ≡ true → (d == 0) ≡ false → (c == 0) ≡ false
size_test a b c d h k = ground (arith, h, k)

nowhere : (offset : ℕ) → none ≢ some offset
nowhere offset h = cc

place-later :
    (s t : Bytes) (start offset : ℕ) (ss : List Bytes)
    → equal t s ≡ false
    → place s start (t ∷ ss) ≡ some offset
    → place s (start + suc (length t)) ss ≡ some offset
place-later s t start offset ss e = rw e (λ h. h)

-- A view that shows bytes is one into the block of now.
view_block :
    (p : StringPool) (v : View) (s : Bytes)
    → text_of p v ≡ ok s
    → (v.size == 0) ≡ false
    → v.generation ≡ p.generation
unfolding text_of
view_block p v s h e =
    elim (Bool-cases (v.generation == p.generation && leb (v.offset + v.size) (position p))) [
      | inl i ↦ same_number v.generation p.generation (leb (v.offset + v.size) (position p)) i
      | inr i ↦ absurd (shown i h)
    ]
  where
    shown :
        (v.generation == p.generation && leb (v.offset + v.size) (position p)) ≡ false
        → text_of p v ≢ ok s
    shown i = rw (e, i) (λ h. cc)

module _ (hash_of : Bytes → ℕ) where
  assign-Keeps :
      (q : StringPool) (s : Bytes) (key : View) (value : ℕ) (es es' : List Node)
      → assign hash_of q s key value es ≡ ok es'
      → Keeps es es'
  unfolding assign
  assign-Keeps q s key value [] es' h = tt
  assign-Keeps q s key value (e ∷ es) es' h =
      let (found, a, g) = >>=-ok (has_key hash_of q s e) _ es' h in
      of_found found g (assign-Keeps q s key value es)
    where
      of_found :
          (found : Bool)
          → (if found
              then ok (record { key = e.key; hash_code = e.hash_code; value = value } ∷ es)
              else (assign hash_of q s key value es >>= λ es''. ok (e ∷ es'')))
            ≡ ok es'
          → ((es'' : List Node) → assign hash_of q s key value es ≡ ok es'' → Keeps es es'')
          → Keeps (e ∷ es) es'
      of_found true g later =
          subst (λ l. Keeps (e ∷ es) l)
            (list_inj (record { key = e.key; hash_code = e.hash_code; value = value } ∷ es) es' g)
            (refl, refl, all_kept es)
      of_found false g later =
          let (es'', a, h') =
            >>=-ok (assign hash_of q s key value es) (λ es''. ok (e ∷ es'')) es' g in
          subst (λ l. Keeps (e ∷ es) l) (list_inj (e ∷ es'') es' h') (refl, refl, later es'' a)

  -- A node with the string's code and length is compared by bytes that are gone.
  has_key-stale :
      (p p' : StringPool) (s t : Bytes) (offset : ℕ) (e e' : Node)
      → Holds hash_of p offset t e
      → e'.key ≡ e.key
      → (length s == 0) ≡ false
      → p'.generation ≡ suc p.generation
      → (e'.hash_code == hash_of s && e'.key.size == length s) ≡ true
      → has_key hash_of p' s e' ≡ fault
  unfolding has_key text_of
  has_key-stale p p' s t offset e e' h k n g c =
      let size = size_test e'.hash_code (hash_of s) e'.key.size (length s) c n in
      let block =
        ap (λ v. v.generation) k
        ∙ view_block p e.key t h.shows (subst (λ v. (v.size == 0) ≡ false) k size) in
      rw
        (
          c,
          size,
          stale_test e'.key.generation p'.generation
              (leb (e'.key.offset + e'.key.size) (position p')) (g ∙ ap suc (sym block)),
        )
        refl

  has_key-other :
      (p : StringPool) (s : Bytes) (e : Node)
      → (e.hash_code == hash_of s && e.key.size == length s) ≡ false
      → has_key hash_of p s e ≡ ok false
  unfolding has_key
  has_key-other p s e c = rw c refl

  other_text :
      (p : StringPool) (s t : Bytes) (offset : ℕ) (e e' : Node)
      → Holds hash_of p offset t e
      → e'.key ≡ e.key
      → e'.hash_code ≡ e.hash_code
      → (e'.hash_code == hash_of s && e'.key.size == length s) ≡ false
      → equal t s ≡ false
  other_text p s t offset e e' h k l c = elim (Bool-cases (equal t s)) [
    | inr d ↦ d
    | inl d ↦
        let same = equal_sound t s d in
        let agree =
          codes_agree e'.hash_code (hash_of s) e'.key.size (length s)
            (l ∙ (h.code ∙ ap hash_of same))
            (ap (λ v. v.size) k ∙ (h.key_size ∙ ap (λ b. length b) same)) in
        cc
  ]

  -- The search for a string of some length never gets past its dangling node.
  find-stale :
      (p p' : StringPool) (s : Bytes) (start offset : ℕ) (ss : List Bytes) (es es' : List Node)
      → Indexed hash_of p start ss es
      → Keeps es es'
      → place s start ss ≡ some offset
      → (length s == 0) ≡ false
      → p'.generation ≡ suc p.generation
      → find hash_of p' s es' ≡ fault
  unfolding find
  find-stale p p' s start offset [] [] es' i k w n g = absurd (nowhere offset w)
  find-stale p p' s start offset [] (e ∷ es) es' i k w n g = absurd i
  find-stale p p' s start offset (t ∷ ss) [] es' i k w n g = absurd i
  find-stale p p' s start offset (t ∷ ss) (e ∷ es) [] i k w n g = absurd k
  find-stale p p' s start offset (t ∷ ss) (e ∷ es) (e' ∷ es') (i, is) (same_key, same_code, k) w n
        g =
      elim (Bool-cases (e'.hash_code == hash_of s && e'.key.size == length s)) [
        | inl c ↦ rw (has_key-stale p p' s t start e e' i same_key n g c) refl
        | inr c ↦
            rw
              (
                has_key-other p' s e' c,
                find-stale p p' s (start + suc (length t)) offset ss es es' is k
                    (place-later s t start offset ss
                      (other_text p s t start e e' i same_key same_code c) w)
                    n g,
              )
              refl
      ]

  assign_at-Keeps :
      (offset : ℕ) (q p' : StringPool) (text : Bytes)
      → assign_at hash_of offset q ≡ ok (text, p')
      → Keeps q.entries p'.entries × (p'.generation ≡ q.generation)
  unfolding assign_at
  assign_at-Keeps offset q p' text h =
      let (text', e, f) = >>=-ok (c_string (drop offset q.memory)) _ (text, p') h in
      let (es, d, g) = >>=-ok (assign hash_of q text' _ offset q.entries) _ (text, p') f in
      let same : es ≡ p'.entries = cc in
      (subst (λ l. Keeps q.entries l) same (assign-Keeps q text' _ offset q.entries es d), cc)

  append-Keeps :
      (s : Bytes) (q p' : StringPool) (result : ℕ)
      → append hash_of s q ≡ ok (result, p')
      → Keeps q.entries p'.entries × (p'.generation ≡ q.generation)
  unfolding append
  append-Keeps s q p' result = elim (Bool-cases (has_zero s)) [
    | inl e ↦ rw e (λ h. cc)
    | inr e ↦ elim (Bool-cases (ltb (position q + length s) q.size)) [
      | inr d ↦ rw (e, d) (λ h. cc)
      | inl d ↦
          rw (e, d)
            (λ h.
              let ((text, p₁), f, g) = >>=-ok (assign_at hash_of (position q) _) _ (result, p') h in
              let (k, n) = assign_at-Keeps (position q) _ p₁ text f in
              let same = pool_inj (position q) result (record p₁ { is_dirty = true }) p' g in
              (
                subst (λ r. Keeps q.entries r.entries) same k,
                sym (ap (λ r. r.generation) same) ∙ n,
              ))
    ]
  ]

  internal_add-grown :
      (t : Bytes) (p p' : StringPool) (result : ℕ) (ss : List Bytes)
      → Represents hash_of p ss
      → place t 0 ss ≡ none
      → p.size ≤ length t + position p
      → internal_add hash_of true t p ≡ ok (result, p')
      → append hash_of t (realloc_pool true p) ≡ ok (result, p')
  unfolding internal_add
  internal_add-grown t p p' result ss r n l =
      rw
        (
          find-Indexed hash_of p t 0 ss p.entries r.index,
          n,
          le→leb p.size (length t + position p) l,
        )
        (λ h. h)

  -- When adding a new string has moved the block, adding a string of some length that was there
  -- before reads the freed block.
  pub internal_add-moved :
      (moves : Bool) (s t : Bytes) (result offset : ℕ) (p p' : StringPool) (ss : List Bytes)
      → Represents hash_of p ss
      → place t 0 ss ≡ none
      → p.size ≤ length t + position p
      → internal_add hash_of true t p ≡ ok (result, p')
      → place s 0 ss ≡ some offset
      → (length s == 0) ≡ false
      → internal_add hash_of moves s p' ≡ fault
  unfolding internal_add realloc_pool
  internal_add-moved moves s t result offset p p' ss r n l h w z =
      let (k, g) =
        append-Keeps t (realloc_pool true p) p' result
          (internal_add-grown t p p' result ss r n l h) in
      rw (find-stale p p' s 0 offset ss p.entries p'.entries r.index k w z g) refl
