-- ===== src/StringPool/Identity.antt =====
-- The ids that `add` of src/infrastructure/db/StringPool.cpp gives, as names of strings.
use tarracsh.Prelude.{ℕ, ◌≡◌, refl, ap, sym, ◌∙◌, ◌↔◌, Bool, List, some, subst}
use tarracsh.Outcome.{Outcome, ok}
use tarracsh.ClassFile.Pool.{Bytes}
use tarracsh.StringPool.{StringPool, internal_add, get_c_string}
use tarracsh.StringPool.Layout.{place, place_after, with_string, ZeroFree, Represents}
use tarracsh.StringPool.Refinement.{
  Fits, internal_add-refines, place-with_string, get_c_string-place,
}
use tarracsh.StringPool.Growth.{internal_add-extends}

place_after-again :
    (s : Bytes) (ss : List Bytes) → place_after s (with_string s ss) ≡ place_after s ss
place_after-again s ss = found (place_after s ss) (place-with_string s ss)
  where
    found : (o : ℕ) → place s 0 (with_string s ss) ≡ some o → place_after s (with_string s ss) ≡ o
    found o h = rw (place_after, h) refl

module _ (hash_of : Bytes → ℕ) where
  run_inj :
      (i j : ℕ) (p q : StringPool)
      → ◌≡◌ {A = Outcome (ℕ × StringPool)} (ok (i, p)) (ok (j, q))
      → (i ≡ j) × (p ≡ q)
  run_inj i j p q h = (cc, cc)

  -- What a run of `internalAdd` that returned has returned.
  internal_add-run :
      (moves : Bool) (s : Bytes) (i : ℕ) (p p' : StringPool) (ss : List Bytes)
      → Represents hash_of p ss
      → ZeroFree s
      → Fits moves s p
      → internal_add hash_of moves s p ≡ ok (i, p')
      → (i ≡ place_after s ss) × Represents hash_of p' (with_string s ss)
  internal_add-run moves s i p p' ss r z f h =
      let (q, e, r') = internal_add-refines hash_of moves s p ss r z f in
      let (a, b) = run_inj i (place_after s ss) p' q (sym h ∙ e) in
      (a, subst (λ x. Represents hash_of x (with_string s ss)) (sym b) r')

  -- The id that is given for a string without zeros leads to that string.
  pub get_c_string-internal_add :
      (moves : Bool) (s : Bytes) (i : ℕ) (p p' : StringPool) (ss : List Bytes)
      → Represents hash_of p ss
      → ZeroFree s
      → Fits moves s p
      → internal_add hash_of moves s p ≡ ok (i, p')
      → get_c_string i p' ≡ ok s
  get_c_string-internal_add moves s i p p' ss r z f h =
      let (a, r') = internal_add-run moves s i p p' ss r z f h in
      get_c_string-place hash_of s i p' (with_string s ss) r'
        (place-with_string s ss ∙ ap (λ o. some o) (sym a))

  -- Two strings that are added one after the other get the same id just when they are the same, while
  -- there is room for both.
  pub internal_add-same :
      (moves moves' : Bool) (s t : Bytes) (i j : ℕ) (p p' p'' : StringPool) (ss : List Bytes)
      → Represents hash_of p ss
      → ZeroFree s
      → ZeroFree t
      → Fits moves s p
      → Fits moves' t p'
      → internal_add hash_of moves s p ≡ ok (i, p')
      → internal_add hash_of moves' t p' ≡ ok (j, p'')
      → (i ≡ j) ↔ (s ≡ t)
  internal_add-same moves moves' s t i j p p' p'' ss r z y f g h k =
      let (a, r') = internal_add-run moves s i p p' ss r z f h in
      let (b, r'') = internal_add-run moves' t j p' p'' (with_string s ss) r' y g k in
      let first =
        internal_add-extends hash_of moves' t s i j p' p'' k
          (get_c_string-internal_add moves s i p p' ss r z f h) in
      let second = get_c_string-internal_add moves' t j p' p'' (with_string s ss) r' y g k in
      (
        λ e. ok_inj s t (sym first ∙ (ap (λ n. get_c_string n p'') e ∙ second)),
        λ e.
            a
            ∙ (sym (ap (λ u. place_after u (with_string s ss)) (sym e) ∙ place_after-again s ss)
                ∙ sym b),
      )
    where
      ok_inj : (s t : Bytes) → ok s ≡ ok t → s ≡ t
      ok_inj s t h = cc
