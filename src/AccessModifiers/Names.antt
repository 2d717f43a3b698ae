-- ===== src/AccessModifiers/Names.antt =====
-- Under which names `toString` lists the flags.
use tarracsh.Prelude.{
  ℕ, zero, suc, ◌*◌, Bool, true, false, List, [], ◌∷◌, ◌≡◌, refl, some, get_elem?, codes,
  if◌then◌else◌, ◌⊎◌, inl, inr,
}
use tarracsh.AccessModifiers.{Str, has, is_abstract, access_modifiers, present_modifiers}

-- The list has the name.
abbrev pub Listed : Str → List Str → Type 0
Listed name [] = ⊥
Listed name (x ∷ xs) = (name ≡ x) ⊎ Listed name xs

-- The bit that the loop tests `k` rounds on.
abbrev pub bit_at : ℕ → ℕ → ℕ
bit_at bit zero = bit
bit_at bit (suc k) = bit_at (bit * 2) k

Listed-if :
    (b : Bool) (name x : Str) (xs : List Str)
    → Listed name xs
    → Listed name (if b then x ∷ xs else xs)
Listed-if true name x xs h = inr h
Listed-if false name x xs h = h

some_inj : {x y : Str} → some x ≡ some y → y ≡ x
some_inj h = cc

present_modifiers-Listed :
    (access_flags bit k : ℕ) (names : List Str) (name : Str)
    → get_elem? names k ≡ some name
    → has access_flags (bit_at bit k) ≡ true
    → Listed name (present_modifiers access_flags bit names)
unfolding present_modifiers
present_modifiers-Listed access_flags bit k [] name e h = absurd cc
present_modifiers-Listed access_flags bit zero (x ∷ names) name e h = rw h (inl (some_inj e))
present_modifiers-Listed access_flags bit (suc k) (x ∷ names) name e h =
    Listed-if (has access_flags bit) name x (present_modifiers access_flags (bit * 2) names)
      (present_modifiers-Listed access_flags (bit * 2) k names name e h)

abbrev pub Prints : ℕ → Str → Type 0
Prints access_flags name = Listed name (present_modifiers access_flags 1 access_modifiers)

-- For each of the 19 bits that is set, `toString` lists the modifier at the bit's place in
-- `_accessModifiers`.
pub present_modifiers-named :
    (access_flags k : ℕ) (name : Str)
    → get_elem? access_modifiers k ≡ some name
    → has access_flags (bit_at 1 k) ≡ true
    → Prints access_flags name
present_modifiers-named access_flags k name =
    present_modifiers-Listed access_flags 1 k access_modifiers name

-- What `isAbstract` takes for abstract, `toString` lists as varargs.
pub is_abstract-misnamed :
    (access_flags : ℕ) → is_abstract access_flags ≡ true → Prints access_flags (codes "varargs")
unfolding is_abstract
is_abstract-misnamed access_flags =
    present_modifiers-Listed access_flags 1 10 access_modifiers (codes "varargs") refl
