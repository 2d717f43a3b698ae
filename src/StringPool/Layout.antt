-- ===== src/StringPool/Layout.antt =====
-- How strings lie in the block of src/infrastructure/db/StringPool.cpp, and how its nodes refer to
-- them: the contents of a pool as a list of strings.
use tarracsh.Prelude.{
  ℕ, zero, suc, ◌+◌, ◌≤◌, Bool-cases, inl, inr, ◌≡◌, refl, ap, true, false, List, [], ◌∷◌, ◌++◌,
  length, take, drop, Option, none, some, All, ◌==◌, if◌then◌else◌, arith,
}
use tarracsh.Outcome.{ok, >>=-ok}
use tarracsh.ClassFile.Pool.{Bytes}
use tarracsh.Digest.Class.{equal}
use tarracsh.StringPool.{Node, StringPool, c_string, text_of, has_zero}

-- The strings one behind the other, each with its terminator.
abbrev pub flat : List Bytes → Bytes
flat [] = []
flat (s ∷ ss) = s ++ (0 ∷ flat ss)

-- The place of the first string that is `s`, when the list starts at `offset`.
abbrev pub place : Bytes → ℕ → List Bytes → Option ℕ
place s offset [] = none
place s offset (t ∷ ss) =
    let rest = place s (offset + suc (length t)) ss in if equal t s then some offset else rest

-- What `add` promises: the place of the string, and the list with it.
abbrev pub place_after : Bytes → List Bytes → ℕ
place_after s ss = elim (place s 0 ss) [ some offset ↦ offset | none ↦ length (flat ss) ]

abbrev pub with_string : Bytes → List Bytes → List Bytes
with_string s ss = elim (place s 0 ss) [ some offset ↦ ss | none ↦ ss ++ (s ∷ []) ]

-- A node for the string `s` at `offset`.
pub record Holds (hash_of : Bytes → ℕ) (p : StringPool) (offset : ℕ) (s : Bytes) (e : Node)
    : Type 0 where
  pub shows : text_of p e.key ≡ ok s
  pub key_size : e.key.size ≡ length s
  pub code : e.hash_code ≡ hash_of s
  pub value_offset : e.value ≡ offset

module _ (hash_of : Bytes → ℕ) (p : StringPool) where
  -- The nodes are those of the strings, in their order from `offset` on.
  abbrev pub Indexed : ℕ → List Bytes → List Node → Type 0
  Indexed offset [] [] = Unit
  Indexed offset (s ∷ ss) (e ∷ es) =
      Holds hash_of p offset s e × Indexed (offset + suc (length s)) ss es
  Indexed offset ss es = ⊥

-- None of the strings is earlier in the list, or among `earlier`.
abbrev pub Fresh : List Bytes → List Bytes → Type 0
Fresh earlier [] = Unit
Fresh earlier (s ∷ ss) = (place s 0 earlier ≡ none) × Fresh (earlier ++ (s ∷ [])) ss

abbrev pub ZeroFree : Bytes → Type 0
ZeroFree s = has_zero s ≡ false

pub record Represents (hash_of : Bytes → ℕ) (p : StringPool) (ss : List Bytes) : Type 0 where
  pub contents : p.memory ≡ flat ss
  pub index : Indexed hash_of p 0 ss p.entries
  pub zero_free : All ZeroFree ss
  pub distinct : Fresh [] ss

pub equal_refl : (s : Bytes) → equal s s ≡ true
equal_refl [] = refl
equal_refl (x ∷ s) = ground (arith, equal_refl s)

pub equal_sound : (s t : Bytes) → equal s t ≡ true → s ≡ t
equal_sound [] [] h = refl
equal_sound [] (y ∷ t) h = cc
equal_sound (x ∷ s) [] h = cc
equal_sound (x ∷ s) (y ∷ t) h = grind (arith, equal_sound s t)

pub take-length : (s rest : Bytes) → take (length s) (s ++ rest) ≡ s
take-length [] rest = refl
take-length (b ∷ s) rest = ap (b ∷◌) (take-length s rest)

pub drop-length : (s rest : Bytes) → drop (length s) (s ++ rest) ≡ rest
drop-length [] rest = refl
drop-length (b ∷ s) rest = drop-length s rest

pub c_string-append : (s rest : Bytes) → ZeroFree s → c_string (s ++ (0 ∷ rest)) ≡ ok s
unfolding c_string
c_string-append [] rest h = refl
c_string-append (b ∷ s) rest h = ground (arith, c_string-append s rest)

-- A string that was read stays what it was when bytes are added behind.
pub c_string-extend :
    (bytes more s : Bytes) → c_string bytes ≡ ok s → c_string (bytes ++ more) ≡ ok s
unfolding c_string
c_string-extend [] more s = λ h. cc
c_string-extend (b ∷ bytes) more s = elim (Bool-cases (b == 0)) [
  | inl e ↦ rw e (λ h. h)
  | inr e ↦ rw e (λ h.
      let (text, f, g) = >>=-ok (c_string bytes) (λ text. ok (b ∷ text)) s h in
      rw (c_string-extend bytes more text f) g)
]

pub take-append : (n : ℕ) (xs ys : Bytes) → n ≤ length xs → take n (xs ++ ys) ≡ take n xs
take-append zero xs ys h = refl
take-append (suc n) [] ys h = absurd (omega arith)
take-append (suc n) (x ∷ xs) ys h = ap (x ∷◌) (take-append n xs ys (omega arith))

pub drop-append : (n : ℕ) (xs ys : Bytes) → n ≤ length xs → drop n (xs ++ ys) ≡ drop n xs ++ ys
drop-append zero xs ys h = refl
drop-append (suc n) [] ys h = absurd (omega arith)
drop-append (suc n) (x ∷ xs) ys h = drop-append n xs ys (omega arith)

pub drop_beyond : (n : ℕ) (xs : Bytes) → length xs ≤ n → drop n xs ≡ []
drop_beyond zero [] h = refl
drop_beyond zero (x ∷ xs) h = absurd (omega arith)
drop_beyond (suc n) [] h = refl
drop_beyond (suc n) (x ∷ xs) h = drop_beyond n xs (omega arith)

pub length-drop : (n : ℕ) (xs : Bytes) → n ≤ length xs → length (drop n xs) + n ≡ length xs
length-drop zero xs h = omega arith
length-drop (suc n) [] h = omega arith
length-drop (suc n) (x ∷ xs) h = omega (arith, length-drop n xs (omega arith))
