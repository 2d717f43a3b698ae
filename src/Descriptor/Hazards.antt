-- ===== src/Descriptor/Hazards.antt =====
-- On texts outside the grammar.
use tarracsh.Prelude.{
  ℕ, zero, suc, ◌+◌, ◌≡◌, refl, true, false, not, ◌&&◌, ◌⊎◌, inl, inr, List, [], ◌∷◌, ◌++◌, ◌==◌,
  All, some, Bool-cases,
}
use tarracsh.Outcome.{Outcome, ok, out_of_fuel}
use tarracsh.Descriptor.Scanner.{Str, Scanner}
use tarracsh.Descriptor.Parser.{
  Descriptor, no_descriptor, slash_to_dot, get_fq_classname, is_skipped, type_name, parse_character,
  is_empty, parse_loop, parse_with, parse_descriptor, parse_arguments,
}

-- The scanner stands on the last character, `c`.
abbrev pub at_end : Str → ℕ → Scanner
at_end w c = record { signature_string = w; under = some c; rest = [] }

classname_end : (f : ℕ) (type w : Str) (c : ℕ) → get_fq_classname f type (at_end w c) ≡ out_of_fuel
unfolding get_fq_classname
classname_end zero type w c = refl
classname_end (suc f) type w c = classname_end f (type ++ 0 ∷ []) w c

classname_open :
    (name : Str) (f : ℕ) (type w : Str) (c : ℕ)
    → All (λ c. (c == b';') ≡ false) name
    → get_fq_classname f type (record { signature_string = w; under = some c; rest = name })
      ≡ out_of_fuel
unfolding get_fq_classname
classname_open name zero type w c v = refl
classname_open [] (suc f) type w c v = classname_end f (type ++ 0 ∷ []) w c
classname_open (x ∷ name) (suc f) type w c v =
    rw v.0 (classname_open name f (type ++ slash_to_dot x ∷ []) w x v.1)

-- A class descriptor with no `;` makes the parser append characters for ever: however much fuel it
-- is given, it runs out.
pub parse_descriptor-diverges :
    (name : Str) (f : ℕ)
    → All (λ c. (c == b';') ≡ false) name
    → parse_descriptor f (b'L' ∷ name) ≡ out_of_fuel
unfolding parse_descriptor parse_with parse_loop parse_character
parse_descriptor-diverges name zero v = refl
parse_descriptor-diverges name (suc f) v = rw (classname_open name f [] (b'L' ∷ name) b'L' v)

-- A run on the last character ran out of fuel, or left the scanner there.
abbrev Stays : Str → ℕ → Outcome (Descriptor × Scanner) → Type 0
Stays w e r = (r ≡ out_of_fuel) ⊎ ((d : Descriptor) × (r ≡ ok (d, at_end w e)))

character-Stays :
    (f c : ℕ) (d : Descriptor) (w : Str) (e : ℕ) → Stays w e (parse_character f c d (at_end w e))
unfolding parse_character
character-Stays f c d w e = elim (Bool-cases (c == b'[')) [
  | inl p ↦ rw p (inr (record d { is_array = true; dimensions = d.dimensions + 1 }, refl))
  | inr p ↦ rw p (elim (Bool-cases (c == b'L')) [
    | inl q ↦ rw (q, classname_end f d.type w e) (inl refl)
    | inr q ↦ rw q (elim (Bool-cases (is_skipped c)) [
      | inl s ↦ rw s (inr (d, refl))
      | inr s ↦ rw s (inr (record d { type = type_name c w }, refl))
    ])
  ])
]

loop-Stays :
    (f c : ℕ) (d : Descriptor) (w : Str) (e : ℕ) → Stays w e (parse_loop f c d (at_end w e))
unfolding parse_loop
loop-Stays zero c d w e = inl refl
loop-Stays (suc f) c d w e =
    elim (Bool-cases (not (c == 0) && is_empty d.type && not (c == b')'))) [
      | inr stop ↦ rw stop (inr (d, refl))
      | inl go ↦ rw go (elim (character-Stays f c d w e) [
        | inl out ↦ rw out (inl refl)
        | inr (d', done) ↦ rw done (loop-Stays f 0 d' w e)
      ])
    ]

-- When `parseParameters` reaches the last character of the text and that is no `)`, its loop never
-- ends: however much fuel it is given, it runs out.
pub parse_arguments-diverges :
    (f : ℕ) (args : List Descriptor) (w : Str) (c : ℕ)
    → (c == b')') ≡ false
    → parse_arguments f args (at_end w c) ≡ out_of_fuel
unfolding parse_arguments parse_with
parse_arguments-diverges zero args w c h = refl
parse_arguments-diverges (suc f) args w c h = rw h (elim (loop-Stays f c no_descriptor w c) [
  | inl out ↦ rw out refl
  | inr (d, done) ↦ rw done (parse_arguments-diverges f (args ++ d ∷ []) w c h)
])
