-- ===== src/Annotations/TypeArguments.antt =====
-- Where src/domain/classfile/AnnotationsParser.cpp reads a type argument target otherwise than it is
-- laid out.
use tarracsh.Prelude.{ℕ, ◌+◌, ◌*◌, ◌<◌, ◌≡◌, refl, sym, subst, ◌⊎◌, inl, inr, [], ◌∷◌, ◌++◌, arith}
use tarracsh.Outcome.{ok}
use tarracsh.ClassFile.Pool.{Bytes}
use tarracsh.ClassFile.Reader.{swap_short}
use tarracsh.ClassFile.Encode.{u2_bytes, Word16}
use tarracsh.Annotations.Reader.{◌>>=◌, pure, read_u2}
use tarracsh.Annotations.Types.{type_argument_target}
use tarracsh.Annotations.Types.{read_target_info}
use tarracsh.Annotations.TypeGrammar.{write_target}
use tarracsh.Annotations.RoundTrip.{at, Reads, Reads-bind, Reads-last, read_u2-Reads}
use tarracsh.Annotations.TypeRoundTrip.{by_type}

two_bytes-Reads :
    (index b : ℕ) → index < 256 → b < 256 → Reads read_u2 (index ∷ b ∷ []) (256 * index + b)
unfolding read_u2
two_bytes-Reads index b i j = record { run = λ k. rw (swapped index b i j) refl }
  where
    swapped :
        (index b : ℕ)
        → index < 256
        → b < 256
        → swap_short (index + 256 * (b + 256 * 0)) ≡ 256 * index + b
    swapped index b i j = omega (arith, i, j)

argument-Reads :
    (type offset index b : ℕ)
    → Word16 offset
    → index < 256
    → b < 256
    → Reads
        (read_u2 >>= λ o. read_u2 >>= λ n. pure (type_argument_target type o n))
        (u2_bytes offset ++ (index ∷ b ∷ []))
        (type_argument_target type offset (256 * index + b))
argument-Reads type offset index b w i j =
    Reads-bind read_u2 _ (u2_bytes offset) (index ∷ b ∷ []) offset _ (read_u2-Reads offset w) (
      Reads-last read_u2 (λ n. type_argument_target type offset n) (index ∷ b ∷ [])
        (256 * index + b) (two_bytes-Reads index b i j))

-- A type argument's index has one byte; the code takes the byte behind it as well, as its lower half.
pub read_target_info-wide :
    (type offset index b : ℕ) (k : Bytes)
    → Word16 offset
    → index < 256
    → b < 256
    → (type ≡ 71) ⊎ ((type ≡ 72) ⊎ ((type ≡ 73) ⊎ ((type ≡ 74) ⊎ (type ≡ 75))))
    → read_target_info type (at (write_target (type_argument_target type offset index) ++ (b ∷ k)))
      ≡ ok (type_argument_target type offset (256 * index + b), at k)
unfolding read_target_info
read_target_info-wide type offset index b k w i j = several
  where
    Wide : ℕ → Type 0
    Wide y =
        read_target_info y (at (write_target (type_argument_target y offset index) ++ (b ∷ k)))
        ≡ ok (type_argument_target y offset (256 * index + b), at k)

    several : (type ≡ 71) ⊎ ((type ≡ 72) ⊎ ((type ≡ 73) ⊎ ((type ≡ 74) ⊎ (type ≡ 75)))) → Wide type
    several (inl e) = subst Wide (sym e) ((argument-Reads 71 offset index b w i j).run k)
    several (inr (inl e)) = subst Wide (sym e) ((argument-Reads 72 offset index b w i j).run k)
    several (inr (inr (inl e))) =
        subst Wide (sym e) ((argument-Reads 73 offset index b w i j).run k)
    several (inr (inr (inr e))) =
        by_type Wide type 74 75 ((argument-Reads 74 offset index b w i j).run k)
          ((argument-Reads 75 offset index b w i j).run k) e
