-- ===== src/ClassFile/Truncated.antt =====
-- What the two readers make of an attribute whose content is cut off by the end of the input.
use tarracsh.Prelude.{
  ℕ, ◌+◌, ◌-◌, ◌^◌, ◌≤◌, ◌<◌, ◌≡◌, refl, Bool, ap, [], ◌++◌, length, take, drop, replicate, arith,
  lt→ltb, ltb, if◌then◌else◌, ◌∷◌, suc, zero,
}
use tarracsh.Outcome.{ok, threw}
use tarracsh.ClassFile.Reader.{memory, file, Reader, pure, read_bytes}
use tarracsh.ClassFile.Pool.{Bytes}
use tarracsh.ClassFile.Parser.{read_attribute}
use tarracsh.ClassFile.Encode.{u2_bytes, u4_bytes, Word16, Word32}
use tarracsh.ClassFile.Reads.{reader, Reads-zeroed_u2, Reads-zeroed_u4}

take_all : (n : ℕ) (xs : Bytes) → length xs ≤ n → take n xs ≡ xs
take_all zero [] h = refl
take_all zero (x ∷ xs) h = absurd (omega arith)
take_all (suc n) [] h = refl
take_all (suc n) (x ∷ xs) h = ap (λ ys. x ∷ ys) (take_all n xs (omega arith))

drop_all : (n : ℕ) (xs : Bytes) → length xs ≤ n → drop n xs ≡ []
drop_all zero [] h = refl
drop_all zero (x ∷ xs) h = absurd (omega arith)
drop_all (suc n) [] h = refl
drop_all (suc n) (x ∷ xs) h = drop_all n xs (omega arith)

module _ (claimed : ℕ) (content : Bytes) (short : length content < claimed) (size : ℕ)
    (header : Bool) (n last : ℕ) where
  content_from_file :
      (if ltb 0 claimed then read_bytes claimed else pure [])
        (reader file size header n last content)
      ≡ ok (content, reader file size header n (length content) [])
  unfolding read_bytes
  content_from_file = rw (
    lt→ltb 0 claimed (omega arith),
    take_all claimed content (omega arith),
    drop_all claimed content (omega arith),
  )

  content_from_memory :
      (if ltb 0 claimed then read_bytes claimed else pure [])
        (reader memory size header n last content)
      ≡ threw
  unfolding read_bytes
  content_from_memory =
      rw (lt→ltb 0 claimed (omega arith), lt→ltb (length content) claimed (omega arith))

-- The attribute's name and length, and what is left of its content, at the end of the input.
abbrev pub cut_off : ℕ → ℕ → Bytes → Bytes
cut_off name_index claimed content = u2_bytes name_index ++ (u4_bytes claimed ++ content)

-- At the end of an input, an attribute with fewer bytes of content than its length says: from a
-- file it is accepted, its content filled up with zeros; from memory the reader throws.
pub read_attribute-cut_off :
    (name_index claimed : ℕ) (content : Bytes) (size : ℕ) (header : Bool) (n last : ℕ)
    → length content < claimed
    → Word16 name_index
    → Word32 claimed
    → n + length (cut_off name_index claimed content) ≤ size
    → size < 2 ^ 32
    → ((r : Reader) × (read_attribute
            (reader file size header n last (cut_off name_index claimed content))
          ≡ ok (
            record {
              name_index = name_index;
              info = content ++ replicate (claimed - length content) 0;
            },
            r,
          )))
      × (read_attribute (reader memory size header n last (cut_off name_index claimed content))
          ≡ threw)
unfolding read_attribute
read_attribute-cut_off name_index claimed content size header n last short a b fits small =
    let rest = u4_bytes claimed ++ content in
    let (n₁, last₁, e₁, f₁) =
      (Reads-zeroed_u2 name_index a).run file size header n last rest fits small in
    let (n₂, last₂, e₂, f₂) =
      (Reads-zeroed_u4 claimed b).run file size header n₁ last₁ content f₁ small in
    let (n₃, last₃, e₃, f₃) =
      (Reads-zeroed_u2 name_index a).run memory size header n last rest fits small in
    let (n₄, last₄, e₄, f₄) =
      (Reads-zeroed_u4 claimed b).run memory size header n₃ last₃ content f₃ small in
    (
      (
        reader file size header n₂ (length content) [],
        rw (e₁, e₂, content_from_file claimed content short size header n₂ last₂) refl,
      ),
      rw (e₃, e₄, content_from_memory claimed content short size header n₄ last₄) refl,
    )
