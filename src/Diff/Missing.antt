-- ===== src/Diff/Missing.antt =====
-- Attributes on one side only, in `compareAttributes` of src/interfaces/cfdiff/ClassfileDiffApp.cpp.
use tarracsh.Prelude.{
  ℕ, ◌+◌, ◌%◌, ◌^◌, ◌≡◌, refl, ap, arith, true, false, List, [], ◌∷◌, All, Bool-cases, inl, inr,
}
use tarracsh.Outcome.{ok}
use tarracsh.ClassFile.Pool.{Bytes, ConstantPool}
use tarracsh.ClassFile.Entries.{get_string}
use tarracsh.ClassFile.Parser.{AttributeInfo}
use tarracsh.Diff.Names.{NameMap, is_among, find, put, by_name}
use tarracsh.Diff.Compare.{
  add_differences, match_attribute, match_attributes, count_missing, attribute_differences,
  compare_attributes,
}
use tarracsh.Diff.Readable.{AttributeReadable, by_name-Kept}

module _ (ignored : List Bytes) where
  match_attributes_none :
      (m : NameMap AttributeInfo) (n : ℕ) → match_attributes ignored m [] n ≡ ([], n)
  unfolding match_attributes match_attribute find
  match_attributes_none [] n = refl
  match_attributes_none ((name, a) ∷ m) n = elim (Bool-cases (is_among name ignored)) [
    | inl e ↦ rw e (match_attributes_none m n)
    | inr e ↦ rw e (match_attributes_none m n)
  ]

  -- Attributes that only the left side has are no differences, however many; one that only the right
  -- side has is one, if its name is not ignored.
  pub compare_attributes_missing :
      (left right : ConstantPool) (xs : List AttributeInfo) (a : AttributeInfo) (name : Bytes)
      (count : ℕ)
      → All (AttributeReadable left) xs
      → get_string right a.name_index ≡ ok name
      → is_among name ignored ≡ false
      → (compare_attributes ignored left right xs [] count ≡ ok (true, count % 2 ^ 32))
        × (compare_attributes ignored left right [] (a ∷ []) count
            ≡ ok (false, (count + 1) % 2 ^ 32))
  unfolding compare_attributes attribute_differences add_differences by_name match_attributes
      count_missing put
  compare_attributes_missing left right xs a name count h e other =
      let (m, made, kept) =
        by_name-Kept (AttributeReadable left) (λ x. get_string left x.name_index) [] xs
          (λ x named. named) tt h in
      (
        rw (made, match_attributes_none m 0) (ap (λ n. ok (true, n)) (omega arith)),
        rw (e, other) refl,
      )
