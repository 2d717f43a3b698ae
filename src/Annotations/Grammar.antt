-- ===== src/Annotations/Grammar.antt =====
-- The layout of annotations by the Java virtual machine specification (4.7.16 to 4.7.20), as a writer.
use tarracsh.Prelude.{ℕ, zero, suc, ◌≡◌, true, List, [], ◌∷◌, ◌++◌, length, All}
use tarracsh.ClassFile.Pool.{Bytes}
use tarracsh.ClassFile.Encode.{u2_bytes, Word16, write_all}
use tarracsh.Annotations.Parser.{
  ElementValue, const_value, class_value, enum_value, annotation_value, array_value, no_value,
  ElementValues, values_end, value_and, ValuePairs, pairs_end, pair_and, Annotation, is_const_tag,
}

abbrev pub count_values : ElementValues → ℕ
count_values values_end = 0
count_values (value_and v vs) = suc (count_values vs)

abbrev pub count_pairs : ValuePairs → ℕ
count_pairs pairs_end = 0
count_pairs (pair_and name v vs) = suc (count_pairs vs)

abbrev mutual
  pub write_value : ElementValue → Bytes
  write_value (const_value tag index) = tag ∷ u2_bytes index
  write_value (class_value index) = b'c' ∷ u2_bytes index
  write_value (enum_value type name) = b'e' ∷ (u2_bytes type ++ u2_bytes name)
  write_value (annotation_value type vs) =
      b'@' ∷ (u2_bytes type ++ (u2_bytes (count_pairs vs) ++ write_pairs vs))
  write_value (array_value vs) = b'[' ∷ (u2_bytes (count_values vs) ++ write_values vs)
  write_value (no_value tag) = []

  pub write_values : ElementValues → Bytes
  write_values values_end = []
  write_values (value_and v vs) = write_value v ++ write_values vs

  pub write_pairs : ValuePairs → Bytes
  write_pairs pairs_end = []
  write_pairs (pair_and name v vs) = u2_bytes name ++ (write_value v ++ write_pairs vs)

-- A value of the specification, whose numbers fit their fields and whose nesting is below `fuel`.
abbrev mutual
  pub Fits : ℕ → ElementValue → Type 0
  Fits zero v = ⊥
  Fits (suc fuel) (const_value tag index) = (is_const_tag tag ≡ true) × Word16 index
  Fits (suc fuel) (class_value index) = Word16 index
  Fits (suc fuel) (enum_value type name) = Word16 type × Word16 name
  Fits (suc fuel) (annotation_value type vs) =
      Word16 type × (Word16 (count_pairs vs) × PairsFit fuel vs)
  Fits (suc fuel) (array_value vs) = Word16 (count_values vs) × ValuesFit fuel vs
  Fits (suc fuel) (no_value tag) = ⊥

  pub ValuesFit : ℕ → ElementValues → Type 0
  ValuesFit fuel values_end = Unit
  ValuesFit fuel (value_and v vs) = Fits fuel v × ValuesFit fuel vs

  pub PairsFit : ℕ → ValuePairs → Type 0
  PairsFit fuel pairs_end = Unit
  PairsFit fuel (pair_and name v vs) = Word16 name × (Fits fuel v × PairsFit fuel vs)

abbrev pub write_annotation : Annotation → Bytes
write_annotation a =
    u2_bytes a.type_index ++ (u2_bytes (count_pairs a.values) ++ write_pairs a.values)

abbrev pub AnnotationFits : ℕ → Annotation → Type 0
AnnotationFits fuel a =
    Word16 a.type_index × (Word16 (count_pairs a.values) × PairsFit fuel a.values)

abbrev pub write_annotations : List Annotation → Bytes
write_annotations as' = u2_bytes (length as') ++ write_all write_annotation as'

abbrev pub AnnotationsFit : ℕ → List Annotation → Type 0
AnnotationsFit fuel as' = Word16 (length as') × All (AnnotationFits fuel) as'
