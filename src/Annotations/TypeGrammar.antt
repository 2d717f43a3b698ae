-- ===== src/Annotations/TypeGrammar.antt =====
-- The layout of type annotations by the Java virtual machine specification (4.7.20), as a writer.
use tarracsh.Prelude.{ℕ, ◌≡◌, ◌⊎◌, List, [], ◌∷◌, ◌++◌, length, All}
use tarracsh.ClassFile.Pool.{Bytes}
use tarracsh.ClassFile.Encode.{u2_bytes, Word16, write_all}
use tarracsh.Annotations.Grammar.{count_pairs, write_pairs, PairsFit}
use tarracsh.Annotations.Types.{
  TargetInfo, TypeAnnotation, type_parameter_target, type_parameter_bound_target, supertype_target,
  empty_target, formal_parameter_target, throws_target, catch_target, localvar_target,
  offset_target, type_argument_target,
}

abbrev pub write_local_var : ℕ × (ℕ × ℕ) → Bytes
write_local_var (start, (size, index)) = u2_bytes start ++ (u2_bytes size ++ u2_bytes index)

-- The type of a target, and the target (4.7.20.1).
abbrev pub target_type : TargetInfo → ℕ
target_type (type_parameter_target type index) = type
target_type (supertype_target index) = 16
target_type (type_parameter_bound_target type index bound) = type
target_type (empty_target type) = type
target_type (formal_parameter_target index) = 22
target_type (throws_target index) = 23
target_type (localvar_target type items) = type
target_type (catch_target index) = 66
target_type (offset_target type offset) = type
target_type (type_argument_target type offset index) = type

abbrev pub write_target : TargetInfo → Bytes
write_target (type_parameter_target type index) = index ∷ []
write_target (supertype_target index) = u2_bytes index
write_target (type_parameter_bound_target type index bound) = index ∷ bound ∷ []
write_target (empty_target type) = []
write_target (formal_parameter_target index) = index ∷ []
write_target (throws_target index) = u2_bytes index
write_target (localvar_target type items) =
    u2_bytes (length items) ++ write_all write_local_var items
write_target (catch_target index) = u2_bytes index
write_target (offset_target type offset) = u2_bytes offset
write_target (type_argument_target type offset index) = u2_bytes offset ++ (index ∷ [])

abbrev pub LocalVarFits : ℕ × (ℕ × ℕ) → Type 0
LocalVarFits (start, (size, index)) = Word16 start × (Word16 size × Word16 index)

-- A target of a type that has its shape; no type argument.
abbrev pub TargetFits : TargetInfo → Type 0
TargetFits (type_parameter_target type index) = (type ≡ 0) ⊎ (type ≡ 1)
TargetFits (supertype_target index) = Word16 index
TargetFits (type_parameter_bound_target type index bound) = (type ≡ 17) ⊎ (type ≡ 18)
TargetFits (empty_target type) = (type ≡ 19) ⊎ ((type ≡ 20) ⊎ (type ≡ 21))
TargetFits (formal_parameter_target index) = Unit
TargetFits (throws_target index) = Word16 index
TargetFits (localvar_target type items) =
    ((type ≡ 64) ⊎ (type ≡ 65)) × (Word16 (length items) × All LocalVarFits items)
TargetFits (catch_target index) = Word16 index
TargetFits (offset_target type offset) =
    ((type ≡ 67) ⊎ ((type ≡ 68) ⊎ ((type ≡ 69) ⊎ (type ≡ 70)))) × Word16 offset
TargetFits (type_argument_target type offset index) = ⊥

abbrev pub write_path_item : ℕ × ℕ → Bytes
write_path_item (kind, argument) = kind ∷ argument ∷ []

abbrev pub write_type_annotation : TypeAnnotation → Bytes
write_type_annotation a =
    target_type a.target
    ∷ (write_target a.target
        ++ (length a.path
            ∷ (write_all write_path_item a.path
                ++ (u2_bytes a.type_index
                    ++ (u2_bytes (count_pairs a.values) ++ write_pairs a.values)))))

abbrev pub TypeAnnotationFits : ℕ → TypeAnnotation → Type 0
TypeAnnotationFits fuel a =
    TargetFits a.target
    × (Word16 a.type_index × (Word16 (count_pairs a.values) × PairsFit fuel a.values))

abbrev pub write_type_annotations : List TypeAnnotation → Bytes
write_type_annotations as' = u2_bytes (length as') ++ write_all write_type_annotation as'

abbrev pub TypeAnnotationsFit : ℕ → List TypeAnnotation → Type 0
TypeAnnotationsFit fuel as' = Word16 (length as') × All (TypeAnnotationFits fuel) as'
