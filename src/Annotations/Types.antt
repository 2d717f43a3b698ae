-- ===== src/Annotations/Types.antt =====
-- The reading of type annotations in src/domain/classfile/AnnotationsParser.cpp.
use tarracsh.Prelude.{ℕ, ◌||◌, ◌==◌, List, if◌then◌else◌}
use tarracsh.Annotations.Reader.{Decode, ◌>>=◌, pure, failed, read_u1, read_u2, times}
use tarracsh.Annotations.Parser.{ValuePairs, read_annotation_values, read_element_value}

-- `targetInfo` and `local_var_target` of a TypeAnnotation, with the target's type where several share
-- a shape.
pub data TargetInfo : Type 0 where
  type_parameter_target : ℕ → ℕ → TargetInfo
  type_parameter_bound_target : ℕ → ℕ → ℕ → TargetInfo
  supertype_target empty_target formal_parameter_target throws_target catch_target : ℕ → TargetInfo
  localvar_target : ℕ → List (ℕ × (ℕ × ℕ)) → TargetInfo
  offset_target : ℕ → ℕ → TargetInfo
  type_argument_target : ℕ → ℕ → ℕ → TargetInfo

-- LocalVarTargetEntry: `startPC`, `length` and `index`.
unfoldable pub read_local_var : Decode (ℕ × (ℕ × ℕ))
read_local_var =
    read_u2 >>= λ start. read_u2 >>= λ length. read_u2 >>= λ index. pure (start, (length, index))

-- The switch of `readAnnotation(TypeAnnotation &)`, with the type as first argument of the target
-- where several types share its shape.
unfoldable pub read_target_info : ℕ → Decode TargetInfo
read_target_info type =
    if type == 0 || type == 1
    then (read_u1 >>= λ index. pure (type_parameter_target type index))
    else if type == 16
    then (read_u2 >>= λ index. pure (supertype_target index))
    else if type == 17 || type == 18
    then (read_u1 >>= λ index.
        read_u1 >>= λ bound. pure (type_parameter_bound_target type index bound))
    else if type == 19 || (type == 20 || type == 21)
    then pure (empty_target type)
    else if type == 22
    then (read_u1 >>= λ index. pure (formal_parameter_target index))
    else if type == 23
    then (read_u2 >>= λ index. pure (throws_target index))
    else if type == 64 || type == 65
    then (read_u2 >>= λ n. times n read_local_var >>= λ items. pure (localvar_target type items))
    else if type == 66
    then (read_u2 >>= λ index. pure (catch_target index))
    else if type == 67 || (type == 68 || (type == 69 || type == 70))
    then (read_u2 >>= λ offset. pure (offset_target type offset))
    else if type == 71 || (type == 72 || (type == 73 || (type == 74 || type == 75)))
    then (read_u2 >>= λ offset. read_u2 >>= λ index. pure (type_argument_target type offset index))
    else failed

pub record TypeAnnotation : Type 0 where
  pub target : TargetInfo
  pub path : List (ℕ × ℕ)
  pub type_index : ℕ
  pub values : ValuePairs

unfoldable pub read_path_item : Decode (ℕ × ℕ)
read_path_item = read_u1 >>= λ kind. read_u1 >>= λ argument. pure (kind, argument)

unfoldable pub read_type_annotation : ℕ → Decode TypeAnnotation
read_type_annotation fuel = read_u1 >>= λ type. read_target_info type >>= λ target. read_u1 >>= λ n.
    times n read_path_item >>= λ path. read_u2 >>= λ type_index. read_u2 >>= λ count.
    read_annotation_values (read_element_value fuel) count >>= λ vs.
    pure (record { target = target; path = path; type_index = type_index; values = vs })

unfoldable pub read_type_annotations : ℕ → Decode (List TypeAnnotation)
read_type_annotations fuel = read_u2 >>= λ n. times n (read_type_annotation fuel)
