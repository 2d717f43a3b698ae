-- ===== src/Annotations/Parser.antt =====
-- The reading half of src/domain/classfile/AnnotationsParser.cpp.
use tarracsh.Prelude.{ℕ, zero, suc, Bool, ◌||◌, ◌==◌, List, if◌then◌else◌}
use tarracsh.Annotations.Reader.{Decode, ◌>>=◌, pure, failed, exhausted, read_u1, read_u2, times}

-- ElementValue, with the arms of its Value by tag, and the vectors that it holds. `no_value` is one
-- with a tag that the switch does not list.
mutual
  pub data ElementValue : Type 0 where
    const_value : ℕ → ℕ → ElementValue
    class_value : ℕ → ElementValue
    enum_value : ℕ → ℕ → ElementValue
    annotation_value : ℕ → ValuePairs → ElementValue
    array_value : ElementValues → ElementValue
    no_value : ℕ → ElementValue

  pub data ElementValues : Type 0 where
    values_end : ElementValues
    value_and : ElementValue → ElementValues → ElementValues

  pub data ValuePairs : Type 0 where
    pairs_end : ValuePairs
    pair_and : ℕ → ElementValue → ValuePairs → ValuePairs

pub record Annotation : Type 0 where
  pub type_index : ℕ
  pub values : ValuePairs

-- B C D F I J S Z and s: an index of a constant.
abbrev pub is_const_tag : ℕ → Bool
is_const_tag tag =
    tag == b'I'
    || (tag == b'J'
        || (tag == b'S'
            || (tag == b'Z'
                || (tag == b'C'
                    || (tag == b'B' || (tag == b'F' || (tag == b'D' || tag == b's')))))))

-- The signature characters that no element value has.
abbrev pub is_invalid_tag : ℕ → Bool
is_invalid_tag tag =
    tag == b'/'
    || (tag == b'.'
        || (tag == b'<'
            || (tag == b'>'
                || (tag == b'L'
                    || (tag == b';'
                        || (tag == b'E' || (tag == b'(' || (tag == b')' || tag == b'V'))))))))

-- The loops, given how a value is read.
unfoldable pub read_values : Decode ElementValue → ℕ → Decode ElementValues
read_values one zero = pure values_end
read_values one (suc n) = one >>= λ v. read_values one n >>= λ vs. pure (value_and v vs)

unfoldable pub read_annotation_values : Decode ElementValue → ℕ → Decode ValuePairs
read_annotation_values one zero = pure pairs_end
read_annotation_values one (suc n) = read_u2 >>= λ name.
    one >>= λ v. read_annotation_values one n >>= λ vs. pure (pair_and name v vs)

-- The switch of `readElementValue`.
unfoldable pub read_tagged : Decode ElementValue → ℕ → Decode ElementValue
read_tagged one tag =
    if tag == b'['
    then (read_u2 >>= λ n. read_values one n >>= λ vs. pure (array_value vs))
    else if is_const_tag tag
    then (read_u2 >>= λ index. pure (const_value tag index))
    else if tag == b'c'
    then (read_u2 >>= λ index. pure (class_value index))
    else if tag == b'@'
    then (read_u2 >>= λ type_index. read_u2 >>= λ n.
        read_annotation_values one n >>= λ vs. pure (annotation_value type_index vs))
    else if tag == b'e'
    then (read_u2 >>= λ type_name. read_u2 >>= λ name. pure (enum_value type_name name))
    else if is_invalid_tag tag
    then failed
    else pure (no_value tag)

unfoldable pub read_element_value : ℕ → Decode ElementValue
read_element_value zero = exhausted
read_element_value (suc fuel) = read_u1 >>= λ tag. read_tagged (read_element_value fuel) tag

unfoldable pub read_annotation : ℕ → Decode Annotation
read_annotation fuel = read_u2 >>= λ type_index. read_u2 >>= λ n.
    read_annotation_values (read_element_value fuel) n >>= λ vs.
    pure (record { type_index = type_index; values = vs })

-- RuntimeAnnotations, RuntimeParameterAnnotations and AnnotationDefault.
unfoldable pub read_annotations : ℕ → Decode (List Annotation)
read_annotations fuel = read_u2 >>= λ n. times n (read_annotation fuel)

unfoldable pub read_parameter_annotations : ℕ → Decode (List (List Annotation))
read_parameter_annotations fuel = read_u1 >>= λ n. times n (read_annotations fuel)
