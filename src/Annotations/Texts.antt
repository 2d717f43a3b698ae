-- ===== src/Annotations/Texts.antt =====
-- The texts of annotations in src/domain/classfile/AnnotationsParser.cpp.
use tarracsh.Prelude.{ℕ, ◌==◌, List, [], ◌∷◌, ◌++◌, map, codes, if◌then◌else◌}
use tarracsh.Outcome.{Outcome, ok, fault, ◌>>=◌}
use tarracsh.ClassFile.Pool.{Bytes, ConstantPool}
use tarracsh.ClassFile.Entries.{get_classname, get_string, get_type_string}
use tarracsh.Annotations.Reader
use tarracsh.Annotations.Reader.{Decode, lift}
use tarracsh.Annotations.Parser.{
  ElementValue, const_value, class_value, enum_value, annotation_value, array_value, no_value,
  ElementValues, values_end, value_and, ValuePairs, pairs_end, pair_and, Annotation,
  read_element_value, read_annotations, read_parameter_annotations,
}
use tarracsh.Annotations.Types.{
  TargetInfo, type_parameter_target, type_parameter_bound_target, supertype_target, empty_target,
  formal_parameter_target, throws_target, catch_target, localvar_target, offset_target,
  type_argument_target, TypeAnnotation, read_type_annotations,
}
use tarracsh.Attributes.Texts.{Formats, join}
use tarracsh.Attributes.Constants.{get_constant_value_string}

-- A loop that turns each item into a text.
unfoldable pub texts : {A : Type 0} → (A → Outcome Bytes) → List A → Outcome (List Bytes)
texts show [] = ok []
texts show (a ∷ xs) = show a >>= λ text. texts show xs >>= λ rest. ok (text ∷ rest)

abbrev pub comma : Bytes
comma = codes ", "

-- `{}: ({})`
abbrev pub annotation_text : Bytes → List Bytes → Bytes
annotation_text type pairs = type ++ (codes ": (" ++ (join comma pairs ++ codes ")"))

-- ` [{}]`, or nothing.
abbrev pub value_suffix : List Bytes → Bytes
value_suffix [] = []
value_suffix (pair ∷ pairs) = codes " [" ++ (join comma (pair ∷ pairs) ++ codes "]")

-- `elementValueToString`, and `annotationToString` of a pair, each for all items of a vector. A tag
-- that the switch does not list has no text.
unfoldable mutual
  pub element_value_to_string : Formats → ℕ → ConstantPool → ElementValue → Outcome Bytes
  element_value_to_string formats fuel pool (const_value tag index) =
      get_constant_value_string formats fuel pool index
  element_value_to_string formats fuel pool (class_value index) = get_classname pool index
  element_value_to_string formats fuel pool (enum_value type name) =
      get_string pool type >>= λ type_name.
      get_constant_value_string formats fuel pool name >>= λ constant.
      ok (type_name ++ b'=' ∷ constant)
  element_value_to_string formats fuel pool (annotation_value type vs) =
      get_type_string fuel pool type >>= λ type_text.
      pairs_to_string formats fuel pool vs >>= λ pairs. ok (annotation_text type_text pairs)
  element_value_to_string formats fuel pool (array_value vs) =
      values_to_string formats fuel pool vs >>= λ parts. ok (join (codes ",") parts)
  element_value_to_string formats fuel pool (no_value tag) = ok []

  pub values_to_string : Formats → ℕ → ConstantPool → ElementValues → Outcome (List Bytes)
  values_to_string formats fuel pool values_end = ok []
  values_to_string formats fuel pool (value_and v vs) =
      element_value_to_string formats fuel pool v >>= λ text.
      values_to_string formats fuel pool vs >>= λ rest. ok (text ∷ rest)

  pub pairs_to_string : Formats → ℕ → ConstantPool → ValuePairs → Outcome (List Bytes)
  pairs_to_string formats fuel pool pairs_end = ok []
  pairs_to_string formats fuel pool (pair_and name v vs) = get_string pool name >>= λ key.
      element_value_to_string formats fuel pool v >>= λ text.
      pairs_to_string formats fuel pool vs >>= λ rest.
      ok ((key ++ (codes "=(" ++ (text ++ codes ")"))) ∷ rest)

-- For the types of target that share a shape: what their texts start with.
abbrev pub owner_text : ℕ → ℕ → Bytes
owner_text class_type type =
    if type == class_type then codes " class/interface" else codes " member/constructor"

abbrev pub offset_label : ℕ → Bytes
offset_label type =
    if type == 0x43
    then codes "instanceof bytecode offset: "
    else if type == 0x44
    then codes "new bytecode offset: "
    else if type == 0x45
    then codes "methodref ::new bytecode offset: "
    else codes "methodref ::Identifier bytecode offset: "

abbrev pub argument_label : ℕ → Bytes
argument_label type =
    if type == 0x47
    then codes "type-cast bytecode offset: "
    else if type == 0x48
    then codes "arg. gen constructor bytecode offset: "
    else if type == 0x49
    then codes "arg. gen member call bytecode offset: "
    else if type == 0x4A
    then codes "arg. gen constructor methodref ::new bytecode offset: "
    else codes "arg. gen constructor methodref ::Identifier bytecode offset: "

module _ (formats : Formats) where
  -- `localVarAnnotationToString`
  abbrev pub location_text : ℕ × (ℕ × ℕ) → Bytes
  location_text (start_pc, (range, index)) =
      codes "(start_pc:"
      ++ (formats.number start_pc
          ++ (codes ",length:"
              ++ (formats.number range
                  ++ (codes ",index:" ++ (formats.number index ++ codes ")")))))

  unfoldable pub local_var_annotation_to_string : List (ℕ × (ℕ × ℕ)) → Bytes
  local_var_annotation_to_string items =
      codes "local var locations: " ++ join (codes ",") (map location_text items)

  -- The switch of `annotationToString(TypeAnnotation)`. For a type parameter it shows the index of a
  -- type argument, which is in a part of the union that nothing was written to.
  unfoldable pub target_description : TargetInfo → Outcome Bytes
  target_description (type_parameter_target type index) = fault
  target_description (supertype_target index) =
      ok (codes "index: " ++ (formats.number index ++ codes " super-type"))
  target_description (type_parameter_bound_target type index bound) = ok (
      codes "index, bound: "
      ++ (formats.number index ++ b',' ∷ (formats.number bound ++ owner_text 0x11 type)))
  target_description (empty_target type) = ok (codes "field")
  target_description (formal_parameter_target index) =
      ok (codes "param index: " ++ formats.number index)
  target_description (throws_target index) = ok (codes "exception index: " ++ formats.number index)
  target_description (localvar_target type items) = ok (
      (if type == 0x40 then codes "local var: " else codes "local res var: ")
      ++ local_var_annotation_to_string items)
  target_description (catch_target index) =
      ok (codes "type exception param index: " ++ formats.number index)
  target_description (offset_target type offset) = ok (offset_label type ++ formats.number offset)
  target_description (type_argument_target type offset index) = ok (
      argument_label type ++ (formats.number offset ++ (codes ", index: " ++ formats.number index)))

  module _ (fuel : ℕ) (pool : ConstantPool) where
    -- `annotationToString(Annotation)`
    unfoldable pub annotation_to_string : Annotation → Outcome Bytes
    annotation_to_string a = get_type_string fuel pool a.type_index >>= λ type.
        pairs_to_string formats fuel pool a.values >>= λ pairs. ok (annotation_text type pairs)

    -- `annotationsToString(RuntimeAnnotations)`, and `annotationToString(ParameterAnnotation)`.
    unfoldable pub annotations_to_string : List Annotation → Outcome Bytes
    annotations_to_string as' = texts annotation_to_string as' >>= λ parts. ok (join comma parts)

    -- `annotationsToString(RuntimeParameterAnnotations)`
    unfoldable pub parameter_annotations_to_string : List (List Annotation) → Outcome Bytes
    parameter_annotations_to_string pss =
        texts annotations_to_string pss >>= λ parts. ok (b'(' ∷ (join comma parts ++ codes ")"))

    -- `annotationToString(TypeAnnotation)`
    unfoldable pub type_annotation_to_string : TypeAnnotation → Outcome Bytes
    type_annotation_to_string a = pairs_to_string formats fuel pool a.values >>= λ pairs.
        target_description a.target >>= λ description.
        get_type_string fuel pool a.type_index >>= λ type.
        ok (type ++ (codes ": " ++ (description ++ value_suffix pairs)))

    -- `toStringRuntimeAnnotations` and the like; reading has the same fuel.
    unfoldable pub runtime_annotations_to_string : Decode Bytes
    runtime_annotations_to_string =
        Reader.◌>>=◌ (read_annotations fuel) (λ as'. lift (annotations_to_string as'))

    unfoldable pub runtime_parameter_annotations_to_string : Decode Bytes
    runtime_parameter_annotations_to_string =
        Reader.◌>>=◌ (read_parameter_annotations fuel)
          (λ pss. lift (parameter_annotations_to_string pss))

    unfoldable pub runtime_type_annotations_to_string : Decode Bytes
    runtime_type_annotations_to_string =
        Reader.◌>>=◌ (read_type_annotations fuel) (λ as'.
          lift (texts type_annotation_to_string as' >>= λ parts. ok (join (codes "|") parts)))

    -- `toStringAnnotationDefault`, of the attribute that has this name.
    unfoldable pub annotation_default_to_string : ℕ → Decode Bytes
    annotation_default_to_string name_index = Reader.◌>>=◌ (read_element_value fuel) (λ v. lift (
        get_string pool name_index >>= λ name.
        element_value_to_string formats fuel pool v >>= λ value. ok (name ++ b'=' ∷ value)))
