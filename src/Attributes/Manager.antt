-- ===== src/Attributes/Manager.antt =====
-- src/domain/classfile/AttributesManager.h: `getTag`, `getType`, `toString` and the tables of `init`,
-- for a class file in the usual byte order.
use tarracsh.Prelude.{ℕ, false, List, [], ◌∷◌, ◌++◌, codes, if◌then◌else◌}
use tarracsh.Outcome.{Outcome, ok, ◌>>=◌}
use tarracsh.ClassFile.Pool.{Bytes, ConstantPool}
use tarracsh.ClassFile.Entries.{utf8_at}
use tarracsh.ClassFile.Parser.{AttributeInfo}
use tarracsh.Digest.Class.{equal}
use tarracsh.SignatureAttribute
use tarracsh.SignatureAttribute.{Owner}
use tarracsh.Annotations.Reader.{Decode}
use tarracsh.Annotations.Texts.{
  runtime_annotations_to_string, runtime_parameter_annotations_to_string,
  runtime_type_annotations_to_string, annotation_default_to_string,
}
use tarracsh.Attributes.Texts.{Formats}
use tarracsh.Attributes.Frames.{stack_map_table_to_string}
use tarracsh.Attributes.Tables.{
  line_number_table_to_string, local_variable_table_to_string, local_variable_type_table_to_string,
  inner_classes_to_string, nest_members_to_string, nest_host_to_string, exceptions_to_string,
  permitted_subclasses_to_string, method_parameters_to_string, enclosing_method_to_string,
  bootstrap_methods_to_string,
}
use tarracsh.Attributes.Members.{
  source_debug_extension_to_string, code_to_string, record_to_string, constant_value_to_string,
  source_file_to_string,
}

-- `AttributeTag`
pub data AttributeTag : Type 0 where
  invalid_tag : AttributeTag
  source_file_tag : AttributeTag
  inner_classes_tag : AttributeTag
  nest_members_tag : AttributeTag
  nest_host_tag : AttributeTag
  constant_value_tag : AttributeTag
  code_tag : AttributeTag
  exceptions_tag : AttributeTag
  line_number_table_tag : AttributeTag
  local_variable_table_tag : AttributeTag
  local_variable_type_table_tag : AttributeTag
  method_parameters_tag : AttributeTag
  stack_map_table_tag : AttributeTag
  synthetic_tag : AttributeTag
  deprecated_tag : AttributeTag
  source_debug_extension_tag : AttributeTag
  signature_tag : AttributeTag
  record_tag : AttributeTag
  runtime_visible_annotations_tag : AttributeTag
  runtime_invisible_annotations_tag : AttributeTag
  runtime_visible_parameter_annotations_tag : AttributeTag
  runtime_invisible_parameter_annotations_tag : AttributeTag
  annotation_default_tag : AttributeTag
  runtime_visible_type_annotations_tag : AttributeTag
  runtime_invisible_type_annotations_tag : AttributeTag
  enclosing_method_tag : AttributeTag
  bootstrap_methods_tag : AttributeTag
  permitted_subclasses_tag : AttributeTag

-- The names of src/domain/classfile/AttributeTags.h.
unfoldable pub name_of : AttributeTag → Bytes
name_of invalid_tag = []
name_of source_file_tag = codes "SourceFile"
name_of inner_classes_tag = codes "InnerClasses"
name_of nest_members_tag = codes "NestMembers"
name_of nest_host_tag = codes "NestHost"
name_of constant_value_tag = codes "ConstantValue"
name_of code_tag = codes "Code"
name_of exceptions_tag = codes "Exceptions"
name_of line_number_table_tag = codes "LineNumberTable"
name_of local_variable_table_tag = codes "LocalVariableTable"
name_of local_variable_type_table_tag = codes "LocalVariableTypeTable"
name_of method_parameters_tag = codes "MethodParameters"
name_of stack_map_table_tag = codes "StackMapTable"
name_of synthetic_tag = codes "Synthetic"
name_of deprecated_tag = codes "Deprecated"
name_of source_debug_extension_tag = codes "SourceDebugExtension"
name_of signature_tag = codes "Signature"
name_of record_tag = codes "Record"
name_of runtime_visible_annotations_tag = codes "RuntimeVisibleAnnotations"
name_of runtime_invisible_annotations_tag = codes "RuntimeInvisibleAnnotations"
name_of runtime_visible_parameter_annotations_tag = codes "RuntimeVisibleParameterAnnotations"
name_of runtime_invisible_parameter_annotations_tag = codes "RuntimeInvisibleParameterAnnotations"
name_of annotation_default_tag = codes "AnnotationDefault"
name_of runtime_visible_type_annotations_tag = codes "RuntimeVisibleTypeAnnotations"
name_of runtime_invisible_type_annotations_tag = codes "RuntimeInvisibleTypeAnnotations"
name_of enclosing_method_tag = codes "EnclosingMethod"
name_of bootstrap_methods_tag = codes "BootstrapMethods"
name_of permitted_subclasses_tag = codes "PermittedSubclasses"

-- The tags that `init` puts into `_tagsMap`, each under its name.
abbrev pub tags : List AttributeTag
tags =
    source_file_tag ∷ inner_classes_tag ∷ nest_members_tag ∷ nest_host_tag ∷ constant_value_tag
    ∷ code_tag ∷ exceptions_tag ∷ line_number_table_tag ∷ local_variable_table_tag
    ∷ local_variable_type_table_tag ∷ method_parameters_tag ∷ stack_map_table_tag ∷ synthetic_tag
    ∷ deprecated_tag ∷ source_debug_extension_tag ∷ signature_tag ∷ record_tag
    ∷ runtime_visible_annotations_tag ∷ runtime_invisible_annotations_tag
    ∷ runtime_visible_parameter_annotations_tag ∷ runtime_invisible_parameter_annotations_tag
    ∷ annotation_default_tag ∷ runtime_visible_type_annotations_tag
    ∷ runtime_invisible_type_annotations_tag ∷ enclosing_method_tag ∷ bootstrap_methods_tag
    ∷ permitted_subclasses_tag ∷ []

-- `getTag`, by the map that `init` makes of the tags.
unfoldable pub find_tag : Bytes → List AttributeTag → AttributeTag
find_tag name [] = invalid_tag
find_tag name (tag ∷ rest) =
    let other = find_tag name rest in if equal (name_of tag) name then tag else other

unfoldable pub get_tag : Bytes → AttributeTag
unfolding find_tag name_of
get_tag name = find_tag name tags

-- `getType`
unfoldable pub get_type : ConstantPool → AttributeInfo → Outcome AttributeTag
get_type pool attribute = utf8_at pool attribute.name_index >>= λ name. ok (get_tag name)

abbrev pub run : Decode Bytes → Bytes → Outcome Bytes
run decode info = decode (record { rest = info; is_big_endian = false }) >>= λ (text, r). ok text

module _ (formats : Formats) (fuel : ℕ) (pool : ConstantPool) where
  -- The function that `init` puts into `_tags2ToStringFunc`.
  unfoldable pub text_of : AttributeTag → Owner → AttributeInfo → Outcome Bytes
  text_of invalid_tag owner a =
      utf8_at pool a.name_index >>= λ name. ok (codes "Invalid Attribute:" ++ (name ++ b' ' ∷ []))
  text_of source_file_tag owner a = run (source_file_to_string formats fuel pool) a.info
  text_of inner_classes_tag owner a = run (inner_classes_to_string formats fuel pool) a.info
  text_of nest_members_tag owner a = run (nest_members_to_string formats fuel pool) a.info
  text_of nest_host_tag owner a = run (nest_host_to_string formats fuel pool) a.info
  text_of constant_value_tag owner a = run (constant_value_to_string formats fuel pool) a.info
  text_of code_tag owner a = run (code_to_string formats fuel pool a.info) a.info
  text_of exceptions_tag owner a = run (exceptions_to_string formats fuel pool) a.info
  text_of line_number_table_tag owner a = run (line_number_table_to_string formats fuel pool) a.info
  text_of local_variable_table_tag owner a =
      run (local_variable_table_to_string formats fuel pool) a.info
  text_of local_variable_type_table_tag owner a =
      run (local_variable_type_table_to_string formats fuel pool) a.info
  text_of method_parameters_tag owner a = run (method_parameters_to_string formats fuel pool) a.info
  text_of stack_map_table_tag owner a = run (stack_map_table_to_string formats) a.info
  text_of synthetic_tag owner a = ok (codes "Attr - Synthetic (synthetic)")
  text_of deprecated_tag owner a = ok (codes "Attr - Deprecated (deprecated)")
  text_of source_debug_extension_tag owner a = run (source_debug_extension_to_string a.info) a.info
  text_of signature_tag owner a = SignatureAttribute.to_string fuel pool owner a.info >>= λ text.
      ok (codes "Attr - Signature " ++ text)
  text_of record_tag owner a = run (record_to_string formats fuel pool a.info) a.info
  text_of runtime_visible_annotations_tag owner a =
      run (runtime_annotations_to_string formats fuel pool) a.info >>= λ text.
      ok (codes "Attr - RuntimeVisibleAnnotations " ++ text)
  text_of runtime_invisible_annotations_tag owner a =
      run (runtime_annotations_to_string formats fuel pool) a.info >>= λ text.
      ok (codes "Attr - RuntimeInvisibleAnnotations " ++ text)
  text_of runtime_visible_parameter_annotations_tag owner a =
      run (runtime_parameter_annotations_to_string formats fuel pool) a.info >>= λ text.
      ok (codes "Attr - RuntimeVisibleParameterAnnotations " ++ text)
  text_of runtime_invisible_parameter_annotations_tag owner a =
      run (runtime_parameter_annotations_to_string formats fuel pool) a.info >>= λ text.
      ok (codes "Attr - RuntimeInvisibleParameterAnnotations " ++ text)
  text_of annotation_default_tag owner a =
      run (annotation_default_to_string formats fuel pool a.name_index) a.info >>= λ text.
      ok (codes "Attr - AnnotationDefault " ++ text)
  text_of runtime_visible_type_annotations_tag owner a =
      run (runtime_type_annotations_to_string formats fuel pool) a.info >>= λ text.
      ok (codes "Attr - RuntimeVisibleTypeAnnotations " ++ text)
  text_of runtime_invisible_type_annotations_tag owner a =
      run (runtime_type_annotations_to_string formats fuel pool) a.info >>= λ text.
      ok (codes "Attr - RuntimeInvisibleTypeAnnotations " ++ text)
  text_of enclosing_method_tag owner a = run (enclosing_method_to_string formats fuel pool) a.info
  text_of bootstrap_methods_tag owner a = run (bootstrap_methods_to_string formats fuel pool) a.info
  text_of permitted_subclasses_tag owner a =
      run (permitted_subclasses_to_string formats fuel pool) a.info

  -- `toString`
  unfoldable pub attribute_to_string : Owner → AttributeInfo → Outcome Bytes
  attribute_to_string owner a = get_type pool a >>= λ tag. text_of tag owner a
