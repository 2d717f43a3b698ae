-- ===== src/Attributes/Tags.antt =====
-- The tables of src/domain/classfile/AttributesManager.h by which an attribute's name gives its tag.
use tarracsh.Prelude.{codes, ◌≡◌, ◌≢◌, ◌↔◌, ◌∙◌, ap, refl, sym, List, [], ◌∷◌, Bool-cases, inl, inr}
use tarracsh.ClassFile.Pool.{Bytes}
use tarracsh.Digest.Class.{equal}
use tarracsh.StringPool.Layout.{equal_sound}
use tarracsh.Attributes.Manager.{
  AttributeTag, source_file_tag, inner_classes_tag, nest_members_tag, nest_host_tag,
  constant_value_tag, code_tag, exceptions_tag, line_number_table_tag, local_variable_table_tag,
  local_variable_type_table_tag, method_parameters_tag, stack_map_table_tag, synthetic_tag,
  deprecated_tag, source_debug_extension_tag, signature_tag, record_tag,
  runtime_visible_annotations_tag, runtime_invisible_annotations_tag,
  runtime_visible_parameter_annotations_tag, runtime_invisible_parameter_annotations_tag,
  annotation_default_tag, runtime_visible_type_annotations_tag,
  runtime_invisible_type_annotations_tag, enclosing_method_tag, bootstrap_methods_tag,
  permitted_subclasses_tag, invalid_tag, name_of, tags, find_tag, get_tag,
}

get_tag-name_of : (tag : AttributeTag) → get_tag (name_of tag) ≡ tag
unfolding get_tag name_of
get_tag-name_of invalid_tag = refl
get_tag-name_of tag = refl

find_tag-name_of :
    (name : Bytes) (ts : List AttributeTag)
    → find_tag name ts ≢ invalid_tag
    → name_of (find_tag name ts) ≡ name
unfolding find_tag
find_tag-name_of name [] = λ h. absurd (h refl)
find_tag-name_of name (tag ∷ ts) = elim (Bool-cases (equal (name_of tag) name)) [
  | inl e ↦ rw e (λ h. equal_sound (name_of tag) name e)
  | inr e ↦ rw e (λ h. find_tag-name_of name ts h)
]

-- The names that the Java virtual machine specification gives attributes (table 4.7-A).
pub specified_name : AttributeTag → Bytes
specified_name invalid_tag = []
specified_name source_file_tag = codes "SourceFile"
specified_name inner_classes_tag = codes "InnerClasses"
specified_name nest_members_tag = codes "NestMembers"
specified_name nest_host_tag = codes "NestHost"
specified_name constant_value_tag = codes "ConstantValue"
specified_name code_tag = codes "Code"
specified_name exceptions_tag = codes "Exceptions"
specified_name line_number_table_tag = codes "LineNumberTable"
specified_name local_variable_table_tag = codes "LocalVariableTable"
specified_name local_variable_type_table_tag = codes "LocalVariableTypeTable"
specified_name method_parameters_tag = codes "MethodParameters"
specified_name stack_map_table_tag = codes "StackMapTable"
specified_name synthetic_tag = codes "Synthetic"
specified_name deprecated_tag = codes "Deprecated"
specified_name source_debug_extension_tag = codes "SourceDebugExtension"
specified_name signature_tag = codes "Signature"
specified_name record_tag = codes "Record"
specified_name runtime_visible_annotations_tag = codes "RuntimeVisibleAnnotations"
specified_name runtime_invisible_annotations_tag = codes "RuntimeInvisibleAnnotations"
specified_name runtime_visible_parameter_annotations_tag =
    codes "RuntimeVisibleParameterAnnotations"
specified_name runtime_invisible_parameter_annotations_tag =
    codes "RuntimeInvisibleParameterAnnotations"
specified_name annotation_default_tag = codes "AnnotationDefault"
specified_name runtime_visible_type_annotations_tag = codes "RuntimeVisibleTypeAnnotations"
specified_name runtime_invisible_type_annotations_tag = codes "RuntimeInvisibleTypeAnnotations"
specified_name enclosing_method_tag = codes "EnclosingMethod"
specified_name bootstrap_methods_tag = codes "BootstrapMethods"
specified_name permitted_subclasses_tag = codes "PermittedSubclasses"

name_of-specified_name : (tag : AttributeTag) → name_of tag ≡ specified_name tag
unfolding name_of specified_name
name_of-specified_name invalid_tag = refl
name_of-specified_name tag = refl

-- A name gives a tag, other than the invalid one, exactly when the specification names that attribute
-- so.
pub get_tag-specified_name_iff :
    (tag : AttributeTag) (name : Bytes)
    → tag ≢ invalid_tag
    → (get_tag name ≡ tag) ↔ (name ≡ specified_name tag)
unfolding get_tag
get_tag-specified_name_iff tag name valid = (
  λ e.
      sym (find_tag-name_of name tags (λ f. valid (sym e ∙ f)))
      ∙ (ap name_of e ∙ name_of-specified_name tag),
  λ e. ap get_tag (e ∙ sym (name_of-specified_name tag)) ∙ get_tag-name_of tag,
)
