-- ===== src/Attributes/Constants.antt =====
-- The texts of constants in src/domain/classfile/AttributesManager.h, and `getConstantValueString` of
-- src/domain/classfile/constantpool/ConstantPool.cpp.
use tarracsh.Prelude.{ℕ, ◌+◌, ◌*◌, ◌^◌, Bool, false, ◌==◌, [], ◌∷◌, ◌++◌, codes, if◌then◌else◌}
use tarracsh.Outcome.{Outcome, ok, fault, ◌>>=◌}
use tarracsh.ClassFile.Pool.{
  Bytes, Constant, utf8_info, integer_info, float_info, long_info, double_info, class_info,
  string_info, fieldref_info, methodref_info, interface_methodref_info, name_and_type_info,
  method_handle_info, method_type_info, dynamic_info, invoke_dynamic_info, module_info,
  package_info, ConstantPool,
}
use tarracsh.ClassFile.Entries.{
  get_entry, utf8_at, get_class_info_name, get_string, get_type_string,
}
use tarracsh.Descriptor.Parser.{
  MethodDescriptor, parse_method_descriptor, to_string, arguments_to_string,
}
use tarracsh.Attributes.Texts.{Formats, escape_utf8}

-- `base.tag`
unfoldable pub tag_of : Constant → ℕ
tag_of (utf8_info bytes) = 1
tag_of (integer_info a) = 3
tag_of (float_info a) = 4
tag_of (long_info a b) = 5
tag_of (double_info a b) = 6
tag_of (class_info a) = 7
tag_of (string_info a) = 8
tag_of (fieldref_info a b) = 9
tag_of (methodref_info a b) = 10
tag_of (interface_methodref_info a b) = 11
tag_of (name_and_type_info a b) = 12
tag_of (method_handle_info a b) = 15
tag_of (method_type_info a) = 16
tag_of (dynamic_info a b) = 17
tag_of (invoke_dynamic_info a b) = 18
tag_of (module_info a) = 19
tag_of (package_info a) = 20

-- `getLongLong` and `getDouble`, the bits.
abbrev pub wide_bits : ℕ → ℕ → ℕ
wide_bits high low = high * 2 ^ 32 + low

-- `methodHandleKindToString`
unfoldable pub method_handle_kind_to_string : ℕ → Bytes
method_handle_kind_to_string kind =
    if kind == 1
    then codes "getField"
    else if kind == 2
    then codes "getStatic"
    else if kind == 3
    then codes "putField"
    else if kind == 4
    then codes "putStatic"
    else if kind == 5
    then codes "invokeVirtual"
    else if kind == 6
    then codes "invokeStatic"
    else if kind == 7
    then codes "invokeSpecial"
    else if kind == 8
    then codes "newInvokeSpecial"
    else if kind == 9
    then codes "invokeInterface"
    else codes "unknown"

abbrev pub starts_with_parenthesis : Bytes → Bool
starts_with_parenthesis [] = false
starts_with_parenthesis (c ∷ text) = c == b'('

-- `{} -> {}`
abbrev pub method_text : MethodDescriptor → Bytes
method_text m = arguments_to_string m.arguments ++ (codes " -> " ++ to_string m.return_type)

-- On fuel for the descriptor parsers.
module _ (formats : Formats) (fuel : ℕ) (pool : ConstantPool) where
  -- The texts `<class:{}>` and `#{}(tag={})`.
  abbrev pub numbered_class : ℕ → Bytes
  numbered_class index = codes "<class:" ++ (formats.number index ++ codes ">")

  abbrev pub numbered_tag : ℕ → Constant → Bytes
  numbered_tag index c =
      b'#' ∷ (formats.number index ++ (codes "(tag=" ++ (formats.number (tag_of c) ++ codes ")")))

  abbrev pub name_or_number : ℕ → Bytes → Bytes
  name_or_number index [] = numbered_class index
  name_or_number index (c ∷ name) = c ∷ name

  -- `formatClassName`
  unfoldable pub format_class_name : ℕ → Outcome Bytes
  format_class_name class_index =
      if class_index == 0
      then ok (codes "<invalid>")
      else (get_class_info_name pool class_index >>= λ name. ok (name_or_number class_index name))

  -- `methodDescriptorToString`
  unfoldable pub method_descriptor_to_string : ℕ → Outcome Bytes
  method_descriptor_to_string descriptor_index = utf8_at pool descriptor_index >>= λ text.
      parse_method_descriptor fuel text >>= λ m. ok (method_text m)

  -- `formatNameAndType`, of an entry.
  unfoldable pub name_and_type_text : Constant → Outcome Bytes
  name_and_type_text (name_and_type_info name_index descriptor_index) =
      get_string pool name_index >>= λ name. get_string pool descriptor_index >>= λ descriptor.
      if starts_with_parenthesis descriptor
      then (parse_method_descriptor fuel descriptor >>= λ m. ok (name ++ method_text m))
      else (get_type_string fuel pool descriptor_index >>= λ type. ok (name ++ b':' ∷ type))
  name_and_type_text c = fault

  unfoldable pub format_name_and_type : ℕ → Outcome Bytes
  format_name_and_type index =
      if index == 0 then ok (codes "<none>") else (get_entry pool index >>= name_and_type_text)

  -- `formatMemberReference`, of an entry.
  abbrev pub reference_text : ℕ → ℕ → Outcome Bytes
  reference_text class_index name_and_type_index = format_class_name class_index >>= λ owner.
      format_name_and_type name_and_type_index >>= λ member. ok (owner ++ (codes "::" ++ member))

  unfoldable pub member_text : ℕ → Constant → Outcome Bytes
  member_text index (fieldref_info a b) = reference_text a b
  member_text index (methodref_info a b) = reference_text a b
  member_text index (interface_methodref_info a b) = reference_text a b
  member_text index c = ok (numbered_tag index c)

  unfoldable pub format_member_reference : ℕ → Outcome Bytes
  format_member_reference index =
      if index == 0 then ok (codes "<none>") else (get_entry pool index >>= member_text index)

  -- `methodHandleToString`, of an entry.
  unfoldable pub method_handle_text : ℕ → Constant → Outcome Bytes
  method_handle_text index (method_handle_info kind reference) =
      format_member_reference reference >>= λ target.
      ok (method_handle_kind_to_string kind ++ b' ' ∷ target)
  method_handle_text index c = ok (numbered_tag index c)

  unfoldable pub method_handle_to_string : ℕ → Outcome Bytes
  method_handle_to_string index =
      if index == 0
      then ok (codes "<none>")
      else (get_entry pool index >>= method_handle_text index)

  -- `getConstantValueString`, of an entry.
  unfoldable pub constant_value_text : Constant → Outcome Bytes
  constant_value_text (integer_info a) = ok (formats.int_text a)
  constant_value_text (float_info a) = ok (formats.float_text a)
  constant_value_text (long_info a b) = ok (formats.long_text (wide_bits a b))
  constant_value_text (double_info a b) = ok (formats.double_text (wide_bits a b))
  constant_value_text (utf8_info bytes) = ok (b'"' ∷ (escape_utf8 bytes ++ b'"' ∷ []))
  constant_value_text (string_info a) = get_string pool a
  constant_value_text (class_info a) = get_class_info_name pool a
  constant_value_text c = fault

  unfoldable pub get_constant_value_string : ℕ → Outcome Bytes
  get_constant_value_string index = get_entry pool index >>= constant_value_text

  -- `constantPoolIndexToString`, of an entry. For a class it passes on the index of the name.
  unfoldable pub constant_text : ℕ → Constant → Outcome Bytes
  constant_text index (integer_info a) = get_constant_value_string index
  constant_text index (float_info a) = get_constant_value_string index
  constant_text index (long_info a b) = get_constant_value_string index
  constant_text index (double_info a b) = get_constant_value_string index
  constant_text index (string_info a) =
      get_string pool a >>= λ text. ok (b'"' ∷ (escape_utf8 text ++ b'"' ∷ []))
  constant_text index (class_info a) = format_class_name a
  constant_text index (utf8_info bytes) = ok (escape_utf8 bytes)
  constant_text index (name_and_type_info a b) = format_name_and_type index
  constant_text index (fieldref_info a b) = format_member_reference index
  constant_text index (methodref_info a b) = format_member_reference index
  constant_text index (interface_methodref_info a b) = format_member_reference index
  constant_text index (method_handle_info a b) = method_handle_to_string index
  constant_text index (method_type_info a) = method_descriptor_to_string a
  constant_text index c = ok (numbered_tag index c)

  unfoldable pub constant_pool_index_to_string : ℕ → Outcome Bytes
  constant_pool_index_to_string index =
      if index == 0 then ok (codes "<invalid>") else (get_entry pool index >>= constant_text index)
