-- ===== src/ClassFile/Entries.antt =====
-- The getters of src/domain/classfile/constantpool/ConstantPool.cpp.
use tarracsh.Prelude.{ℕ, [], ◌==◌, if◌then◌else◌, none, some, get_elem?, codes}
use tarracsh.Outcome.{Outcome, ok, fault, ◌>>=◌}
use tarracsh.ClassFile.Pool.{Bytes, Constant, utf8_info, class_info, ConstantPool}
use tarracsh.Descriptor.Parser.{parse_descriptor, to_string}

-- `getEntry(index)`: beyond the pool an assertion fails, an empty index is a null pointer.
unfoldable pub get_entry : ConstantPool → ℕ → Outcome Constant
get_entry pool index = elim (get_elem? pool index) [
  | none ↦ fault
  | some none ↦ fault
  | some (some c) ↦ ok c
]

-- `getEntry(index).utf8Info` and `.classInfo`; another member of the union is not to be read.
abbrev pub as_utf8 : Constant → Outcome Bytes
as_utf8 (utf8_info bytes) = ok bytes
as_utf8 c = fault

abbrev pub as_class : Constant → Outcome ℕ
as_class (class_info name_index) = ok name_index
as_class c = fault

unfoldable pub utf8_at : ConstantPool → ℕ → Outcome Bytes
utf8_at pool index = get_entry pool index >>= as_utf8

unfoldable pub class_at : ConstantPool → ℕ → Outcome ℕ
class_at pool index = get_entry pool index >>= as_class

unfoldable pub get_classname : ConstantPool → ℕ → Outcome Bytes
get_classname pool name_index =
    if name_index == 0 then ok (codes "<anonymous>") else utf8_at pool name_index

unfoldable pub get_class_info_name : ConstantPool → ℕ → Outcome Bytes
get_class_info_name pool class_info_index =
    if class_info_index == 0 then ok [] else (class_at pool class_info_index >>= get_classname pool)

-- `getString(index)`, without escapes.
unfoldable pub get_string : ConstantPool → ℕ → Outcome Bytes
get_string pool string_index = utf8_at pool string_index

-- `getTypeString`, the descriptor parser on fuel.
unfoldable pub get_type_string : ℕ → ConstantPool → ℕ → Outcome Bytes
get_type_string f pool string_index = get_string pool string_index >>= λ type.
    parse_descriptor f type >>= λ descriptor. ok (to_string descriptor)
