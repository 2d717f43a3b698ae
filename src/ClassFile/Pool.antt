-- ===== src/ClassFile/Pool.antt =====
-- The constant pool: src/domain/classfile/constantpool/ConstpoolStructures.h and ConstantPool.cpp.
use tarracsh.Prelude.{ℕ, List, [], ◌∷◌, ◌++◌, Option, none, some}

abbrev pub Bytes : Type 0
Bytes = List ℕ

-- The structs that `ConstantPoolRecord` is a union of, each with its fields but the tag. A number
-- is kept as its bits.
pub data Constant : Type 0 where
  utf8_info : Bytes → Constant
  integer_info : ℕ → Constant
  float_info : ℕ → Constant
  long_info : ℕ → ℕ → Constant
  double_info : ℕ → ℕ → Constant
  class_info : ℕ → Constant
  string_info : ℕ → Constant
  fieldref_info : ℕ → ℕ → Constant
  methodref_info : ℕ → ℕ → Constant
  interface_methodref_info : ℕ → ℕ → Constant
  name_and_type_info : ℕ → ℕ → Constant
  method_handle_info : ℕ → ℕ → Constant
  method_type_info : ℕ → Constant
  dynamic_info : ℕ → ℕ → Constant
  invoke_dynamic_info : ℕ → ℕ → Constant
  module_info : ℕ → Constant
  package_info : ℕ → Constant

-- `_constantPoolIndex`; `none` is a null pointer.
abbrev pub ConstantPool : Type 0
ConstantPool = List (Option Constant)

-- `ConstantPool()`, with its `addEmptyIndex()`.
abbrev pub empty_pool : ConstantPool
empty_pool = none ∷ []

-- `addRecord`, `addUtf8Record` and `addEmptyIndex` append.
unfoldable pub add_record : Constant → ConstantPool → ConstantPool
add_record c pool = pool ++ some c ∷ []

unfoldable pub add_empty_index : ConstantPool → ConstantPool
add_empty_index pool = pool ++ none ∷ []
