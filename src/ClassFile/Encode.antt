-- ===== src/ClassFile/Encode.antt =====
-- The layout of a class file by the Java virtual machine specification (4.1 to 4.7), as a writer:
-- numbers are big-endian, and a long or double takes two entries of the constant pool.
use tarracsh.Prelude.{ℕ, suc, ◌/◌, ◌%◌, ◌^◌, ◌<◌, List, [], ◌∷◌, ◌++◌, length, All, some, none}
use tarracsh.ClassFile.Pool.{
  Bytes, Constant, utf8_info, integer_info, float_info, long_info, double_info, class_info,
  string_info, fieldref_info, methodref_info, interface_methodref_info, name_and_type_info,
  method_handle_info, method_type_info, dynamic_info, invoke_dynamic_info, module_info,
  package_info, ConstantPool, empty_pool,
}
use tarracsh.ClassFile.Parser.{AttributeInfo, MemberInfo, MainClassInfo, ClassFile}

abbrev pub u2_bytes : ℕ → Bytes
u2_bytes n = n / 256 ∷ n % 256 ∷ []

abbrev pub u4_bytes : ℕ → Bytes
u4_bytes n = n / 2 ^ 24 ∷ n / 2 ^ 16 % 256 ∷ n / 2 ^ 8 % 256 ∷ n % 256 ∷ []

module _ {A : Type 0} (write_one : A → Bytes) where
  abbrev pub write_all : List A → Bytes
  write_all [] = []
  write_all (a ∷ xs) = write_one a ++ write_all xs

abbrev pub write_constant : Constant → Bytes
write_constant (utf8_info value) = 1 ∷ (u2_bytes (length value) ++ value)
write_constant (integer_info a) = 3 ∷ u4_bytes a
write_constant (float_info a) = 4 ∷ u4_bytes a
write_constant (long_info a b) = 5 ∷ (u4_bytes a ++ u4_bytes b)
write_constant (double_info a b) = 6 ∷ (u4_bytes a ++ u4_bytes b)
write_constant (class_info a) = 7 ∷ u2_bytes a
write_constant (string_info a) = 8 ∷ u2_bytes a
write_constant (fieldref_info a b) = 9 ∷ (u2_bytes a ++ u2_bytes b)
write_constant (methodref_info a b) = 10 ∷ (u2_bytes a ++ u2_bytes b)
write_constant (interface_methodref_info a b) = 11 ∷ (u2_bytes a ++ u2_bytes b)
write_constant (name_and_type_info a b) = 12 ∷ (u2_bytes a ++ u2_bytes b)
write_constant (method_handle_info a b) = 15 ∷ a ∷ u2_bytes b
write_constant (method_type_info a) = 16 ∷ u2_bytes a
write_constant (dynamic_info a b) = 17 ∷ (u2_bytes a ++ u2_bytes b)
write_constant (invoke_dynamic_info a b) = 18 ∷ (u2_bytes a ++ u2_bytes b)
write_constant (module_info a) = 19 ∷ u2_bytes a
write_constant (package_info a) = 20 ∷ u2_bytes a

-- The entries of the pool from the next index on.
abbrev pub entries_of : Constant → ConstantPool
entries_of (long_info a b) = some (long_info a b) ∷ none ∷ []
entries_of (double_info a b) = some (double_info a b) ∷ none ∷ []
entries_of c = some c ∷ []

abbrev pub pool_of : List Constant → ConstantPool
pool_of [] = []
pool_of (c ∷ cs) = entries_of c ++ pool_of cs

abbrev pub Word16 : ℕ → Type 0
Word16 n = n < 2 ^ 16

abbrev pub Word32 : ℕ → Type 0
Word32 n = n < 2 ^ 32

-- Each number fits its field.
abbrev pub ConstantFits : Constant → Type 0
ConstantFits (utf8_info value) = Word16 (length value)
ConstantFits (integer_info a) = Word32 a
ConstantFits (float_info a) = Word32 a
ConstantFits (long_info a b) = Word32 a × Word32 b
ConstantFits (double_info a b) = Word32 a × Word32 b
ConstantFits (class_info a) = Word16 a
ConstantFits (string_info a) = Word16 a
ConstantFits (fieldref_info a b) = Word16 a × Word16 b
ConstantFits (methodref_info a b) = Word16 a × Word16 b
ConstantFits (interface_methodref_info a b) = Word16 a × Word16 b
ConstantFits (name_and_type_info a b) = Word16 a × Word16 b
ConstantFits (method_handle_info a b) = (a < 2 ^ 8) × Word16 b
ConstantFits (method_type_info a) = Word16 a
ConstantFits (dynamic_info a b) = Word16 a × Word16 b
ConstantFits (invoke_dynamic_info a b) = Word16 a × Word16 b
ConstantFits (module_info a) = Word16 a
ConstantFits (package_info a) = Word16 a

abbrev pub write_attribute : AttributeInfo → Bytes
write_attribute a = u2_bytes a.name_index ++ (u4_bytes (length a.info) ++ a.info)

abbrev pub AttributeFits : AttributeInfo → Type 0
AttributeFits a = Word16 a.name_index × Word32 (length a.info)

abbrev pub write_member : MemberInfo → Bytes
write_member m =
    u2_bytes m.access_flags
    ++ (u2_bytes m.name_index
        ++ (u2_bytes m.descriptor_index
            ++ (u2_bytes (length m.attributes) ++ write_all write_attribute m.attributes)))

pub record MemberFits (m : MemberInfo) : Type 0 where
  pub access_flags : Word16 m.access_flags
  pub name_index : Word16 m.name_index
  pub descriptor_index : Word16 m.descriptor_index
  pub count : Word16 (length m.attributes)
  pub attributes : All AttributeFits m.attributes

-- A class as a writer has it: the constants in order, without the unused entries.
pub record Written : Type 0 where
  pub constants : List Constant
  pub main_class_info : MainClassInfo
  pub interfaces : List ℕ
  pub fields : List MemberInfo
  pub methods : List MemberInfo
  pub attributes : List AttributeInfo

pub record WrittenFits (w : Written) : Type 0 where
  pub pool : Word16 (suc (length (pool_of w.constants)))
  pub constants : All ConstantFits w.constants
  pub access_flags : Word16 w.main_class_info.access_flags
  pub this_class : Word16 w.main_class_info.this_class
  pub super_class : Word16 w.main_class_info.super_class
  pub interface_count : Word16 (length w.interfaces)
  pub interfaces : All Word16 w.interfaces
  pub field_count : Word16 (length w.fields)
  pub fields : All MemberFits w.fields
  pub method_count : Word16 (length w.methods)
  pub methods : All MemberFits w.methods
  pub attribute_count : Word16 (length w.attributes)
  pub attributes : All AttributeFits w.attributes

abbrev pub write_main : MainClassInfo → Bytes
write_main m = u2_bytes m.access_flags ++ (u2_bytes m.this_class ++ u2_bytes m.super_class)

abbrev pub counted : {A : Type 0} → (A → Bytes) → List A → Bytes
counted write_one xs = u2_bytes (length xs) ++ write_all write_one xs

abbrev pub write_pool : List Constant → Bytes
write_pool cs = u2_bytes (suc (length (pool_of cs))) ++ write_all write_constant cs

abbrev pub write_body : Written → Bytes
write_body w =
    write_pool w.constants
    ++ (write_main w.main_class_info
        ++ (counted u2_bytes w.interfaces
            ++ (counted write_member w.fields
                ++ (counted write_member w.methods ++ counted write_attribute w.attributes))))

-- The header: 0xcafebabe and the two versions.
abbrev pub write_header : ℕ → ℕ → Bytes
write_header minor major = 0xca ∷ 0xfe ∷ 0xba ∷ 0xbe ∷ (u2_bytes minor ++ u2_bytes major)

abbrev pub write_class : ℕ → ℕ → Written → Bytes
write_class minor major w = write_header minor major ++ write_body w

-- What the parser ought to hold.
abbrev pub parsed_class : Written → ClassFile
parsed_class w = record {
  constant_pool = empty_pool ++ pool_of w.constants;
  main_class_info = w.main_class_info;
  interfaces = w.interfaces;
  fields = w.fields;
  methods = w.methods;
  attributes = w.attributes;
}
