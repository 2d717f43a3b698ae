-- ===== src/Attributes/Members.antt =====
-- src/domain/classfile/AttributesManager.h: the attributes whose reading jumps over content, and those
-- of one value.
use tarracsh.Prelude.{
  ℕ, ◌+◌, ◌-◌, ◌^◌, ltb, leb, List, [], ◌∷◌, ◌++◌, length, drop, codes, if◌then◌else◌,
}
use tarracsh.Outcome.{Outcome, ok, fault}
use tarracsh.Outcome
use tarracsh.ClassFile.Pool.{
  Bytes, Constant, integer_info, float_info, long_info, double_info, string_info, ConstantPool,
}
use tarracsh.ClassFile.Entries.{get_entry, utf8_at, get_string, get_type_string}
use tarracsh.Annotations.Reader.{Decode, ◌>>=◌, pure, lift, read_u1, read_u2, read_u4, times}
use tarracsh.Attributes.Texts.{Formats, listed}
use tarracsh.Attributes.Constants.{constant_value_text}

-- `jump(steps)` in the vector `whole`, of a u4 that is converted to an int: from 2^31 on it goes back.
-- A sum beyond an int is undefined. A position outside the vector lets no read succeed; each jump but
-- the first stands behind reads, so such a position is only kept as having nothing beyond it.
unfoldable pub jump : Bytes → ℕ → Decode (Unit {0})
jump whole steps r =
    let position = length whole - length r.rest in
    let back = 2 ^ 32 - steps in
    if ltb steps (2 ^ 31)
    then if ltb (position + steps) (2 ^ 31)
      then ok (tt, record r { rest = drop steps r.rest })
      else fault
    else if leb back position
    then ok (tt, record r { rest = drop (position - back) whole })
    else ok (tt, record r { rest = [] })

-- `ExceptionTable`
pub record ExceptionTable : Type 0 where
  pub start_pc : ℕ
  pub end_pc : ℕ
  pub handler_pc : ℕ
  pub catch_type : ℕ

unfoldable pub read_exception : Decode ExceptionTable
read_exception = read_u2 >>= λ start_pc. read_u2 >>= λ end_pc. read_u2 >>= λ handler_pc.
    read_u2 >>= λ catch_type. pure (record {
      start_pc = start_pc;
      end_pc = end_pc;
      handler_pc = handler_pc;
      catch_type = catch_type;
    })

-- `Code`, without the bytes of the code and what the code leaves unread.
pub record Code : Type 0 where
  pub max_stack : ℕ
  pub max_locals : ℕ
  pub code_length : ℕ
  pub exception_table : List ExceptionTable

unfoldable pub read_code : Bytes → Decode Code
read_code whole = read_u2 >>= λ max_stack. read_u2 >>= λ max_locals. read_u4 >>= λ code_length.
    jump whole code_length >>= λ done. read_u2 >>= λ count. times count read_exception >>= λ table.
    pure (record {
      max_stack = max_stack;
      max_locals = max_locals;
      code_length = code_length;
      exception_table = table;
    })

-- A round of the inner loop of `toStringRecord`.
unfoldable pub skip_attribute : Bytes → Decode (Unit {0})
skip_attribute whole = read_u2 >>= λ name_index. read_u4 >>= λ steps. jump whole steps

-- The bytes as characters, by as many calls of `readU1` as the attribute is long.
unfoldable pub source_debug_extension_to_string : Bytes → Decode Bytes
source_debug_extension_to_string whole = times (length whole) read_u1 >>= λ value.
    pure (codes "Attr - SourceDebugExtension" ++ b' ' ∷ value)

module _ (formats : Formats) (fuel : ℕ) (pool : ConstantPool) where
  unfoldable pub code_text : Code → Bytes
  code_text c =
      codes " maxStack="
      ++ (formats.number c.max_stack
          ++ (codes ", maxLocals="
              ++ (formats.number c.max_locals
                  ++ (codes ", codeLength="
                      ++ (formats.number c.code_length
                          ++ (codes ", exceptionTableLength="
                              ++ formats.number (length c.exception_table)))))))

  -- `toStringCode`
  unfoldable pub code_to_string : Bytes → Decode Bytes
  code_to_string whole = read_code whole >>= λ c. pure (codes "Attr - Code" ++ code_text c)

  -- `toStringRecord`
  unfoldable pub component_text : ℕ → ℕ → Outcome Bytes
  component_text name_index descriptor_index = Outcome.◌>>=◌ (get_string pool name_index) (λ name.
      Outcome.◌>>=◌ (get_type_string fuel pool descriptor_index)
        (λ descriptor. ok (name ++ b':' ∷ descriptor)))

  unfoldable pub read_component : Bytes → Decode Bytes
  read_component whole = read_u2 >>= λ name_index. read_u2 >>= λ descriptor_index.
      read_u2 >>= λ count. times count (skip_attribute whole) >>= λ skipped.
      lift (component_text name_index descriptor_index)

  unfoldable pub record_to_string : Bytes → Decode Bytes
  record_to_string whole = read_u2 >>= λ count. times count (read_component whole) >>= λ parts.
      pure (
        codes "Attr - Record"
        ++ listed (codes " (no components)") (codes " components=" ++ formats.number count)
            (codes ", ") parts)

  -- The switch of `toStringConstantValue`; other tags fail an assertion.
  unfoldable pub constant_of : Constant → Outcome Bytes
  constant_of (integer_info a) = constant_value_text formats fuel pool (integer_info a)
  constant_of (float_info a) = constant_value_text formats fuel pool (float_info a)
  constant_of (long_info a b) = constant_value_text formats fuel pool (long_info a b)
  constant_of (double_info a b) = constant_value_text formats fuel pool (double_info a b)
  constant_of (string_info a) = get_string pool a
  constant_of c = fault

  unfoldable pub constant_value_to_string : Decode Bytes
  constant_value_to_string = read_u2 >>= λ index. lift (get_entry pool index) >>= λ c.
      lift (constant_of c) >>= λ text. pure (codes "Attr - ConstantValue" ++ (codes ": " ++ text))

  -- `toStringSourceFile`
  unfoldable pub source_file_to_string : Decode Bytes
  source_file_to_string = read_u2 >>= λ index.
      lift (utf8_at pool index) >>= λ name. pure (codes "Attr - SourceFile" ++ (codes ": " ++ name))
