-- ===== src/Attributes/Grammar.antt =====
-- The layout of Code, Record and LineNumberTable attributes by the Java virtual machine specification
-- (4.7.3, 4.7.12, 4.7.30), as writers.
use tarracsh.Prelude.{ℕ, ◌^◌, ◌<◌, List, ◌++◌, length, All}
use tarracsh.ClassFile.Pool.{Bytes}
use tarracsh.ClassFile.Parser.{AttributeInfo}
use tarracsh.ClassFile.Encode.{u2_bytes, u4_bytes, Word16, write_all, write_attribute}
use tarracsh.Attributes.Tables.{LineNumber}
use tarracsh.Attributes.Members.{ExceptionTable}

abbrev pub write_exception : ExceptionTable → Bytes
write_exception e =
    u2_bytes e.start_pc ++ (u2_bytes e.end_pc ++ (u2_bytes e.handler_pc ++ u2_bytes e.catch_type))

abbrev pub ExceptionFits : ExceptionTable → Type 0
ExceptionFits e = Word16 e.start_pc × Word16 e.end_pc × Word16 e.handler_pc × Word16 e.catch_type

-- A Code attribute, up to its own attributes.
pub record WrittenCode : Type 0 where
  pub max_stack : ℕ
  pub max_locals : ℕ
  pub code : Bytes
  pub exception_table : List ExceptionTable

abbrev pub write_code : WrittenCode → Bytes
write_code c =
    u2_bytes c.max_stack
    ++ (u2_bytes c.max_locals
        ++ (u4_bytes (length c.code)
            ++ (c.code
                ++ (u2_bytes (length c.exception_table)
                    ++ write_all write_exception c.exception_table))))

-- Content that a jump of an int passes over.
abbrev pub IntLength : Bytes → Type 0
IntLength bytes = length bytes < 2 ^ 31

pub record CodeFits (c : WrittenCode) : Type 0 where
  pub max_stack : Word16 c.max_stack
  pub max_locals : Word16 c.max_locals
  pub code : IntLength c.code
  pub count : Word16 (length c.exception_table)
  pub exceptions : All ExceptionFits c.exception_table

-- A component of a record.
pub record Component : Type 0 where
  pub name_index : ℕ
  pub descriptor_index : ℕ
  pub attributes : List AttributeInfo

abbrev pub write_component : Component → Bytes
write_component c =
    u2_bytes c.name_index
    ++ (u2_bytes c.descriptor_index
        ++ (u2_bytes (length c.attributes) ++ write_all write_attribute c.attributes))

abbrev pub AttributePassed : AttributeInfo → Type 0
AttributePassed a = Word16 a.name_index × IntLength a.info

pub record ComponentFits (c : Component) : Type 0 where
  pub name_index : Word16 c.name_index
  pub descriptor_index : Word16 c.descriptor_index
  pub count : Word16 (length c.attributes)
  pub attributes : All AttributePassed c.attributes

abbrev pub write_line_number : LineNumber → Bytes
write_line_number l = u2_bytes l.start_pc ++ u2_bytes l.line_number

abbrev pub LineNumberFits : LineNumber → Type 0
LineNumberFits l = Word16 l.start_pc × Word16 l.line_number
