-- ===== src/Attributes/Tables.antt =====
-- src/domain/classfile/AttributesManager.h: the attributes that are tables of numbers and names.
use tarracsh.Prelude.{ℕ, zero, suc, ◌+◌, ◌==◌, List, [], ◌∷◌, ◌++◌, codes, if◌then◌else◌}
use tarracsh.Outcome.{Outcome, ok}
use tarracsh.Outcome
use tarracsh.AccessModifiers.{has, to_string}
use tarracsh.ClassFile.Pool.{Bytes, ConstantPool}
use tarracsh.ClassFile.Entries.{get_classname, get_class_info_name, get_string, get_type_string}
use tarracsh.Annotations.Reader.{Decode, ◌>>=◌, pure, lift, read_u1, read_u2, times}
use tarracsh.Attributes.Texts.{Formats, join, listed}
use tarracsh.Attributes.Constants.{
  format_class_name, format_name_and_type, method_handle_to_string, constant_pool_index_to_string,
}

pub record LineNumber : Type 0 where
  pub start_pc : ℕ
  pub line_number : ℕ

-- LocalVariable and LocalVariableType, whose `descriptor_index` is a `signature_index`.
pub record LocalVariable : Type 0 where
  pub start_pc : ℕ
  pub range : ℕ
  pub name_index : ℕ
  pub descriptor_index : ℕ
  pub index : ℕ

pub record InnerClass : Type 0 where
  pub inner_class_info_index : ℕ
  pub outer_class_info_index : ℕ
  pub inner_name_index : ℕ
  pub inner_class_access_flags : ℕ

unfoldable pub read_line_number : Decode LineNumber
read_line_number = read_u2 >>= λ start_pc.
    read_u2 >>= λ line_number. pure (record { start_pc = start_pc; line_number = line_number })

unfoldable pub read_local_variable : Decode LocalVariable
read_local_variable = read_u2 >>= λ start_pc. read_u2 >>= λ range. read_u2 >>= λ name_index.
    read_u2 >>= λ descriptor_index. read_u2 >>= λ index. pure (record {
      start_pc = start_pc;
      range = range;
      name_index = name_index;
      descriptor_index = descriptor_index;
      index = index;
    })

unfoldable pub read_inner_class : Decode InnerClass
read_inner_class = read_u2 >>= λ inner. read_u2 >>= λ outer. read_u2 >>= λ name.
    read_u2 >>= λ flags. pure (record {
      inner_class_info_index = inner;
      outer_class_info_index = outer;
      inner_name_index = name;
      inner_class_access_flags = flags;
    })

-- `formatAccessFlags` of a method's parameter: JVM_ACC_FINAL and JVM_ACC_SYNTHETIC.
unfoldable pub parameter_flags : ℕ → List Bytes
parameter_flags flags =
    let synthetic : List Bytes = if has flags 0x1000 then codes "synthetic" ∷ [] else [] in
    if has flags 0x0010 then codes "final" ∷ synthetic else synthetic

unfoldable pub format_access_flags : List Bytes → Bytes
unfolding join
format_access_flags [] = codes "default"
format_access_flags (flag ∷ flags) = join (codes " ") (flag ∷ flags)

module _ (formats : Formats) (fuel : ℕ) (pool : ConstantPool) where
  -- ` count={}, {}`, or what stands for an empty list.
  abbrev pub counted_text : Bytes → ℕ → List Bytes → Bytes
  counted_text nothing count parts =
      listed nothing (codes " count=" ++ formats.number count) (codes ", ") parts

  unfoldable pub line_number_text : LineNumber → Bytes
  line_number_text l =
      codes "{pc:"
      ++ (formats.number l.start_pc
          ++ (codes ", line:" ++ (formats.number l.line_number ++ codes "}")))

  -- `toStringLineNumberTable`
  unfoldable pub line_number_table_to_string : Decode Bytes
  line_number_table_to_string = read_u2 >>= λ count.
      times count (read_line_number >>= λ l. pure (line_number_text l)) >>= λ parts.
      pure (codes "Attr - LineNumberTable" ++ counted_text (codes " (empty)") count parts)

  abbrev pub range_text : LocalVariable → Bytes
  range_text v = formats.number v.start_pc ++ b'-' ∷ formats.number (v.start_pc + v.range)

  unfoldable pub local_variable_text : LocalVariable → Outcome Bytes
  local_variable_text v = Outcome.◌>>=◌ (get_string pool v.name_index) (λ name.
      Outcome.◌>>=◌ (get_type_string fuel pool v.descriptor_index) (λ type. ok (
        codes "{slot:"
        ++ (formats.number v.index
            ++ (codes ", range:"
                ++ (range_text v
                    ++ (codes ", name:" ++ (name ++ (codes ", type:" ++ (type ++ codes "}"))))))))))

  -- `toStringLocalVariableTable`
  unfoldable pub local_variable_table_to_string : Decode Bytes
  local_variable_table_to_string = read_u2 >>= λ count.
      times count (read_local_variable >>= λ v. lift (local_variable_text v)) >>= λ parts.
      pure (codes "Attr - LocalVariableTable" ++ counted_text (codes " (empty)") count parts)

  unfoldable pub local_variable_type_text : LocalVariable → Outcome Bytes
  local_variable_type_text v = Outcome.◌>>=◌ (get_string pool v.name_index) (λ name.
      Outcome.◌>>=◌ (get_string pool v.descriptor_index) (λ signature. ok (
        codes "{slot:"
        ++ (formats.number v.index
            ++ (codes ", name:"
                ++ (name
                    ++ (codes ", signature:"
                        ++ (signature ++ (codes ", range:" ++ (range_text v ++ codes "}"))))))))))

  -- `toStringLocalVariableTypeTable`
  unfoldable pub local_variable_type_table_to_string : Decode Bytes
  local_variable_type_table_to_string = read_u2 >>= λ count.
      times count (read_local_variable >>= λ v. lift (local_variable_type_text v)) >>= λ parts.
      pure (codes "Attr - LocalVariableTypeTable" ++ counted_text (codes " (empty)") count parts)

  -- `innerClassToString`
  unfoldable pub inner_class_to_string : InnerClass → Outcome Bytes
  inner_class_to_string c =
      Outcome.◌>>=◌ (get_class_info_name pool c.inner_class_info_index) (λ inner.
        Outcome.◌>>=◌ (get_class_info_name pool c.outer_class_info_index) (λ outer.
          Outcome.◌>>=◌ (get_classname pool c.inner_name_index) (λ name. ok (
            to_string c.inner_class_access_flags
            ++ (codes " class: "
                ++ (name
                    ++ (codes ", outer class: "
                        ++ (outer ++ (codes ", inner class: " ++ inner)))))))))

  -- `toStringInnerClasses`
  unfoldable pub inner_classes_to_string : Decode Bytes
  inner_classes_to_string = read_u2 >>= λ count.
      times count (read_inner_class >>= λ c. lift (inner_class_to_string c)) >>= λ parts.
      pure (codes "Attr - InnerClasses" ++ 10 ∷ join (10 ∷ []) parts)

  -- `toStringNestMembers`
  unfoldable pub nest_members_to_string : Decode Bytes
  nest_members_to_string = read_u2 >>= λ count.
      times count (read_u2 >>= λ index. lift (get_class_info_name pool index)) >>= λ parts.
      pure (codes "Attr - NestMembers" ++ counted_text (codes " (empty)") count parts)

  -- `toStringNestHost`
  unfoldable pub nest_host_to_string : Decode Bytes
  nest_host_to_string = read_u2 >>= λ index. lift (get_class_info_name pool index) >>= λ name.
      pure (codes "Attr - NestHost" ++ (codes " host=" ++ name))

  -- `toStringExceptions` and `toStringPermittedSubclasses`
  unfoldable pub exceptions_to_string : Decode Bytes
  exceptions_to_string = read_u2 >>= λ count.
      times count (read_u2 >>= λ index. lift (format_class_name formats fuel pool index))
      >>= λ names. pure (codes "Attr - Exceptions" ++ counted_text (codes " (none)") count names)

  unfoldable pub permitted_subclasses_to_string : Decode Bytes
  permitted_subclasses_to_string = read_u2 >>= λ count.
      times count (read_u2 >>= λ index. lift (format_class_name formats fuel pool index))
      >>= λ names.
          pure (codes "Attr - PermittedSubclasses" ++ counted_text (codes " (none)") count names)

  -- A round of the loop of `toStringMethodParameters`, and those behind it.
  unfoldable pub parameter_name : ℕ → Outcome Bytes
  parameter_name index = if index == 0 then ok (codes "<unnamed>") else get_string pool index

  unfoldable pub read_parameters : ℕ → ℕ → Decode (List Bytes)
  read_parameters zero index = pure []
  read_parameters (suc n) index = read_u2 >>= λ name_index. read_u2 >>= λ flags.
      lift (parameter_name name_index) >>= λ name. read_parameters n (index + 1) >>= λ parts. pure (
        (codes "{index:"
          ++ (formats.number index
              ++ (codes ", name:"
                  ++ (name
                      ++ (codes ", access:"
                          ++ (format_access_flags (parameter_flags flags) ++ codes "}"))))))
        ∷ parts)

  -- `toStringMethodParameters`
  unfoldable pub method_parameters_to_string : Decode Bytes
  method_parameters_to_string = read_u1 >>= λ count. read_parameters count 0 >>= λ parts.
      pure (codes "Attr - MethodParameters" ++ counted_text (codes " (no parameters)") count parts)

  -- `toStringEnclosingMethod`
  unfoldable pub method_summary : ℕ → Outcome Bytes
  method_summary index =
      if index == 0
      then ok []
      else Outcome.◌>>=◌ (format_name_and_type formats fuel pool index)
          (λ text. ok (codes ", method=" ++ text))

  unfoldable pub enclosing_method_to_string : Decode Bytes
  enclosing_method_to_string = read_u2 >>= λ class_index. read_u2 >>= λ method_index.
      lift (format_class_name formats fuel pool class_index) >>= λ host.
      lift (method_summary method_index) >>= λ method.
      pure (codes "Attr - EnclosingMethod" ++ (codes " host=" ++ (host ++ method)))

  -- `toStringBootstrapMethods`
  unfoldable pub arguments_summary : List Bytes → Bytes
  arguments_summary [] = []
  arguments_summary (argument ∷ arguments) =
      codes " args=[" ++ (join (codes ", ") (argument ∷ arguments) ++ codes "]")

  unfoldable pub read_bootstrap_method : Decode Bytes
  read_bootstrap_method = read_u2 >>= λ method_ref. read_u2 >>= λ count.
      times count
        (read_u2 >>= λ index. lift (constant_pool_index_to_string formats fuel pool index))
      >>= λ arguments. lift (method_handle_to_string formats fuel pool method_ref) >>= λ handle.
          pure (handle ++ arguments_summary arguments)

  unfoldable pub bootstrap_methods_to_string : Decode Bytes
  bootstrap_methods_to_string = read_u2 >>= λ count.
      times count read_bootstrap_method >>= λ entries. pure (
        codes "Attr - BootstrapMethods"
        ++ listed (codes " (none)") (codes " count=" ++ formats.number count) (codes "; ") entries)
