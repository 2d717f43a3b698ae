-- ===== src/Signature/Nodes.antt =====
-- src/domain/classfile/types/SignatureNodes.h: the tree of a parsed signature. A class is a
-- constructor of the type that stands for the class it derives from; names are lists of bytes.
use tarracsh.Prelude.{ℕ, Bool, List}

abbrev pub Str : Type 0
Str = List ℕ

-- The singletons that `DECLARE_BASE_TYPE_CLASS` makes.
pub data BaseType : Type 0 where
  byte_signature char_signature int_signature short_signature : BaseType
  long_signature double_signature float_signature boolean_signature : BaseType

-- A vector of a node type is a type of its own here, since the types are mutual.
mutual
  pub data FieldTypeSignature : Type 0 where
    class_type : ClassPath → FieldTypeSignature
    simple : SimpleClassTypeSignature → FieldTypeSignature
    array : TypeSignature → FieldTypeSignature
    type_variable : Str → FieldTypeSignature
    bottom : FieldTypeSignature

  pub data TypeSignature : Type 0 where
    base : BaseType → TypeSignature
    field_type : FieldTypeSignature → TypeSignature

  -- `simple_class name dollar type_args`
  pub data SimpleClassTypeSignature : Type 0 where
    simple_class : Str → Bool → TypeArguments → SimpleClassTypeSignature

  -- `ClassTypeSignature::_path`
  pub data ClassPath : Type 0 where
    path_end : ClassPath
    path_cons : SimpleClassTypeSignature → ClassPath → ClassPath

  -- `wildcard upper lower`: the parser makes both vectors with exactly one bound.
  pub data TypeArgument : Type 0 where
    type_arg : FieldTypeSignature → TypeArgument
    wildcard : FieldTypeSignature → FieldTypeSignature → TypeArgument

  pub data TypeArguments : Type 0 where
    no_args : TypeArguments
    arg_cons : TypeArgument → TypeArguments → TypeArguments

pub data ReturnType : Type 0 where
  void_descriptor : ReturnType
  returns : TypeSignature → ReturnType

pub record FormalTypeParameter : Type 0 where
  pub name : Str
  pub bounds : List FieldTypeSignature

-- A superclass or superinterface is the path of its `ClassTypeSignature`.
pub record ClassSignature : Type 0 where
  pub formal_type_params : List FormalTypeParameter
  pub superclass : ClassPath
  pub super_interfaces : List ClassPath

pub record MethodTypeSignature : Type 0 where
  pub formal_type_params : List FormalTypeParameter
  pub parameter_types : List TypeSignature
  pub return_type : ReturnType
  pub exception_types : List FieldTypeSignature
