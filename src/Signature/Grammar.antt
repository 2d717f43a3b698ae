-- ===== src/Signature/Grammar.antt =====
-- The types of the signature grammar of the Java virtual machine specification (4.7.9.1) whose names
-- hold no `$`, as trees, how a tree is spelled, and the node that the parser ought to build for it.
-- This is the specification that the parser is held to; it shares with it the types of nodes and the
-- node for java.lang.Object.
use tarracsh.Prelude.{
  ℕ, suc, ◌+◌, ◌≡◌, Bool, true, false, ◌||◌, ◌==◌, List, [], ◌∷◌, ◌++◌, if◌then◌else◌, length, All,
}
use tarracsh.Signature.Nodes.{
  Str, BaseType, byte_signature, char_signature, int_signature, short_signature, long_signature,
  double_signature, float_signature, boolean_signature, FieldTypeSignature, class_type, array,
  type_variable, bottom, TypeSignature, base, field_type, simple_class, ClassPath, path_end,
  path_cons, TypeArgument, type_arg, wildcard, TypeArguments, no_args, arg_cons,
}
use tarracsh.Signature.Parser.{object_signature}

-- The characters that the grammar keeps out of names, and `$`, which the parser takes for the end of
-- an outer class's name.
abbrev pub reserved : ℕ → Bool
reserved c =
    c == b';'
    || c == b'.'
    || c == b'$'
    || c == b'/'
    || c == b'['
    || c == b':'
    || c == b'>'
    || c == b'<'

-- A name holds none of these characters.
pub record Identifier : Type 0 where
  pub text : Str
  pub valid : All (λ c. reserved c ≡ false) text

mutual
  pub data Reference : Type 0 where
    class_ref : ClassRef → Reference
    variable_ref : Identifier → Reference
    array_ref : JavaType → Reference

  pub data JavaType : Type 0 where
    primitive : BaseType → JavaType
    reference : Reference → JavaType

  -- The first name, the further `/`-separated names, its arguments, and the nested classes.
  pub data ClassRef : Type 0 where
    class_name : Identifier → List Identifier → Arguments → Suffixes → ClassRef

  pub data Arguments : Type 0 where
    absent : Arguments
    present : Argument → MoreArguments → Arguments

  pub data MoreArguments : Type 0 where
    last : MoreArguments
    more : Argument → MoreArguments → MoreArguments

  pub data Argument : Type 0 where
    exactly : Reference → Argument
    extending : Reference → Argument
    above : Reference → Argument
    unbounded : Argument

  -- A nested class stands behind a `.`, or behind a `$` where the flag is set.
  pub data Suffixes : Type 0 where
    closed : Suffixes
    nested : Bool → Identifier → Arguments → Suffixes → Suffixes

abbrev pub letter : BaseType → ℕ
letter byte_signature = b'B'
letter char_signature = b'C'
letter int_signature = b'I'
letter short_signature = b'S'
letter long_signature = b'J'
letter double_signature = b'D'
letter float_signature = b'F'
letter boolean_signature = b'Z'

abbrev pub emit_package : List Identifier → Str → Str
emit_package [] k = k
emit_package (i ∷ is) k = b'/' ∷ (i.text ++ emit_package is k)

-- `emit_reference r k` is the spelling of `r`, with the text `k` after it.
unfoldable mutual
  pub emit_reference : Reference → Str → Str
  emit_reference (class_ref c) k = emit_class c k
  emit_reference (variable_ref i) k = b'T' ∷ (i.text ++ b';' ∷ k)
  emit_reference (array_ref t) k = b'[' ∷ emit_type t k

  pub emit_type : JavaType → Str → Str
  emit_type (primitive b) k = letter b ∷ k
  emit_type (reference r) k = emit_reference r k

  pub emit_class : ClassRef → Str → Str
  emit_class (class_name i is args nest) k =
      b'L' ∷ (i.text ++ emit_package is (emit_arguments args (emit_suffixes nest (b';' ∷ k))))

  pub emit_arguments : Arguments → Str → Str
  emit_arguments absent k = k
  emit_arguments (present a xs) k = b'<' ∷ emit_argument a (emit_more xs k)

  pub emit_more : MoreArguments → Str → Str
  emit_more last k = b'>' ∷ k
  emit_more (more a xs) k = emit_argument a (emit_more xs k)

  pub emit_argument : Argument → Str → Str
  emit_argument (exactly r) k = emit_reference r k
  emit_argument (extending r) k = b'+' ∷ emit_reference r k
  emit_argument (above r) k = b'-' ∷ emit_reference r k
  emit_argument unbounded k = b'*' ∷ k

  pub emit_suffixes : Suffixes → Str → Str
  emit_suffixes closed k = k
  emit_suffixes (nested dollar i args rest) k =
      (if dollar then b'$' else b'.') ∷ (i.text ++ emit_arguments args (emit_suffixes rest k))

-- The package's names with `.` between them, as Java writes them.
abbrev pub dotted : Str → List Identifier → Str
dotted id [] = id
dotted id (i ∷ is) = dotted (id ++ b'.' ∷ i.text) is

unfoldable mutual
  pub reference_node : Reference → FieldTypeSignature
  reference_node (class_ref c) = class_type (class_node c)
  reference_node (variable_ref i) = type_variable i.text
  reference_node (array_ref t) = array (type_node t)

  pub type_node : JavaType → TypeSignature
  type_node (primitive b) = base b
  type_node (reference r) = field_type (reference_node r)

  pub class_node : ClassRef → ClassPath
  class_node (class_name i is args nest) =
      path_cons (simple_class (dotted i.text is) false (arguments_node args)) (suffixes_node nest)

  pub arguments_node : Arguments → TypeArguments
  arguments_node absent = no_args
  arguments_node (present a xs) = arg_cons (argument_node a) (more_node xs)

  pub more_node : MoreArguments → TypeArguments
  more_node last = no_args
  more_node (more a xs) = arg_cons (argument_node a) (more_node xs)

  pub argument_node : Argument → TypeArgument
  argument_node (exactly r) = type_arg (reference_node r)
  argument_node (extending r) = wildcard (reference_node r) bottom
  argument_node (above r) = wildcard object_signature (reference_node r)
  argument_node unbounded = wildcard object_signature bottom

  pub suffixes_node : Suffixes → ClassPath
  suffixes_node closed = path_end
  suffixes_node (nested dollar i args rest) =
      path_cons (simple_class i.text true (arguments_node args)) (suffixes_node rest)

-- The calls and loop rounds that a tree takes, counted as a sum: the fuel that is enough for it.
unfoldable mutual
  pub cost_reference : Reference → ℕ
  cost_reference (class_ref c) = suc (cost_class c)
  cost_reference (variable_ref i) = 1
  cost_reference (array_ref t) = suc (cost_type t)

  pub cost_type : JavaType → ℕ
  cost_type (primitive b) = 1
  cost_type (reference r) = suc (cost_reference r)

  pub cost_class : ClassRef → ℕ
  cost_class (class_name i is args nest) = 3 + length is + cost_arguments args + cost_suffixes nest

  pub cost_arguments : Arguments → ℕ
  cost_arguments absent = 0
  cost_arguments (present a xs) = suc (cost_argument a + cost_more xs)

  pub cost_more : MoreArguments → ℕ
  cost_more last = 1
  cost_more (more a xs) = suc (cost_argument a + cost_more xs)

  pub cost_argument : Argument → ℕ
  cost_argument (exactly r) = suc (cost_reference r)
  cost_argument (extending r) = suc (cost_reference r)
  cost_argument (above r) = suc (cost_reference r)
  cost_argument unbounded = 1

  pub cost_suffixes : Suffixes → ℕ
  cost_suffixes closed = 1
  cost_suffixes (nested dollar i args rest) = 2 + cost_arguments args + cost_suffixes rest
