-- ===== src/Signature/DeclarationGrammar.antt =====
-- Part of the grammar of whole class and method signatures (4.7.9.1), over that of types: every type
-- parameter has a class or an interface bound. The whole grammar also has `<T:>`, which the parser
-- refuses.
use tarracsh.Prelude.{ℕ, suc, ◌+◌, ◌<◌, List, [], ◌∷◌, ◌++◌, length, map}
use tarracsh.Signature.Nodes.{
  Str, FieldTypeSignature, class_type, type_variable, ReturnType, void_descriptor, returns,
  FormalTypeParameter, ClassSignature, MethodTypeSignature,
}
use tarracsh.Signature.Grammar.{
  Identifier, Reference, JavaType, ClassRef, emit_reference, emit_type, emit_class, reference_node,
  type_node, class_node, cost_reference, cost_type, cost_class,
}

-- The whole grammar also allows a parameter with neither bound; compilers do not write one.
pub data Bounds : Type 0 where
  class_bound : Reference → List Reference → Bounds
  interface_bounds : Reference → List Reference → Bounds

pub record TypeParameter : Type 0 where
  pub name : Identifier
  pub named : 0 < length name.text
  pub bounds : Bounds

pub data Thrown : Type 0 where
  throws_class : ClassRef → Thrown
  throws_variable : Identifier → Thrown

pub data Result : Type 0 where
  nothing : Result
  result : JavaType → Result

pub record ClassDeclaration : Type 0 where
  pub params : List TypeParameter
  pub super : ClassRef
  pub interfaces : List ClassRef

pub record MethodDeclaration : Type 0 where
  pub params : List TypeParameter
  pub arguments : List JavaType
  pub result_type : Result
  pub thrown : List Thrown

module _ {A : Type 0} (emit_one : A → Str → Str) where
  abbrev pub emit_list : List A → Str → Str
  emit_list [] k = k
  emit_list (a ∷ xs) k = emit_one a (emit_list xs k)

abbrev pub emit_bound : Reference → Str → Str
emit_bound r k = b':' ∷ emit_reference r k

abbrev pub emit_bounds : Bounds → Str → Str
emit_bounds (class_bound r rs) k = emit_bound r (emit_list emit_bound rs k)
emit_bounds (interface_bounds r rs) k = b':' ∷ emit_bound r (emit_list emit_bound rs k)

abbrev pub emit_param : TypeParameter → Str → Str
emit_param p k = p.name.text ++ emit_bounds p.bounds k

abbrev pub emit_params : List TypeParameter → Str → Str
emit_params [] k = k
emit_params (p ∷ ps) k = b'<' ∷ emit_param p (emit_list emit_param ps (b'>' ∷ k))

abbrev pub emit_result : Result → Str → Str
emit_result nothing k = b'V' ∷ k
emit_result (result t) k = emit_type t k

abbrev pub emit_thrown : Thrown → Str → Str
emit_thrown (throws_class c) k = b'^' ∷ emit_class c k
emit_thrown (throws_variable i) k = b'^' ∷ b'T' ∷ (i.text ++ b';' ∷ k)

abbrev pub emit_class_signature : ClassDeclaration → Str
emit_class_signature d =
    emit_params d.params (emit_class d.super (emit_list emit_class d.interfaces []))

abbrev pub emit_method_signature : MethodDeclaration → Str
emit_method_signature d = emit_params d.params (
    b'('
    ∷ emit_list emit_type d.arguments
        (b')' ∷ emit_result d.result_type (emit_list emit_thrown d.thrown [])))

abbrev pub bounds_nodes : Bounds → List FieldTypeSignature
bounds_nodes (class_bound r rs) = reference_node r ∷ map reference_node rs
bounds_nodes (interface_bounds r rs) = reference_node r ∷ map reference_node rs

abbrev pub param_node : TypeParameter → FormalTypeParameter
param_node p = record { name = p.name.text; bounds = bounds_nodes p.bounds }

abbrev pub thrown_node : Thrown → FieldTypeSignature
thrown_node (throws_class c) = class_type (class_node c)
thrown_node (throws_variable i) = type_variable i.text

abbrev pub result_node : Result → ReturnType
result_node nothing = void_descriptor
result_node (result t) = returns (type_node t)

abbrev pub class_signature_node : ClassDeclaration → ClassSignature
class_signature_node d = record {
  formal_type_params = map param_node d.params;
  superclass = class_node d.super;
  super_interfaces = map class_node d.interfaces;
}

abbrev pub method_signature_node : MethodDeclaration → MethodTypeSignature
method_signature_node d = record {
  formal_type_params = map param_node d.params;
  parameter_types = map type_node d.arguments;
  return_type = result_node d.result_type;
  exception_types = map thrown_node d.thrown;
}

-- The fuel that is enough, a sum as in `Grammar`.
module _ {A : Type 0} (cost_one : A → ℕ) where
  abbrev pub cost_list : List A → ℕ
  cost_list [] = 1
  cost_list (a ∷ xs) = suc (cost_one a + cost_list xs)

abbrev pub cost_bounds : Bounds → ℕ
cost_bounds (class_bound r rs) = cost_reference r + cost_list cost_reference rs
cost_bounds (interface_bounds r rs) = suc (cost_reference r + cost_list cost_reference rs)

abbrev pub cost_param : TypeParameter → ℕ
cost_param p = cost_bounds p.bounds

abbrev pub cost_thrown : Thrown → ℕ
cost_thrown (throws_class c) = suc (cost_class c)
cost_thrown (throws_variable i) = 1

abbrev pub cost_result : Result → ℕ
cost_result nothing = 0
cost_result (result t) = cost_type t

abbrev pub cost_class_signature : ClassDeclaration → ℕ
cost_class_signature d =
    cost_list cost_param d.params + cost_class d.super + cost_list cost_class d.interfaces

abbrev pub cost_method_signature : MethodDeclaration → ℕ
cost_method_signature d =
    cost_list cost_param d.params
    + cost_list cost_type d.arguments
    + cost_result d.result_type
    + cost_list cost_thrown d.thrown
