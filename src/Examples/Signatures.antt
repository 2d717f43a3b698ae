-- ===== src/Examples/Signatures.antt =====
-- The theorems on the signature parser, at concrete inputs.
use tarracsh.Prelude.{false, ◌≡◌, ◌≢◌, refl, [], ◌∷◌, codes, arith, All}
use tarracsh.Outcome.{ok, out_of_fuel}
use tarracsh.Signature.Nodes.{int_signature}
use tarracsh.Signature.Cursor.{at, ends_identifier}
use tarracsh.Signature.Declarations.{parse_class_sig, parse_method_sig, parse_type_sig}
use tarracsh.Signature.Grammar.{
  reserved, Identifier, class_ref, variable_ref, array_ref, primitive, reference, ClassRef,
  class_name, absent, present, last, more, exactly, extending, closed, nested, emit_class,
  cost_class,
}
use tarracsh.Signature.DeclarationGrammar.{
  TypeParameter, interface_bounds, throws_variable, nothing, ClassDeclaration, MethodDeclaration,
  emit_class_signature, emit_method_signature, class_signature_node, method_signature_node,
}
use tarracsh.Signature.DeclarationRoundTrip.{parse_class_sig-emit, parse_method_sig-emit}
use tarracsh.Signature.Hazards.{Blocks, parse_sig-diverges, parse_type_sig-ends}

valid_t : All (λ c. reserved c ≡ false) (codes "T")
valid_t = (refl, tt)

valid_a : All (λ c. reserved c ≡ false) (codes "A")
valid_a = (refl, tt)

valid_b : All (λ c. reserved c ≡ false) (codes "b")
valid_b = (refl, tt)

Blocks-semicolon : Blocks b';'
unfolding ends_identifier
Blocks-semicolon = (refl, refl, refl)

abbrev name_t : Identifier
name_t = record { text = codes "T"; valid = valid_t }

abbrev name_a : Identifier
name_a = record { text = codes "A"; valid = valid_a }

abbrev name_b : Identifier
name_b = record { text = codes "b"; valid = valid_b }

-- The type `A/b<TT;+[TT;>`, with a nested class.
abbrev class_a : ClassRef
class_a =
    class_name name_a (name_b ∷ [])
      (present (exactly (variable_ref name_t))
        (more (extending (array_ref (reference (variable_ref name_t)))) last))
      (nested false name_b absent closed)

abbrev param_t : TypeParameter
param_t = record {
  name = name_t;
  named = omega arith;
  bounds = interface_bounds (class_ref class_a) [];
}

abbrev class_example : ClassDeclaration
class_example = record { params = param_t ∷ []; super = class_a; interfaces = class_a ∷ [] }

abbrev method_example : MethodDeclaration
method_example = record {
  params = param_t ∷ [];
  arguments = primitive int_signature ∷ reference (class_ref class_a) ∷ [];
  result_type = nothing;
  thrown = throws_variable name_t ∷ [];
}

emit_class_signature-class_example :
    emit_class_signature class_example
    ≡ codes "<T::LA/b<TT;+[TT;>.b;>LA/b<TT;+[TT;>.b;LA/b<TT;+[TT;>.b;"
unfolding emit_class
emit_class_signature-class_example = refl

emit_method_signature-method_example :
    emit_method_signature method_example ≡ codes "<T::LA/b<TT;+[TT;>.b;>(ILA/b<TT;+[TT;>.b;)V^TT;"
unfolding emit_class
emit_method_signature-method_example = refl

parse_class_sig-emit_example :
    parse_class_sig 60 (emit_class_signature class_example)
    ≡ ok (class_signature_node class_example, at [] [])
unfolding cost_class
parse_class_sig-emit_example = parse_class_sig-emit class_example 60 (omega arith)

parse_method_sig-emit_example :
    parse_method_sig 60 (emit_method_signature method_example)
    ≡ ok (method_signature_node method_example, at [] [])
unfolding cost_class
parse_method_sig-emit_example = parse_method_sig-emit method_example 60 (omega arith)

parse_sig-diverges_example :
    (parse_class_sig 100 (codes "<T;>LA;") ≡ out_of_fuel)
    × (parse_method_sig 100 (codes "<T;>LA;") ≡ out_of_fuel)
parse_sig-diverges_example = parse_sig-diverges name_t b';' (codes ">LA;") 100 Blocks-semicolon

parse_type_sig-ends_example : parse_type_sig 19 (codes "[<") ≢ out_of_fuel
parse_type_sig-ends_example = parse_type_sig-ends (codes "[<") 19 (omega arith)
