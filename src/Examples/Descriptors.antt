-- ===== src/Examples/Descriptors.antt =====
-- The theorems on the descriptor parsers, at concrete inputs.
use tarracsh.Prelude.{◌≡◌, refl, [], ◌∷◌, codes, arith}
use tarracsh.Outcome.{ok, out_of_fuel}
use tarracsh.Descriptor.Parser.{parse_descriptor, parse_method_descriptor}
use tarracsh.Descriptor.Grammar
use tarracsh.Descriptor.Grammar.{
  FieldDescriptor, class_named, int, void, emit_method, emit_field, method_node, field_node,
}
use tarracsh.Descriptor.RoundTrip.{parse_method_descriptor-emit}
use tarracsh.Descriptor.Hazards.{parse_descriptor-diverges}

abbrev field_int : FieldDescriptor
field_int = record { dims = 2; component = Grammar.primitive int }

abbrev field_class : FieldDescriptor
field_class = record {
  dims = 0;
  component = class_named (codes "a/B") (omega arith) (refl, (refl, (refl, tt)));
}

emit_method-example : emit_method (field_int ∷ field_class ∷ []) field_int ≡ codes "([[ILa/B;)[[I"
emit_method-example = refl

parse_method_descriptor-emit_example :
    parse_method_descriptor 40 (emit_method (field_int ∷ field_class ∷ []) field_int)
    ≡ ok (method_node (field_int ∷ field_class ∷ []) field_int)
parse_method_descriptor-emit_example =
    parse_method_descriptor-emit (field_int ∷ field_class ∷ []) field_int 40 (omega arith)

parse_descriptor-diverges_example : parse_descriptor 100 (codes "La/B") ≡ out_of_fuel
parse_descriptor-diverges_example =
    parse_descriptor-diverges (codes "a/B") 100 (refl, (refl, (refl, tt)))
