-- ===== src/Examples/Annotated.antt =====
-- The theorems on annotations, at concrete inputs.
use tarracsh.Prelude.{suc, ◌≡◌, ◌≢◌, refl, [], ◌∷◌, ◌++◌, length, inl, arith}
use tarracsh.Outcome.{ok, out_of_fuel}
use tarracsh.Annotations.Reader.{VectorReader}
use tarracsh.Annotations.Parser.{
  const_value, class_value, enum_value, annotation_value, array_value, values_end, value_and,
  pairs_end, pair_and, Annotation, read_annotations, read_parameter_annotations,
}
use tarracsh.Annotations.Types.{TypeAnnotation, localvar_target, read_type_annotations}
use tarracsh.Annotations.Grammar.{write_annotations, AnnotationsFit}
use tarracsh.Annotations.TypeGrammar.{write_type_annotations}
use tarracsh.Annotations.RoundTrip.{at, write_parameters, read_annotations-write}
use tarracsh.Annotations.TypeRoundTrip.{read_type_annotations-write}
use tarracsh.Annotations.Termination.{read_annotations-ends}

-- @A(x = 1, y = {@B(z = e), 2})
abbrev nested : Annotation
nested = record {
  type_index = 1;
  values = pair_and 2 (const_value b'I' 3) (
      pair_and 4
        (array_value (
          value_and (annotation_value 5 (pair_and 6 (enum_value 7 8) pairs_end))
            (value_and (const_value b's' 9) values_end)))
        pairs_end);
}

nested-AnnotationsFit : AnnotationsFit 3 (nested ∷ [])
nested-AnnotationsFit = (
  omega arith,
  (
    (
      omega arith,
      (
        omega arith,
        (
          omega arith,
          (
            (refl, omega arith),
            (
              omega arith,
              (
                (
                  omega arith,
                  (
                    (omega arith, (omega arith, (omega arith, ((omega arith, omega arith), tt)))),
                    ((refl, omega arith), tt),
                  ),
                ),
                tt,
              ),
            ),
          ),
        ),
      ),
    ),
    tt,
  ),
)

read_annotations-write_example :
    (read_annotations 3 (at (write_annotations (nested ∷ []) ++ (0 ∷ [])))
      ≡ ok (nested ∷ [], at (0 ∷ [])))
    × (read_parameter_annotations 3 (at (write_parameters ((nested ∷ []) ∷ []) ++ (0 ∷ [])))
        ≡ ok ((nested ∷ []) ∷ [], at (0 ∷ [])))
read_annotations-write_example =
    read_annotations-write 3 (nested ∷ []) ((nested ∷ []) ∷ []) (0 ∷ []) nested-AnnotationsFit
      (nested-AnnotationsFit, tt)

abbrev on_local : TypeAnnotation
on_local = record {
  target = localvar_target 64 ((1, (2, 3)) ∷ []);
  path = (0, 0) ∷ (3, 1) ∷ [];
  type_index = 300;
  values = pair_and 2 (class_value 3) pairs_end;
}

read_type_annotations-write_example :
    read_type_annotations 1 (at (write_type_annotations (on_local ∷ []) ++ (0 ∷ [])))
    ≡ ok (on_local ∷ [], at (0 ∷ []))
read_type_annotations-write_example = read_type_annotations-write 1 (on_local ∷ []) (0 ∷ []) (
  omega arith,
  (
    (
      (inl refl, (omega arith, ((omega arith, (omega arith, omega arith)), tt))),
      (omega arith, (omega arith, (omega arith, (omega arith, tt)))),
    ),
    tt,
  ),
)

abbrev broken : VectorReader
broken = at (0 ∷ 1 ∷ 0 ∷ 1 ∷ 0 ∷ 1 ∷ 0 ∷ 1 ∷ b'[' ∷ 255 ∷ 255 ∷ b'[' ∷ [])

read_annotations-ends_example :
    (read_annotations (suc (length broken.rest)) broken ≢ out_of_fuel)
    × (read_parameter_annotations (suc (length broken.rest)) broken ≢ out_of_fuel)
    × (read_type_annotations (suc (length broken.rest)) broken ≢ out_of_fuel)
read_annotations-ends_example = read_annotations-ends broken
