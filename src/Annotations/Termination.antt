-- ===== src/Annotations/Termination.antt =====
-- The nesting of annotations in src/domain/classfile/AnnotationsParser.cpp, on any bytes.
use tarracsh.Prelude.{ℕ, zero, suc, ◌<◌, ◌≤◌, ◌≢◌, Bool, [], ◌∷◌, length, ◌==◌, ◌||◌, arith}
use tarracsh.Outcome.{out_of_fuel, Within, Within-weaken}
use tarracsh.ClassFile.Pool.{Bytes}
use tarracsh.Annotations.Reader.{VectorReader, Decode, read_u1, read_u2, times}
use tarracsh.Annotations.Parser.{
  ElementValue, is_const_tag, is_invalid_tag, read_values, read_annotation_values, read_tagged,
  read_element_value, read_annotation, read_annotations, read_parameter_annotations,
}
use tarracsh.Annotations.Types.{
  read_local_var, read_target_info, read_path_item, read_type_annotation, read_type_annotations,
}
use tarracsh.Annotations.Bounded.{
  Left, Bounded, Bounded-bind, Bounded-if, read_u1-Bounded, read_u2-Bounded, times-Bounded,
  u1-Bounded, u2-Bounded, within_fuel,
}

read_values-Bounded :
    (n : ℕ) (one : Decode ElementValue) (count : ℕ)
    → Bounded n one
    → Bounded n (read_values one count)
unfolding read_values
read_values-Bounded n one zero h = λ r l. l
read_values-Bounded n one (suc count) h = Bounded-bind n one _ h (λ v.
    Bounded-bind n (read_values one count) _ (read_values-Bounded n one count h) (λ vs. λ r l. l))

read_annotation_values-Bounded :
    (n : ℕ) (one : Decode ElementValue) (count : ℕ)
    → Bounded n one
    → Bounded n (read_annotation_values one count)
unfolding read_annotation_values
read_annotation_values-Bounded n one zero h = λ r l. l
read_annotation_values-Bounded n one (suc count) h =
    Bounded-bind n read_u2 _ (read_u2-Bounded n) (λ name. Bounded-bind n one _ h (λ v.
      Bounded-bind n (read_annotation_values one count) _
        (read_annotation_values-Bounded n one count h) (λ vs. λ r l. l)))

read_tagged-Bounded :
    (n : ℕ) (one : Decode ElementValue) (tag : ℕ) → Bounded n one → Bounded n (read_tagged one tag)
unfolding read_tagged
read_tagged-Bounded n one tag h =
    Bounded-if n (tag == b'[') _ _
      (Bounded-bind n read_u2 _ (read_u2-Bounded n) (λ c.
        Bounded-bind n (read_values one c) _ (read_values-Bounded n one c h) (λ vs. λ r l. l)))
      (Bounded-if n (is_const_tag tag) _ _
        (Bounded-bind n read_u2 _ (read_u2-Bounded n) (λ i. λ r l. l))
        (Bounded-if n (tag == b'c') _ _
          (Bounded-bind n read_u2 _ (read_u2-Bounded n) (λ i. λ r l. l))
          (Bounded-if n (tag == b'@') _ _
            (Bounded-bind n read_u2 _ (read_u2-Bounded n) (λ type.
              Bounded-bind n read_u2 _ (read_u2-Bounded n) (λ c.
                Bounded-bind n (read_annotation_values one c) _
                  (read_annotation_values-Bounded n one c h) (λ vs. λ r l. l))))
            (Bounded-if n (tag == b'e') _ _
              (Bounded-bind n read_u2 _ (read_u2-Bounded n)
                (λ type. Bounded-bind n read_u2 _ (read_u2-Bounded n) (λ name. λ r l. l)))
              (Bounded-if n (is_invalid_tag tag) _ _ (λ r l. tt) (λ r l. l))))))

-- The tag of a value is a byte that its parts do not have.
read_element_value-Bounded : (fuel n : ℕ) → n < fuel → Bounded n (read_element_value fuel)
unfolding read_element_value read_u1
read_element_value-Bounded zero n l r h = absurd (omega (arith, l))
read_element_value-Bounded (suc fuel) n l r h =
    of_rest r.rest r.is_big_endian h (read_element_value-Bounded fuel)
  where
    of_rest :
        (rest : Bytes) (big : Bool)
        → length rest ≤ n
        → ((m : ℕ) → m < fuel → Bounded m (read_element_value fuel))
        → Within
            (Left n)
            (read_element_value (suc fuel) (record { rest = rest; is_big_endian = big }))
    of_rest [] big h ih = tt
    of_rest (a ∷ rest) big h ih =
        Within-weaken
          (read_tagged (read_element_value fuel) a (record { rest = rest; is_big_endian = big }))
          (λ (v, r') i. omega (arith, i, h))
          (read_tagged-Bounded (length rest) (read_element_value fuel) a
            (ih (length rest) (omega (arith, h, l))) (record { rest = rest; is_big_endian = big })
            (omega arith))

pairs-Bounded :
    (n fuel count : ℕ)
    → n < fuel
    → Bounded n (read_annotation_values (read_element_value fuel) count)
pairs-Bounded n fuel count l =
    read_annotation_values-Bounded n (read_element_value fuel) count
      (read_element_value-Bounded fuel n l)

annotations-Bounded : (n fuel : ℕ) → n < fuel → Bounded n (read_annotations fuel)
unfolding read_annotations read_annotation
annotations-Bounded n fuel l = Bounded-bind n read_u2 _ (read_u2-Bounded n) (λ count.
    times-Bounded n count _ (
      Bounded-bind n read_u2 _ (read_u2-Bounded n) (λ type.
        Bounded-bind n read_u2 _ (read_u2-Bounded n) (λ c.
          Bounded-bind n (read_annotation_values (read_element_value fuel) c) _
            (pairs-Bounded n fuel c l) (λ vs r h. h)))))

parameter_annotations-Bounded :
    (n fuel : ℕ) → n < fuel → Bounded n (read_parameter_annotations fuel)
unfolding read_parameter_annotations
parameter_annotations-Bounded n fuel l =
    Bounded-bind n read_u1 _ (read_u1-Bounded n)
      (λ count. times-Bounded n count (read_annotations fuel) (annotations-Bounded n fuel l))

target_info-Bounded : (n type : ℕ) → Bounded n (read_target_info type)
unfolding read_target_info read_local_var
target_info-Bounded n type = Bounded-if n (type == 0 || type == 1) _ _ (u1-Bounded n _) (
    Bounded-if n (type == 16) _ _ (u2-Bounded n _) (
      Bounded-if n (type == 17 || type == 18) _ _
        (Bounded-bind n read_u1 _ (read_u1-Bounded n) (λ i. u1-Bounded n _))
        (Bounded-if n (type == 19 || (type == 20 || type == 21)) _ _ (λ r h. h)
          (Bounded-if n (type == 22) _ _ (u1-Bounded n _) (
            Bounded-if n (type == 23) _ _ (u2-Bounded n _) (
              Bounded-if n (type == 64 || type == 65) _ _
                (Bounded-bind n read_u2 _ (read_u2-Bounded n) (λ c.
                  Bounded-bind n (times c _) _
                    (times-Bounded n c _ (
                      Bounded-bind n read_u2 _ (read_u2-Bounded n)
                        (λ a. Bounded-bind n read_u2 _ (read_u2-Bounded n) (λ b. u2-Bounded n _))))
                    (λ l r h. h)))
                (Bounded-if n (type == 66) _ _ (u2-Bounded n _) (
                  Bounded-if n (type == 67 || (type == 68 || (type == 69 || type == 70))) _ _
                    (u2-Bounded n _)
                    (Bounded-if n
                      (type == 71 || (type == 72 || (type == 73 || (type == 74 || type == 75)))) _ _
                      (Bounded-bind n read_u2 _ (read_u2-Bounded n) (λ a. u2-Bounded n _))
                      (λ r h. tt))))))))))

type_annotations-Bounded : (n fuel : ℕ) → n < fuel → Bounded n (read_type_annotations fuel)
unfolding read_type_annotations read_type_annotation read_path_item
type_annotations-Bounded n fuel l = Bounded-bind n read_u2 _ (read_u2-Bounded n) (λ count.
    times-Bounded n count _ (
      Bounded-bind n read_u1 _ (read_u1-Bounded n) (λ type.
        Bounded-bind n (read_target_info type) _ (target_info-Bounded n type) (λ target.
          Bounded-bind n read_u1 _ (read_u1-Bounded n) (λ c.
            Bounded-bind n (times c _) _
              (times-Bounded n c _
                (Bounded-bind n read_u1 _ (read_u1-Bounded n) (λ a. u1-Bounded n _)))
              (λ path. Bounded-bind n read_u2 _ (read_u2-Bounded n) (λ index.
                Bounded-bind n read_u2 _ (read_u2-Bounded n) (λ d.
                  Bounded-bind n (read_annotation_values (read_element_value fuel) d) _
                    (pairs-Bounded n fuel d l) (λ vs r h. h)))))))))

-- With one unit more than there are bytes, reading annotations of any of the three kinds ends, whatever
-- the bytes are.
pub read_annotations-ends :
    (r : VectorReader)
    → (read_annotations (suc (length r.rest)) r ≢ out_of_fuel)
      × (read_parameter_annotations (suc (length r.rest)) r ≢ out_of_fuel)
      × (read_type_annotations (suc (length r.rest)) r ≢ out_of_fuel)
read_annotations-ends r =
    let n = length r.rest in
    (
      within_fuel n (read_annotations (suc n)) r (annotations-Bounded n (suc n) (omega arith))
          (omega arith),
      within_fuel n (read_parameter_annotations (suc n)) r
          (parameter_annotations-Bounded n (suc n) (omega arith)) (omega arith),
      within_fuel n (read_type_annotations (suc n)) r
          (type_annotations-Bounded n (suc n) (omega arith)) (omega arith),
    )
