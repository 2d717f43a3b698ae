-- ===== src/Annotations/RoundTrip.antt =====
-- Reading annotations with src/domain/classfile/AnnotationsParser.cpp gives what was written.
use tarracsh.Prelude.{
  ℕ, zero, suc, ◌+◌, ◌*◌, ◌/◌, ◌%◌, ◌^◌, ◌<◌, ◌≡◌, refl, true, false, List, [], ◌∷◌, ◌++◌, length,
  All, append_assoc, ◌==◌, arith,
}
use tarracsh.Outcome.{ok}
use tarracsh.ClassFile.Pool.{Bytes}
use tarracsh.ClassFile.Reader.{swap_short}
use tarracsh.ClassFile.Encode.{u2_bytes, Word16, write_all}
use tarracsh.Annotations.Reader.{VectorReader, Decode, ◌>>=◌, pure, read_u1, read_u2, times}
use tarracsh.Annotations.Parser.{
  ElementValue, const_value, class_value, enum_value, annotation_value, array_value, no_value,
  ElementValues, values_end, value_and, ValuePairs, pairs_end, pair_and, Annotation, is_const_tag,
  read_values, read_annotation_values, read_tagged, read_element_value, read_annotation,
  read_annotations, read_parameter_annotations,
}
use tarracsh.Annotations.Grammar.{
  count_values, count_pairs, write_value, write_values, write_pairs, Fits, ValuesFit, PairsFit,
  write_annotation, AnnotationFits, write_annotations, AnnotationsFit,
}

-- The reader of an attribute in the usual byte order.
abbrev pub at : Bytes → VectorReader
at rest = record { rest = rest; is_big_endian = false }

-- Whatever follows, `p` consumes the bytes `bs` and returns `v`.
pub record Reads {A : Type 0} (p : Decode A) (bs : Bytes) (v : A) : Type 0 where
  pub run : (k : Bytes) → p (at (bs ++ k)) ≡ ok (v, at k)

pub Reads-pure : {A : Type 0} (a : A) → Reads (pure a) [] a
Reads-pure a = record { run = λ k. refl }

pub Reads-bind :
    {A B : Type 0} (p : Decode A) (q : A → Decode B) (bs cs : Bytes) (a : A) (b : B)
    → Reads p bs a
    → Reads (q a) cs b
    → Reads (p >>= q) (bs ++ cs) b
Reads-bind p q bs cs a b hp hq = record {
  run = λ k. rw (append_assoc bs cs k, hp.run (cs ++ k)) (hq.run k);
}

-- A piece that reads nothing more.
pub Reads-last :
    {A B : Type 0} (p : Decode A) (f : A → B) (bs : Bytes) (a : A)
    → Reads p bs a
    → Reads (p >>= λ x. pure (f x)) bs (f a)
Reads-last p f bs a hp = record { run = λ k. rw (hp.run k) refl }

pub read_u1-Reads : (a : ℕ) → Reads read_u1 (a ∷ []) a
unfolding read_u1
read_u1-Reads a = record { run = λ k. refl }

short_lem : (n : ℕ) → n < 2 ^ 16 → swap_short (n / 256 + 256 * (n % 256 + 256 * 0)) ≡ n
short_lem n h = omega (arith, h)

pub read_u2-Reads : (n : ℕ) → Word16 n → Reads read_u2 (u2_bytes n) n
unfolding read_u2
read_u2-Reads n h = record { run = λ k. rw (short_lem n h) refl }

const_not_array : (tag : ℕ) → is_const_tag tag ≡ true → (tag == b'[') ≡ false
const_not_array tag h = ground (arith, h)

values-Reads :
    (fuel : ℕ) (one : Decode ElementValue)
    → ((v : ElementValue) → Fits fuel v → Reads one (write_value v) v)
    → (vs : ElementValues) → ValuesFit fuel vs
    → Reads (read_values one (count_values vs)) (write_values vs) vs
unfolding read_values
values-Reads fuel one h values_end f = Reads-pure values_end
values-Reads fuel one h (value_and v vs) (f, fs) =
    Reads-bind one _ (write_value v) (write_values vs) v (value_and v vs) (h v f) (
      Reads-last (read_values one (count_values vs)) (λ us. value_and v us) (write_values vs) vs
        (values-Reads fuel one h vs fs))

pub pairs-Reads :
    (fuel : ℕ) (one : Decode ElementValue)
    → ((v : ElementValue) → Fits fuel v → Reads one (write_value v) v)
    → (vs : ValuePairs) → PairsFit fuel vs
    → Reads (read_annotation_values one (count_pairs vs)) (write_pairs vs) vs
unfolding read_annotation_values
pairs-Reads fuel one h pairs_end f = Reads-pure pairs_end
pairs-Reads fuel one h (pair_and name v vs) (n, (f, fs)) =
    Reads-bind read_u2 _ (u2_bytes name) (write_value v ++ write_pairs vs) name (pair_and name v vs)
      (read_u2-Reads name n)
      (Reads-bind one _ (write_value v) (write_pairs vs) v (pair_and name v vs) (h v f) (
        Reads-last (read_annotation_values one (count_pairs vs)) (λ us. pair_and name v us)
          (write_pairs vs) vs (pairs-Reads fuel one h vs fs)))

pub value-Reads :
    (fuel : ℕ) (v : ElementValue) → Fits fuel v → Reads (read_element_value fuel) (write_value v) v
unfolding read_element_value read_tagged
value-Reads zero v f = absurd f
value-Reads (suc fuel) (const_value tag index) (c, i) =
    Reads-bind read_u1 _ (tag ∷ []) (u2_bytes index) tag (const_value tag index) (read_u1-Reads tag)
      (rw (const_not_array tag c, c)
        (Reads-last read_u2 (λ n. const_value tag n) (u2_bytes index) index
          (read_u2-Reads index i)))
value-Reads (suc fuel) (class_value index) i =
    Reads-bind read_u1 _ (b'c' ∷ []) (u2_bytes index) b'c' (class_value index) (read_u1-Reads b'c')
      (Reads-last read_u2 (λ n. class_value n) (u2_bytes index) index (read_u2-Reads index i))
value-Reads (suc fuel) (enum_value type name) (t, n) =
    Reads-bind read_u1 _ (b'e' ∷ []) (u2_bytes type ++ u2_bytes name) b'e' (enum_value type name)
      (read_u1-Reads b'e')
      (Reads-bind read_u2 _ (u2_bytes type) (u2_bytes name) type (enum_value type name)
        (read_u2-Reads type t)
        (Reads-last read_u2 (λ m. enum_value type m) (u2_bytes name) name (read_u2-Reads name n)))
value-Reads (suc fuel) (annotation_value type vs) (t, (c, fs)) =
    Reads-bind read_u1 _ (b'@' ∷ [])
      (u2_bytes type ++ (u2_bytes (count_pairs vs) ++ write_pairs vs)) b'@'
      (annotation_value type vs) (read_u1-Reads b'@')
      (Reads-bind read_u2 _ (u2_bytes type) (u2_bytes (count_pairs vs) ++ write_pairs vs) type
        (annotation_value type vs) (read_u2-Reads type t)
        (Reads-bind read_u2 _ (u2_bytes (count_pairs vs)) (write_pairs vs) (count_pairs vs)
          (annotation_value type vs) (read_u2-Reads (count_pairs vs) c)
          (Reads-last (read_annotation_values (read_element_value fuel) (count_pairs vs))
            (λ us. annotation_value type us) (write_pairs vs) vs
            (pairs-Reads fuel (read_element_value fuel) (value-Reads fuel) vs fs))))
value-Reads (suc fuel) (array_value vs) (c, fs) =
    Reads-bind read_u1 _ (b'[' ∷ []) (u2_bytes (count_values vs) ++ write_values vs) b'['
      (array_value vs) (read_u1-Reads b'[')
      (Reads-bind read_u2 _ (u2_bytes (count_values vs)) (write_values vs) (count_values vs)
        (array_value vs) (read_u2-Reads (count_values vs) c)
        (Reads-last (read_values (read_element_value fuel) (count_values vs)) (λ us. array_value us)
          (write_values vs) vs
          (values-Reads fuel (read_element_value fuel) (value-Reads fuel) vs fs)))
value-Reads (suc fuel) (no_value tag) f = absurd f

annotation-Reads :
    (fuel : ℕ) (a : Annotation)
    → AnnotationFits fuel a
    → Reads (read_annotation fuel) (write_annotation a) a
unfolding read_annotation
annotation-Reads fuel a (t, (c, fs)) =
    Reads-bind read_u2 _ (u2_bytes a.type_index)
      (u2_bytes (count_pairs a.values) ++ write_pairs a.values) a.type_index a
      (read_u2-Reads a.type_index t)
      (Reads-bind read_u2 _ (u2_bytes (count_pairs a.values)) (write_pairs a.values)
        (count_pairs a.values) a (read_u2-Reads (count_pairs a.values) c)
        (Reads-last (read_annotation_values (read_element_value fuel) (count_pairs a.values))
          (λ us. record { type_index = a.type_index; values = us }) (write_pairs a.values) a.values
          (pairs-Reads fuel (read_element_value fuel) (value-Reads fuel) a.values fs)))

pub times-Reads :
    {A : Type 0} (one : Decode A) (write_one : A → Bytes) (P : A → Type 0)
    → ((a : A) → P a → Reads one (write_one a) a)
    → (xs : List A) → All P xs
    → Reads (times (length xs) one) (write_all write_one xs) xs
unfolding times
times-Reads one write_one P h [] f = Reads-pure []
times-Reads one write_one P h (x ∷ xs) (f, fs) =
    Reads-bind one _ (write_one x) (write_all write_one xs) x (x ∷ xs) (h x f) (
      Reads-last (times (length xs) one) (λ ys. x ∷ ys) (write_all write_one xs) xs
        (times-Reads one write_one P h xs fs))

pub annotations-Reads :
    (fuel : ℕ) (as' : List Annotation)
    → AnnotationsFit fuel as'
    → Reads (read_annotations fuel) (write_annotations as') as'
unfolding read_annotations
annotations-Reads fuel as' (c, fs) =
    Reads-bind read_u2 _ (u2_bytes (length as')) (write_all write_annotation as') (length as') as'
      (read_u2-Reads (length as') c)
      (times-Reads (read_annotation fuel) write_annotation (AnnotationFits fuel)
        (annotation-Reads fuel) as' fs)

abbrev pub write_parameters : List (List Annotation) → Bytes
write_parameters pss = length pss ∷ write_all write_annotations pss

-- Annotations as the specification lays them out, nested less deep than `fuel`, are read back, for an
-- element and for the parameters of a method, and what follows is left.
pub read_annotations-write :
    (fuel : ℕ) (as' : List Annotation) (pss : List (List Annotation)) (k : Bytes)
    → AnnotationsFit fuel as'
    → All (AnnotationsFit fuel) pss
    → (read_annotations fuel (at (write_annotations as' ++ k)) ≡ ok (as', at k))
      × (read_parameter_annotations fuel (at (write_parameters pss ++ k)) ≡ ok (pss, at k))
unfolding read_parameter_annotations
read_annotations-write fuel as' pss k f fs = (
  (annotations-Reads fuel as' f).run k,
  (Reads-bind read_u1 _ (length pss ∷ []) (write_all write_annotations pss) (length pss) pss
        (read_u1-Reads (length pss))
        (times-Reads (read_annotations fuel) write_annotations (AnnotationsFit fuel)
          (annotations-Reads fuel) pss fs)).run
      k,
)
