-- ===== src/Annotations/TypeRoundTrip.antt =====
-- Reading type annotations with src/domain/classfile/AnnotationsParser.cpp gives what was written,
-- but for type arguments.
use tarracsh.Prelude.{ℕ, ◌≡◌, sym, subst, ◌⊎◌, inl, inr, List, [], ◌∷◌, ◌++◌, length, All}
use tarracsh.Outcome.{ok}
use tarracsh.ClassFile.Pool.{Bytes}
use tarracsh.ClassFile.Encode.{u2_bytes, write_all}
use tarracsh.Annotations.Reader.{◌>>=◌, pure, read_u1, read_u2, times}
use tarracsh.Annotations.Parser.{read_annotation_values, read_element_value}
use tarracsh.Annotations.Grammar.{count_pairs, write_pairs}
use tarracsh.Annotations.Types.{
  TargetInfo, TypeAnnotation, type_parameter_target, type_parameter_bound_target, supertype_target,
  empty_target, formal_parameter_target, throws_target, catch_target, localvar_target,
  offset_target, type_argument_target,
}
use tarracsh.Annotations.Types.{
  read_local_var, read_target_info, read_path_item, read_type_annotation, read_type_annotations,
}
use tarracsh.Annotations.TypeGrammar.{
  write_local_var, target_type, write_target, LocalVarFits, TargetFits, write_path_item,
  write_type_annotation, TypeAnnotationFits, write_type_annotations, TypeAnnotationsFit,
}
use tarracsh.Annotations.RoundTrip.{
  at, Reads, Reads-pure, Reads-bind, Reads-last, read_u1-Reads, read_u2-Reads, value-Reads,
  pairs-Reads, times-Reads,
}

local_var-Reads : (v : ℕ × (ℕ × ℕ)) → LocalVarFits v → Reads read_local_var (write_local_var v) v
unfolding read_local_var
local_var-Reads (start, (size, index)) (s, (z, i)) =
    Reads-bind read_u2 _ (u2_bytes start) (u2_bytes size ++ u2_bytes index) start _
      (read_u2-Reads start s)
      (Reads-bind read_u2 _ (u2_bytes size) (u2_bytes index) size _ (read_u2-Reads size z) (
        Reads-last read_u2 (λ n. (start, (size, n))) (u2_bytes index) index
          (read_u2-Reads index i)))

path_item-Reads : (i : ℕ × ℕ) → Unit {0} → Reads read_path_item (write_path_item i) i
unfolding read_path_item
path_item-Reads (kind, argument) u =
    Reads-bind read_u1 _ (kind ∷ []) (argument ∷ []) kind _ (read_u1-Reads kind)
      (Reads-last read_u1 (λ n. (kind, n)) (argument ∷ []) argument (read_u1-Reads argument))

nothing_asked : {A : Type 0} (xs : List A) → All (λ x. Unit {0}) xs
nothing_asked [] = tt
nothing_asked (x ∷ xs) = (tt, nothing_asked xs)

-- A statement for one type out of several.
pub by_type : (P : ℕ → Type 0) (type a b : ℕ) → P a → P b → (type ≡ a) ⊎ (type ≡ b) → P type
by_type P type a b x y (inl e) = subst P (sym e) x
by_type P type a b x y (inr e) = subst P (sym e) y

target-Reads :
    (t : TargetInfo) → TargetFits t → Reads (read_target_info (target_type t)) (write_target t) t
unfolding read_target_info
target-Reads (type_parameter_target type index) e =
    by_type (λ y. Reads (read_target_info y) (index ∷ []) (type_parameter_target y index)) type 0 1
      (Reads-last read_u1 (λ n. type_parameter_target 0 n) (index ∷ []) index (read_u1-Reads index))
      (Reads-last read_u1 (λ n. type_parameter_target 1 n) (index ∷ []) index (read_u1-Reads index))
      e
target-Reads (supertype_target index) w =
    Reads-last read_u2 (λ n. supertype_target n) (u2_bytes index) index (read_u2-Reads index w)
target-Reads (type_parameter_bound_target type index bound) e =
    by_type
      (λ y.
        Reads (read_target_info y) (index ∷ bound ∷ []) (type_parameter_bound_target y index bound))
      type 17 18 (bound_of 17) (bound_of 18) e
  where
    bound_of :
        (y : ℕ)
        → Reads
            (read_u1 >>= λ i. read_u1 >>= λ b. pure (type_parameter_bound_target y i b))
            (index ∷ bound ∷ [])
            (type_parameter_bound_target y index bound)
    bound_of y = Reads-bind read_u1 _ (index ∷ []) (bound ∷ []) index _ (read_u1-Reads index) (
        Reads-last read_u1 (λ n. type_parameter_bound_target y index n) (bound ∷ []) bound
          (read_u1-Reads bound))
target-Reads (empty_target type) (inl e) =
    subst (λ y. Reads (read_target_info y) [] (empty_target y)) (sym e)
      (Reads-pure (empty_target 19))
target-Reads (empty_target type) (inr e) =
    by_type (λ y. Reads (read_target_info y) [] (empty_target y)) type 20 21
      (Reads-pure (empty_target 20)) (Reads-pure (empty_target 21)) e
target-Reads (formal_parameter_target index) w =
    Reads-last read_u1 (λ n. formal_parameter_target n) (index ∷ []) index (read_u1-Reads index)
target-Reads (throws_target index) w =
    Reads-last read_u2 (λ n. throws_target n) (u2_bytes index) index (read_u2-Reads index w)
target-Reads (localvar_target type items) (e, (c, fs)) =
    by_type
      (λ y.
        Reads (read_target_info y) (u2_bytes (length items) ++ write_all write_local_var items)
          (localvar_target y items))
      type 64 65 (items_of 64) (items_of 65) e
  where
    items_of :
        (y : ℕ)
        → Reads
            (read_u2 >>= λ n. times n read_local_var >>= λ l. pure (localvar_target y l))
            (u2_bytes (length items) ++ write_all write_local_var items)
            (localvar_target y items)
    items_of y =
        Reads-bind read_u2 _ (u2_bytes (length items)) (write_all write_local_var items)
          (length items) _ (read_u2-Reads (length items) c)
          (Reads-last (times (length items) read_local_var) (λ l. localvar_target y l)
            (write_all write_local_var items) items
            (times-Reads read_local_var write_local_var LocalVarFits local_var-Reads items fs))
target-Reads (catch_target index) w =
    Reads-last read_u2 (λ n. catch_target n) (u2_bytes index) index (read_u2-Reads index w)
target-Reads (offset_target type offset) (inl e, w) =
    subst (λ y. Reads (read_target_info y) (u2_bytes offset) (offset_target y offset)) (sym e)
      (Reads-last read_u2 (λ n. offset_target 67 n) (u2_bytes offset) offset
        (read_u2-Reads offset w))
target-Reads (offset_target type offset) (inr (inl e), w) =
    subst (λ y. Reads (read_target_info y) (u2_bytes offset) (offset_target y offset)) (sym e)
      (Reads-last read_u2 (λ n. offset_target 68 n) (u2_bytes offset) offset
        (read_u2-Reads offset w))
target-Reads (offset_target type offset) (inr (inr e), w) =
    by_type (λ y. Reads (read_target_info y) (u2_bytes offset) (offset_target y offset)) type 69 70
      (Reads-last read_u2 (λ n. offset_target 69 n) (u2_bytes offset) offset
        (read_u2-Reads offset w))
      (Reads-last read_u2 (λ n. offset_target 70 n) (u2_bytes offset) offset
        (read_u2-Reads offset w))
      e
target-Reads (type_argument_target type offset index) f = absurd f

type_annotation-Reads :
    (fuel : ℕ) (a : TypeAnnotation)
    → TypeAnnotationFits fuel a
    → Reads (read_type_annotation fuel) (write_type_annotation a) a
unfolding read_type_annotation
type_annotation-Reads fuel a (t, (i, (c, fs))) =
    let type = target_type a.target in
    let counted = u2_bytes (count_pairs a.values) ++ write_pairs a.values in
    let typed = u2_bytes a.type_index ++ counted in
    let path = write_all write_path_item a.path in
    Reads-bind read_u1 _ (type ∷ []) (write_target a.target ++ (length a.path ∷ (path ++ typed)))
      type a (read_u1-Reads type)
      (Reads-bind (read_target_info type) _ (write_target a.target)
        (length a.path ∷ (path ++ typed)) a.target a (target-Reads a.target t)
        (Reads-bind read_u1 _ (length a.path ∷ []) (path ++ typed) (length a.path) a
          (read_u1-Reads (length a.path))
          (Reads-bind (times (length a.path) read_path_item) _ path typed a.path a
            (times-Reads read_path_item write_path_item (λ x. Unit {0}) path_item-Reads a.path
              (nothing_asked a.path))
            (Reads-bind read_u2 _ (u2_bytes a.type_index) counted a.type_index a
              (read_u2-Reads a.type_index i)
              (Reads-bind read_u2 _ (u2_bytes (count_pairs a.values)) (write_pairs a.values)
                (count_pairs a.values) a (read_u2-Reads (count_pairs a.values) c)
                (Reads-last
                  (read_annotation_values (read_element_value fuel) (count_pairs a.values))
                  (λ us. record {
                    target = a.target;
                    path = a.path;
                    type_index = a.type_index;
                    values = us;
                  })
                  (write_pairs a.values) a.values
                  (pairs-Reads fuel (read_element_value fuel) (value-Reads fuel) a.values fs)))))))

-- Type annotations as the specification lays them out, with no type arguments among their targets and
-- nested less deep than `fuel`, are read back, and what follows is left.
pub read_type_annotations-write :
    (fuel : ℕ) (as' : List TypeAnnotation) (k : Bytes)
    → TypeAnnotationsFit fuel as'
    → read_type_annotations fuel (at (write_type_annotations as' ++ k)) ≡ ok (as', at k)
unfolding read_type_annotations
read_type_annotations-write fuel as' k (c, fs) =
    (Reads-bind read_u2 _ (u2_bytes (length as')) (write_all write_type_annotation as') (length as')
        as' (read_u2-Reads (length as') c)
        (times-Reads (read_type_annotation fuel) write_type_annotation (TypeAnnotationFits fuel)
          (type_annotation-Reads fuel) as' fs)).run
      k
