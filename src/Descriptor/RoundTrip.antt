-- ===== src/Descriptor/RoundTrip.antt =====
-- On parsing descriptors that are spelled by the grammar.
use tarracsh.Prelude.{
  ℕ, zero, suc, ◌+◌, ◌≤◌, ◌<◌, ◌≡◌, refl, List, [], ◌∷◌, ◌++◌, map, arith, append_assoc, append-nil,
}
use tarracsh.Outcome.{ok}
use tarracsh.Descriptor.Scanner.{Str, make, step}
use tarracsh.Descriptor.Parser.{
  Descriptor, parse_descriptor, parse_arguments, parse_parts, parse_method, parse_method_descriptor,
}
use tarracsh.Descriptor.Grammar.{
  FieldDescriptor, emit_field, emit_fields, emit_method, field_node, method_node, cost_field,
  cost_fields,
}
use tarracsh.Descriptor.FieldReads.{on, land, last_of, dims_text, before, field_lem, field_first}

fields_text :
    (ds : List FieldDescriptor) (k : Str)
    → (x : ℕ) × (r : Str) × (emit_fields ds (b')' ∷ k) ≡ x ∷ r)
fields_text [] k = (b')', k, refl)
fields_text (d ∷ ds) k = dims_text d.dims d.component (emit_fields ds (b')' ∷ k))

land_fields :
    (w : Str) (c : ℕ) (ds : List FieldDescriptor) (k : Str)
    → land w c (emit_fields ds (b')' ∷ k)) ≡ before w (emit_fields ds (b')' ∷ k))
land_fields w c ds k = let (x, r, e) = fields_text ds k in rw e

cost_fields_pos : (ds : List FieldDescriptor) → 0 < cost_fields ds
cost_fields_pos [] = omega arith
cost_fields_pos (d ∷ ds) = omega arith

fields_lem :
    (w : Str) (ds : List FieldDescriptor) (f : ℕ) (args : List Descriptor) (k : Str)
    → cost_fields ds ≤ f
    → parse_arguments f args (before w (emit_fields ds (b')' ∷ k)))
      ≡ ok (args ++ map field_node ds, on w b')' k)
unfolding parse_arguments
fields_lem w ds zero args k h = absurd (omega (arith, cost_fields_pos ds))
fields_lem w [] (suc f) args k h = rw append-nil
fields_lem w (d ∷ ds) (suc f) args k h =
    let rest = emit_fields ds (b')' ∷ k) in
    let (x, here, other) = field_first d w rest in
    rw (
      here,
      other,
      field_lem w d f rest (omega arith),
      land_fields w (last_of d.component) ds k,
      fields_lem w ds f (args ++ field_node d ∷ []) k (omega arith),
      append_assoc,
    )

step_fields :
    (w : Str) (c : ℕ) (ds : List FieldDescriptor) (k : Str)
    → step (on w c (emit_fields ds (b')' ∷ k))) ≡ before w (emit_fields ds (b')' ∷ k))
unfolding step
step_fields w c ds k = let (x, r, e) = fields_text ds k in rw e

step_field :
    (w : Str) (c : ℕ) (d : FieldDescriptor)
    → step (on w c (emit_field d [])) ≡ before w (emit_field d [])
unfolding step
step_field w c d = let (x, r, e) = dims_text d.dims d.component [] in rw e

-- A method descriptor that is spelled by the grammar parses, with fuel for its parts, to its
-- arguments in order, with `.` for `/` in class names and the array dimensions counted, and to its
-- return type.
pub parse_method_descriptor-emit :
    (args : List FieldDescriptor) (ret : FieldDescriptor) (f : ℕ)
    → cost_fields args + cost_field ret < f
    → parse_method_descriptor f (emit_method args ret) ≡ ok (method_node args ret)
unfolding parse_method_descriptor parse_method parse_parts
parse_method_descriptor-emit args ret zero h = absurd (omega arith)
parse_method_descriptor-emit args ret (suc zero) h = absurd (omega (arith, cost_fields_pos args))
parse_method_descriptor-emit args ret (suc (suc f)) h =
    let w = emit_method args ret in
    let tail = emit_field ret [] in
    rw (
      step_fields w b'(' args tail,
      fields_lem w args (suc f) [] tail (omega arith),
      step_field w b')' ret,
      field_lem w ret (suc f) [] (omega arith),
    )

step-make :
    (d : FieldDescriptor)
    → step (make (emit_field d [])) ≡ before (emit_field d []) (emit_field d [])
unfolding step make
step-make d = let (x, r, e) = dims_text d.dims d.component [] in rw e

-- A field descriptor that is spelled by the grammar parses, with fuel for its parts, to its node.
pub parse_descriptor-emit :
    (d : FieldDescriptor) (f : ℕ)
    → cost_field d ≤ f
    → parse_descriptor f (emit_field d []) ≡ ok (field_node d)
unfolding parse_descriptor
parse_descriptor-emit d f h = rw (step-make d, field_lem (emit_field d []) d f [] h)
