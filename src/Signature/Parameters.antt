-- ===== src/Signature/Parameters.antt =====
-- On parsing the spellings of type parameters.
use tarracsh.Prelude.{
  ℕ, zero, suc, ◌+◌, ◌*◌, ◌≤◌, ◌<◌, ◌≡◌, refl, true, false, List, [], ◌∷◌, ◌++◌, ◌==◌, length,
  length-append, arith, All, map,
}
use tarracsh.Outcome.{ok}
use tarracsh.Signature.Nodes.{Str}
use tarracsh.Signature.Cursor.{at, ParseError, current, measure, ends_identifier, progress}
use tarracsh.Signature.Declarations.{
  parse_interface_bounds, parse_bounds, parse_formal_type_parameter,
  parse_more_formal_type_parameters, parse_zero_or_more_formal_type_parameters,
}
use tarracsh.Signature.Grammar.{
  Identifier, Reference, class_ref, variable_ref, array_ref, class_name, emit_reference,
  reference_node, cost_reference,
}
use tarracsh.Signature.DeclarationGrammar.{
  Bounds, class_bound, interface_bounds, TypeParameter, emit_list, emit_bound, emit_bounds,
  emit_param, emit_params, bounds_nodes, param_node, cost_list, cost_bounds, cost_param,
}
use tarracsh.Signature.Names.{Stops, read_name, unreserved}
use tarracsh.Signature.RoundTrip.{reads_reference}
use tarracsh.Signature.Total.{field-Further}

-- The list of interface bounds ends here.
abbrev NotColon : Str → Type 0
NotColon [] = Unit
NotColon (c ∷ k) = (c == b':') ≡ false

interface_bounds_lem :
    (rs : List Reference) (f : ℕ) (k : Str) (e : List ParseError)
    → cost_list cost_reference rs ≤ f
    → NotColon k
    → parse_interface_bounds f (at (emit_list emit_bound rs k) e)
      ≡ ok (map reference_node rs, at k e)
unfolding parse_interface_bounds
interface_bounds_lem [] zero k e h n = absurd (omega arith)
interface_bounds_lem [] (suc f) [] e h n = refl
interface_bounds_lem [] (suc f) (c ∷ k) e h n = rw n
interface_bounds_lem (r ∷ rs) zero k e h n = absurd (omega arith)
interface_bounds_lem (r ∷ rs) (suc f) k e h n = rw (
  reads_reference r f (emit_list emit_bound rs k) e (omega arith),
  interface_bounds_lem rs f k e (omega arith) n,
)

bounds_lem :
    (b : Bounds) (f : ℕ) (k : Str) (e : List ParseError)
    → cost_bounds b ≤ f
    → NotColon k
    → parse_bounds f (at (emit_bounds b k) e) ≡ ok (bounds_nodes b, at k e)
unfolding parse_bounds emit_reference
bounds_lem (class_bound (class_ref (class_name i is xs nest)) rs) f k e h n = rw (
  reads_reference (class_ref (class_name i is xs nest)) f (emit_list emit_bound rs k) e
      (omega arith),
  interface_bounds_lem rs f k e (omega arith) n,
)
bounds_lem (class_bound (variable_ref i) rs) f k e h n = rw (
  reads_reference (variable_ref i) f (emit_list emit_bound rs k) e (omega arith),
  interface_bounds_lem rs f k e (omega arith) n,
)
bounds_lem (class_bound (array_ref t) rs) f k e h n = rw (
  reads_reference (array_ref t) f (emit_list emit_bound rs k) e (omega arith),
  interface_bounds_lem rs f k e (omega arith) n,
)
bounds_lem (interface_bounds r rs) f k e h n = interface_bounds_lem (r ∷ rs) f k e (omega arith) n

-- A spelled type is not empty: what `parseFieldTypeSignature` reads of it lies before what follows.
length-emit_reference : (r : Reference) (k : Str) → length k < length (emit_reference r k)
unfolding measure
length-emit_reference r k =
    let c = at (emit_reference r k) [] in
    let f = cost_reference r + 4 * measure c + 2 in
    let further =
      rw (reads_reference r f k [] (omega arith)) at (field-Further f true c (omega arith)) in
    omega (arith, further)

length-emit_list : (rs : List Reference) (k : Str) → length k ≤ length (emit_list emit_bound rs k)
length-emit_list [] k = omega arith
length-emit_list (r ∷ rs) k =
    omega (arith, length-emit_list rs k, length-emit_reference r (emit_list emit_bound rs k))

length-emit_bounds : (b : Bounds) (k : Str) → length k ≤ length (emit_bounds b k)
length-emit_bounds (class_bound r rs) k =
    omega (arith, length-emit_list rs k, length-emit_reference r (emit_list emit_bound rs k))
length-emit_bounds (interface_bounds r rs) k =
    omega (arith, length-emit_list rs k, length-emit_reference r (emit_list emit_bound rs k))

-- The first character of a type parameter.
name_head :
    (i : Identifier) (k : Str) (e : List ParseError)
    → 0 < length i.text
    → (x : ℕ) × (current (at (i.text ++ k) e) ≡ ok x)
      × ((x == b'>') ≡ false)
      × NotColon (i.text ++ k)
unfolding current ends_identifier
name_head i k e named = go i.text (unreserved i) named
  where
    go :
        (text : Str)
        → All (λ c. ends_identifier c ≡ false) text
        → 0 < length text
        → (x : ℕ) × (current (at (text ++ k) e) ≡ ok x)
          × ((x == b'>') ≡ false)
          × NotColon (text ++ k)
    go [] v h = absurd (omega arith)
    go (x ∷ text) v h = let first = v.0 in (x, refl, ground arith, ground arith)

Stops-bounds : (b : Bounds) (k : Str) → Stops (emit_bounds b k)
unfolding ends_identifier
Stops-bounds (class_bound r rs) k = refl
Stops-bounds (interface_bounds r rs) k = refl

param_lem :
    (p : TypeParameter) (f : ℕ) (k : Str) (e : List ParseError)
    → cost_param p ≤ f
    → NotColon k
    → parse_formal_type_parameter f (at (emit_param p k) e) ≡ ok (param_node p, at k e)
unfolding parse_formal_type_parameter
param_lem p f k e h n = rw (
  read_name p.name (emit_bounds p.bounds k) e (Stops-bounds p.bounds k),
  bounds_lem p.bounds f k e h n,
)

progress_lem :
    (a b : Str) (e : List ParseError) → length b < length a → progress (at a e) (at b e) ≡ at b e
unfolding progress
progress_lem a b e h = ground arith

NotColon-params :
    (ps : List TypeParameter) (k : Str) → NotColon (emit_list emit_param ps (b'>' ∷ k))
NotColon-params [] k = refl
NotColon-params (p ∷ ps) k = (name_head p.name (emit_bounds p.bounds rest) [] p.named).3
  where
    rest : Str
    rest = emit_list emit_param ps (b'>' ∷ k)

length-emit_param : (p : TypeParameter) (k : Str) → length k < length (emit_param p k)
length-emit_param p k = omega (
  arith,
  p.named,
  length-append {0} p.name.text (emit_bounds p.bounds k),
  length-emit_bounds p.bounds k,
)

more_params_lem :
    (ps : List TypeParameter) (f : ℕ) (k : Str) (e : List ParseError)
    → cost_list cost_param ps ≤ f
    → parse_more_formal_type_parameters f (at (emit_list emit_param ps (b'>' ∷ k)) e)
      ≡ ok (map param_node ps, at k e)
unfolding parse_more_formal_type_parameters
more_params_lem [] zero k e h = absurd (omega arith)
more_params_lem [] (suc f) k e h = refl
more_params_lem (p ∷ ps) zero k e h = absurd (omega arith)
more_params_lem (p ∷ ps) (suc f) k e h =
    let rest = emit_list emit_param ps (b'>' ∷ k) in
    let (x, first, other, ok_name) = name_head p.name (emit_bounds p.bounds rest) e p.named in
    rw (
      first,
      other,
      param_lem p f rest e (omega arith) (NotColon-params ps k),
      progress_lem (emit_param p rest) rest e (length-emit_param p rest),
      more_params_lem ps f k e (omega arith),
    )

-- The type parameters of a signature, where what follows does not begin with `<`.
pub params_lem :
    (ps : List TypeParameter) (f x : ℕ) (k : Str) (e : List ParseError)
    → cost_list cost_param ps ≤ f
    → (x == b'<') ≡ false
    → parse_zero_or_more_formal_type_parameters f (at (emit_params ps (x ∷ k)) e)
      ≡ ok (map param_node ps, at (x ∷ k) e)
unfolding parse_zero_or_more_formal_type_parameters
params_lem [] f x k e h n = rw n
params_lem (p ∷ ps) f x k e h n =
    let rest = emit_list emit_param ps (b'>' ∷ x ∷ k) in
    rw (
      param_lem p f rest e (omega arith) (NotColon-params ps (x ∷ k)),
      more_params_lem ps f (x ∷ k) e (omega arith),
    )
