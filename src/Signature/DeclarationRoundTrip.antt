-- ===== src/Signature/DeclarationRoundTrip.antt =====
-- On parsing the spellings of class and method signatures.
use tarracsh.Prelude.{ℕ, zero, suc, ◌+◌, ◌≤◌, ◌≡◌, refl, List, [], ◌∷◌, ◌++◌, arith, map}
use tarracsh.Outcome.{ok}
use tarracsh.Signature.Nodes.{Str, byte_signature}
use tarracsh.Signature.Cursor.{at, ParseError, chain, pure, ends_identifier}
use tarracsh.Signature.Parser.{parse_type_signature, parse_field_type_signature}
use tarracsh.Signature.Declarations.{
  parse_super_interfaces, parse_throws_signature, parse_class_signature,
  parse_method_type_signature, parse_formal_parameters, parse_zero_or_more_type_signatures,
  parse_return_type, parse_zero_or_more_throws_signatures, parse_class_sig, parse_method_sig,
  parse_type_sig,
}
use tarracsh.Signature.Nodes.{returns}
use tarracsh.Signature.Grammar.{
  class_ref, variable_ref, array_ref, JavaType, primitive, reference, ClassRef, class_name,
  emit_type, emit_class, emit_package, emit_arguments, emit_suffixes, type_node, class_node,
  cost_type, cost_class,
}
use tarracsh.Signature.DeclarationGrammar.{
  Thrown, throws_class, throws_variable, nothing, result, Result, ClassDeclaration,
  MethodDeclaration, emit_list, emit_result, emit_thrown, emit_class_signature,
  emit_method_signature, thrown_node, result_node, class_signature_node, method_signature_node,
  cost_list, cost_param, cost_thrown, cost_result, cost_class_signature, cost_method_signature,
}
use tarracsh.Signature.Names.{read_name}
use tarracsh.Signature.RoundTrip.{reads_type, reads_class}
use tarracsh.Signature.Parameters.{params_lem}

interfaces_lem :
    (cs : List ClassRef) (f : ℕ) (e : List ParseError)
    → cost_list cost_class cs ≤ f
    → parse_super_interfaces f (at (emit_list emit_class cs []) e) ≡ ok (map class_node cs, at [] e)
unfolding parse_super_interfaces emit_class
interfaces_lem [] zero e h = absurd (omega arith)
interfaces_lem [] (suc f) e h = refl
interfaces_lem (c ∷ cs) zero e h = absurd (omega arith)
interfaces_lem (class_name i is xs nest ∷ cs) (suc f) e h = rw (
  reads_class (class_name i is xs nest) f (emit_list emit_class cs []) e (omega arith),
  interfaces_lem cs f e (omega arith),
)

class_sig_lem :
    (d : ClassDeclaration) (c : ClassRef) (f : ℕ)
    → cost_list cost_param d.params + cost_class c + cost_list cost_class d.interfaces ≤ f
    → parse_class_sig f (emit_class_signature (record d { super = c }))
      ≡ ok (class_signature_node (record d { super = c }), at [] [])
unfolding parse_class_sig parse_class_signature emit_class
class_sig_lem d (class_name i is xs nest) f h =
    let c = class_name i is xs nest in
    let rest = emit_list emit_class d.interfaces [] in
    let text = i.text ++ emit_package is (emit_arguments xs (emit_suffixes nest (b';' ∷ rest))) in
    rw (
      params_lem d.params f b'L' text [] (omega arith) refl,
      reads_class c f rest [] (omega arith),
      interfaces_lem d.interfaces f [] (omega arith),
    )

-- A class signature parses, with fuel for its tree, to the node of its tree, to the end of the input
-- and with no entry in `_errors`, if it is spelled by the grammar, every type parameter of it has a
-- class or an interface bound that is not empty, and no name in it holds `$`.
pub parse_class_sig-emit :
    (d : ClassDeclaration) (f : ℕ)
    → cost_class_signature d ≤ f
    → parse_class_sig f (emit_class_signature d) ≡ ok (class_signature_node d, at [] [])
parse_class_sig-emit d f h = class_sig_lem d d.super f h

type_step :
    (t : JavaType) (f : ℕ) (k : Str) (e : List ParseError)
    → parse_zero_or_more_type_signatures (suc f) (at (emit_type t k) e)
      ≡ chain
          (parse_type_signature f)
          (λ t. chain (parse_zero_or_more_type_signatures f) (λ ts. pure (t ∷ ts)))
          (at (emit_type t k) e)
unfolding parse_zero_or_more_type_signatures emit_type
type_step (primitive byte_signature) f k e = refl
type_step (primitive b) f k e = refl
type_step (reference (class_ref (class_name i is xs nest))) f k e = refl
type_step (reference (variable_ref i)) f k e = refl
type_step (reference (array_ref t)) f k e = refl

types_lem :
    (ts : List JavaType) (f : ℕ) (k : Str) (e : List ParseError)
    → cost_list cost_type ts ≤ f
    → parse_zero_or_more_type_signatures f (at (emit_list emit_type ts (b')' ∷ k)) e)
      ≡ ok (map type_node ts, at (b')' ∷ k) e)
unfolding parse_zero_or_more_type_signatures
types_lem [] zero k e h = absurd (omega arith)
types_lem [] (suc f) k e h = refl
types_lem (t ∷ ts) zero k e h = absurd (omega arith)
types_lem (t ∷ ts) (suc f) k e h =
    let rest = emit_list emit_type ts (b')' ∷ k) in
    rw (type_step t f rest e, reads_type t f rest e (omega arith), types_lem ts f k e (omega arith))

return_step :
    (t : JavaType) (f : ℕ) (k : Str) (e : List ParseError)
    → parse_return_type f (at (emit_type t k) e)
      ≡ chain (parse_type_signature f) (λ t. pure (returns t)) (at (emit_type t k) e)
unfolding parse_return_type emit_type
return_step (primitive byte_signature) f k e = refl
return_step (primitive b) f k e = refl
return_step (reference (class_ref (class_name i is xs nest))) f k e = refl
return_step (reference (variable_ref i)) f k e = refl
return_step (reference (array_ref t)) f k e = refl

return_lem :
    (r : Result) (f : ℕ) (k : Str) (e : List ParseError)
    → cost_result r ≤ f
    → parse_return_type f (at (emit_result r k) e) ≡ ok (result_node r, at k e)
unfolding parse_return_type
return_lem nothing f k e h = refl
return_lem (result t) f k e h = rw (return_step t f k e, reads_type t f k e h)

throws_lem :
    (t : Thrown) (f : ℕ) (k : Str) (e : List ParseError)
    → cost_thrown t ≤ f
    → parse_throws_signature f (at (emit_thrown t k) e) ≡ ok (thrown_node t, at k e)
unfolding parse_throws_signature parse_field_type_signature emit_class ends_identifier
throws_lem (throws_class c) zero k e h = absurd (omega arith)
throws_lem (throws_class (class_name i is xs nest)) (suc f) k e h =
    rw (reads_class (class_name i is xs nest) f k e (omega arith))
throws_lem (throws_variable i) zero k e h = absurd (omega arith)
throws_lem (throws_variable i) (suc f) k e h = rw (read_name i (b';' ∷ k) e refl)

thrown_step :
    (t : Thrown) (f : ℕ) (k : Str) (e : List ParseError)
    → parse_zero_or_more_throws_signatures (suc f) (at (emit_thrown t k) e)
      ≡ chain
          (parse_throws_signature f)
          (λ t. chain (parse_zero_or_more_throws_signatures f) (λ ts. pure (t ∷ ts)))
          (at (emit_thrown t k) e)
unfolding parse_zero_or_more_throws_signatures
thrown_step (throws_class c) f k e = refl
thrown_step (throws_variable i) f k e = refl

thrown_lem :
    (ts : List Thrown) (f : ℕ) (e : List ParseError)
    → cost_list cost_thrown ts ≤ f
    → parse_zero_or_more_throws_signatures f (at (emit_list emit_thrown ts []) e)
      ≡ ok (map thrown_node ts, at [] e)
unfolding parse_zero_or_more_throws_signatures
thrown_lem [] zero e h = absurd (omega arith)
thrown_lem [] (suc f) e h = refl
thrown_lem (t ∷ ts) zero e h = absurd (omega arith)
thrown_lem (t ∷ ts) (suc f) e h =
    let rest = emit_list emit_thrown ts [] in
    rw
      (thrown_step t f rest e, throws_lem t f rest e (omega arith), thrown_lem ts f e (omega arith))

-- A method signature parses, with fuel for its tree, to the node of its tree, to the end of the input
-- and with no entry in `_errors`, if it is spelled by the grammar, every type parameter of it has a
-- class or an interface bound that is not empty, and no name in it holds `$`.
pub parse_method_sig-emit :
    (d : MethodDeclaration) (f : ℕ)
    → cost_method_signature d ≤ f
    → parse_method_sig f (emit_method_signature d) ≡ ok (method_signature_node d, at [] [])
unfolding parse_method_sig parse_method_type_signature parse_formal_parameters
parse_method_sig-emit d f h =
    let thrown = emit_list emit_thrown d.thrown [] in
    let returned = emit_result d.result_type thrown in
    let text = emit_list emit_type d.arguments (b')' ∷ returned) in
    rw (
      params_lem d.params f b'(' text [] (omega arith) refl,
      types_lem d.arguments f returned [] (omega arith),
      return_lem d.result_type f thrown [] (omega arith),
      thrown_lem d.thrown f [] (omega arith),
    )

-- A type that is spelled by the grammar parses, with fuel for its tree and whatever text follows it,
-- to the node of that tree, and leaves that text to read.
pub parse_type_sig-emit :
    (t : JavaType) (k : Str) (f : ℕ)
    → cost_type t ≤ f
    → parse_type_sig f (emit_type t k) ≡ ok (type_node t, at k [])
unfolding parse_type_sig
parse_type_sig-emit t k f h = reads_type t f k [] h
