-- ===== src/Signature/RoundTrip.antt =====
-- On parsing the spellings of types.
use tarracsh.Prelude.{ℕ, zero, suc, ◌≤◌, ◌≡◌, refl, true, false, List, ◌∷◌, arith}
use tarracsh.Outcome.{ok}
use tarracsh.Signature.Nodes.{Str, byte_signature}
use tarracsh.Signature.Cursor.{at, ParseError, ends_identifier}
use tarracsh.Signature.Parser.{
  parse_type_signature, parse_field_type_signature, parse_class_type_signature,
  parse_class_type_signature_suffix, parse_type_arguments, parse_more_type_arguments,
  parse_type_argument,
}
use tarracsh.Signature.Grammar.{
  Reference, class_ref, variable_ref, array_ref, JavaType, primitive, reference, ClassRef,
  class_name, Arguments, absent, present, MoreArguments, last, more, Argument, exactly, extending,
  above, unbounded, Suffixes, closed, nested, emit_reference, emit_type, emit_class, emit_arguments,
  arguments_node, cost_arguments, emit_more, emit_argument, emit_suffixes, reference_node,
  type_node, class_node, more_node, argument_node, suffixes_node, cost_reference, cost_type,
  cost_class, cost_more, cost_argument, cost_suffixes,
}
use tarracsh.Signature.Names.{read_name}
use tarracsh.Signature.Reads.{
  parse_type-reference, parse_argument-reference, parse_more-argument, ReadsArguments, parse_head,
  parse_nested,
}

-- `parseTypeArguments`, once its parts are read.
step_arguments :
    (a : Argument) (xs : MoreArguments) (f : ℕ) (k : Str) (e : List ParseError)
    → cost_arguments (present a xs) ≤ f
    → ((g : ℕ)
        → cost_argument a ≤ g
        → parse_type_argument g (at (emit_argument a (emit_more xs k)) e)
          ≡ ok (argument_node a, at (emit_more xs k) e))
    → ((g : ℕ)
        → cost_more xs ≤ g
        → parse_more_type_arguments g (at (emit_more xs k) e) ≡ ok (more_node xs, at k e))
    → parse_type_arguments f (at (emit_arguments (present a xs) k) e)
      ≡ ok (arguments_node (present a xs), at k e)
unfolding parse_type_arguments emit_arguments arguments_node cost_arguments
step_arguments a xs zero k e h p q = absurd (omega arith)
step_arguments a xs (suc f) k e h p q = rw (p f (omega arith), q f (omega arith))

-- One induction on the tree.
mutual
  unfolding parse_type_signature emit_reference reference_node cost_reference ends_identifier

  pub reads_reference :
      (r : Reference) (f : ℕ) (k : Str) (e : List ParseError)
      → cost_reference r ≤ f
      → parse_field_type_signature f true (at (emit_reference r k) e)
        ≡ ok (reference_node r, at k e)
  reads_reference (class_ref c) zero k e h = absurd (omega arith)
  reads_reference (class_ref (class_name i is xs nest)) (suc f) k e h =
      rw (reads_class (class_name i is xs nest) f k e (omega arith))
  reads_reference (variable_ref i) zero k e h = absurd (omega arith)
  reads_reference (variable_ref i) (suc f) k e h = rw (read_name i (b';' ∷ k) e refl)
  reads_reference (array_ref t) zero k e h = absurd (omega arith)
  reads_reference (array_ref t) (suc f) k e h = rw (reads_type t f k e (omega arith))

  pub reads_type :
      (t : JavaType) (f : ℕ) (k : Str) (e : List ParseError)
      → cost_type t ≤ f
      → parse_type_signature f (at (emit_type t k) e) ≡ ok (type_node t, at k e)
  reads_type (primitive b) zero k e h = absurd (omega arith)
  reads_type (primitive byte_signature) (suc f) k e h = refl
  reads_type (primitive b) (suc f) k e h = refl
  reads_type (reference r) zero k e h = absurd (omega arith)
  reads_type (reference r) (suc f) k e h =
      rw (parse_type-reference r f k e, reads_reference r f k e (omega arith))

  pub reads_class :
      (c : ClassRef) (f : ℕ) (k : Str) (e : List ParseError)
      → cost_class c ≤ f
      → parse_class_type_signature f (at (emit_class c k) e) ≡ ok (class_node c, at k e)
  reads_class (class_name i is xs nest) zero k e h = absurd (omega arith)
  reads_class (class_name i is xs nest) (suc f) k e h = rw (
    parse_head i is xs nest (reads_arguments xs) f k e (omega arith),
    reads_suffixes nest f k e (omega arith),
  )

  reads_arguments : (xs : Arguments) → ReadsArguments xs
  reads_arguments absent = tt
  reads_arguments (present a xs) = λ f k e h.
      step_arguments a xs f k e h (λ g q. reads_argument a g (emit_more xs k) e q)
        (λ g q. reads_more xs g k e q)

  reads_suffixes :
      (nest : Suffixes) (f : ℕ) (k : Str) (e : List ParseError)
      → cost_suffixes nest ≤ f
      → parse_class_type_signature_suffix f (at (emit_suffixes nest (b';' ∷ k)) e)
        ≡ ok (suffixes_node nest, at (b';' ∷ k) e)
  reads_suffixes closed zero k e h = absurd (omega arith)
  reads_suffixes closed (suc f) k e h = refl
  reads_suffixes (nested dollar i xs nest) zero k e h = absurd (omega arith)
  reads_suffixes (nested true i xs nest) (suc f) k e h = rw (
    parse_nested i xs nest (reads_arguments xs) f k e (omega arith),
    reads_suffixes nest f k e (omega arith),
  )
  reads_suffixes (nested false i xs nest) (suc f) k e h = rw (
    parse_nested i xs nest (reads_arguments xs) f k e (omega arith),
    reads_suffixes nest f k e (omega arith),
  )

  reads_more :
      (xs : MoreArguments) (f : ℕ) (k : Str) (e : List ParseError)
      → cost_more xs ≤ f
      → parse_more_type_arguments f (at (emit_more xs k) e) ≡ ok (more_node xs, at k e)
  reads_more last zero k e h = absurd (omega arith)
  reads_more last (suc f) k e h = refl
  reads_more (more a xs) zero k e h = absurd (omega arith)
  reads_more (more a xs) (suc f) k e h = rw (
    parse_more-argument a f (emit_more xs k) e,
    reads_argument a f (emit_more xs k) e (omega arith),
    reads_more xs f k e (omega arith),
  )

  reads_argument :
      (a : Argument) (f : ℕ) (k : Str) (e : List ParseError)
      → cost_argument a ≤ f
      → parse_type_argument f (at (emit_argument a k) e) ≡ ok (argument_node a, at k e)
  reads_argument (exactly r) zero k e h = absurd (omega arith)
  reads_argument (exactly r) (suc f) k e h =
      rw (parse_argument-reference r f k e, reads_reference r f k e (omega arith))
  reads_argument (extending r) zero k e h = absurd (omega arith)
  reads_argument (extending r) (suc f) k e h = rw (reads_reference r f k e (omega arith))
  reads_argument (above r) zero k e h = absurd (omega arith)
  reads_argument (above r) (suc f) k e h = rw (reads_reference r f k e (omega arith))
  reads_argument unbounded zero k e h = absurd (omega arith)
  reads_argument unbounded (suc f) k e h = refl
