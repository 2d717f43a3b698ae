-- ===== src/Signature/Reads.antt =====
-- Steps of the parser on spelled signatures, for the induction in `RoundTrip`.
use tarracsh.Prelude.{
  ℕ, zero, suc, ◌+◌, ◌≤◌, ◌≡◌, refl, true, false, List, ◌∷◌, ◌++◌, length, arith,
}
use tarracsh.Outcome.{ok}
use tarracsh.Signature.Nodes.{Str, field_type, type_arg, arg_cons, simple_class}
use tarracsh.Signature.Cursor.{at, ParseError, chain, pure}
use tarracsh.Signature.Parser.{
  parse_type_signature, parse_field_type_signature,
  parse_package_name_and_simple_class_type_signature, parse_simple_class_type_signature,
  parse_type_arguments, parse_more_type_arguments, parse_type_argument,
}
use tarracsh.Signature.Grammar.{
  Identifier, Reference, class_ref, variable_ref, array_ref, class_name, Arguments, absent, present,
  Argument, exactly, extending, above, unbounded, Suffixes, closed, nested, emit_package,
  emit_reference, emit_arguments, emit_argument, emit_suffixes, dotted, arguments_node,
  cost_arguments,
}
use tarracsh.Signature.Names.{
  read_name, parse_package_lem, Stops-emit_package, Follows-emit, Stops-emit,
}

-- What is not a primitive type is handed to `parseFieldTypeSignature`.
pub parse_type-reference :
    (r : Reference) (f : ℕ) (k : Str) (e : List ParseError)
    → parse_type_signature (suc f) (at (emit_reference r k) e)
      ≡ chain
          (parse_field_type_signature f true)
          (λ t. pure (field_type t))
          (at (emit_reference r k) e)
unfolding parse_type_signature emit_reference
parse_type-reference (class_ref (class_name i is xs nest)) f k e = refl
parse_type-reference (variable_ref i) f k e = refl
parse_type-reference (array_ref t) f k e = refl

-- An argument that begins as a type does is that type.
pub parse_argument-reference :
    (r : Reference) (f : ℕ) (k : Str) (e : List ParseError)
    → parse_type_argument (suc f) (at (emit_reference r k) e)
      ≡ chain
          (parse_field_type_signature f true)
          (λ t. pure (type_arg t))
          (at (emit_reference r k) e)
unfolding parse_type_argument emit_reference
parse_argument-reference (class_ref (class_name i is xs nest)) f k e = refl
parse_argument-reference (variable_ref i) f k e = refl
parse_argument-reference (array_ref t) f k e = refl

-- No argument begins with the `>` that ends the loop.
pub parse_more-argument :
    (a : Argument) (f : ℕ) (k : Str) (e : List ParseError)
    → parse_more_type_arguments (suc f) (at (emit_argument a k) e)
      ≡ chain
          (parse_type_argument f)
          (λ b. chain (parse_more_type_arguments f) (λ r. pure (arg_cons b r)))
          (at (emit_argument a k) e)
unfolding parse_more_type_arguments emit_argument
parse_more-argument (exactly (class_ref (class_name i is xs nest))) f k e = refl
parse_more-argument (exactly (variable_ref i)) f k e = refl
parse_more-argument (exactly (array_ref t)) f k e = refl
parse_more-argument (extending r) f k e = refl
parse_more-argument (above r) f k e = refl
parse_more-argument unbounded f k e = refl

-- `parseTypeArguments` reads `xs`, if it is there.
abbrev pub ReadsArguments : Arguments → Type 0
ReadsArguments absent = Unit
ReadsArguments (present a xs) =
    (f : ℕ) (k : Str) (e : List ParseError)
    → cost_arguments (present a xs) ≤ f
    → parse_type_arguments f (at (emit_arguments (present a xs) k) e)
      ≡ ok (arguments_node (present a xs), at k e)

-- The first class of a path, once its arguments are read.
module _ (i : Identifier) (is : List Identifier) where
  pub parse_head :
      (xs : Arguments) (nest : Suffixes)
      → ReadsArguments xs
      → (f : ℕ) (k : Str) (e : List ParseError) → 2 + length is + cost_arguments xs ≤ f
      → let after = emit_suffixes nest (b';' ∷ k) in
        parse_package_name_and_simple_class_type_signature f
          (at (i.text ++ emit_package is (emit_arguments xs after)) e)
        ≡ ok (simple_class (dotted i.text is) false (arguments_node xs), at after e)
  unfolding parse_package_name_and_simple_class_type_signature arguments_node emit_arguments
      cost_arguments
  parse_head xs nest reads zero k e h = absurd (omega arith)
  parse_head absent closed reads (suc f) k e h =
      let text = b';' ∷ k in
      let follows = Follows-emit absent closed k in
      rw (
        read_name i (emit_package is text) e (Stops-emit_package is text follows),
        parse_package_lem is f i.text text e (omega arith) follows,
      )
  parse_head absent (nested true j ys rest) reads (suc f) k e h =
      let nest = nested true j ys rest in
      let text = emit_suffixes nest (b';' ∷ k) in
      let follows = Follows-emit absent nest k in
      rw (
        read_name i (emit_package is text) e (Stops-emit_package is text follows),
        parse_package_lem is f i.text text e (omega arith) follows,
      )
  parse_head absent (nested false j ys rest) reads (suc f) k e h =
      let nest = nested false j ys rest in
      let text = emit_suffixes nest (b';' ∷ k) in
      let follows = Follows-emit absent nest k in
      rw (
        read_name i (emit_package is text) e (Stops-emit_package is text follows),
        parse_package_lem is f i.text text e (omega arith) follows,
      )
  parse_head (present a xs) nest reads (suc f) k e h =
      let after = emit_suffixes nest (b';' ∷ k) in
      let text = emit_arguments (present a xs) after in
      let follows = Follows-emit (present a xs) nest k in
      rw (
        read_name i (emit_package is text) e (Stops-emit_package is text follows),
        parse_package_lem is f i.text text e (omega arith) follows,
        reads f after e (omega arith),
      )

-- A nested class, once its arguments are read; `parseTypeArguments` decides by what follows.
pub parse_nested :
    (i : Identifier) (xs : Arguments) (nest : Suffixes)
    → ReadsArguments xs
    → (f : ℕ) (k : Str) (e : List ParseError) → suc (cost_arguments xs) ≤ f
    → let after = emit_suffixes nest (b';' ∷ k) in
      parse_simple_class_type_signature f true (at (i.text ++ emit_arguments xs after) e)
      ≡ ok (simple_class i.text true (arguments_node xs), at after e)
unfolding parse_simple_class_type_signature arguments_node emit_arguments cost_arguments
parse_nested i xs nest reads zero k e h = absurd (omega arith)
parse_nested i absent closed reads (suc f) k e h =
    rw (read_name i (b';' ∷ k) e (Stops-emit absent closed k))
parse_nested i absent (nested true j ys rest) reads (suc f) k e h =
    let nest = nested true j ys rest in
    rw (read_name i (emit_suffixes nest (b';' ∷ k)) e (Stops-emit absent nest k))
parse_nested i absent (nested false j ys rest) reads (suc f) k e h =
    let nest = nested false j ys rest in
    rw (read_name i (emit_suffixes nest (b';' ∷ k)) e (Stops-emit absent nest k))
parse_nested i (present a xs) nest reads (suc f) k e h =
    let after = emit_suffixes nest (b';' ∷ k) in
    rw (
      read_name i (emit_arguments (present a xs) after) e (Stops-emit (present a xs) nest k),
      reads f after e (omega arith),
    )
