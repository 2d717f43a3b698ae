-- ===== src/Signature/Declarations.antt =====
-- The rules of Parser.cpp for whole class and method signatures, over those for types, and the three
-- entry points, which start a fresh parse.
use tarracsh.Prelude.{ℕ, zero, suc, Bool, true, false, List, [], ◌∷◌, ◌||◌, ◌==◌, if◌then◌else◌}
use tarracsh.Outcome.{Outcome, ok, out_of_fuel, ◌>>=◌}
use tarracsh.Signature.Nodes.{
  Str, FieldTypeSignature, TypeSignature, ClassPath, ReturnType, void_descriptor, returns,
  FormalTypeParameter, ClassSignature, MethodTypeSignature,
}
use tarracsh.Signature.Cursor.{
  Cursor, at, bound_expected, current, advance, emplace_error, progress, Parser, pure, peek, next,
  chain, expect, parse_identifier,
}
use tarracsh.Signature.Parser.{
  parse_type_signature, parse_field_type_signature, parse_class_type_signature,
}

-- The loop over interface bounds in `parseBounds`.
unfoldable pub parse_interface_bounds : ℕ → Parser (List FieldTypeSignature)
unfolding current advance
parse_interface_bounds zero c = out_of_fuel
parse_interface_bounds (suc f) c =
    let more =
      chain (parse_field_type_signature f true)
        (λ t. chain (parse_interface_bounds f) (λ ts. pure (t ∷ ts))) (advance c) in
    current c >>= λ ch. if ch == b':' then more else ok ([], c)

-- `parseBounds`
unfoldable pub parse_bounds : ℕ → Parser (List FieldTypeSignature)
unfolding current advance emplace_error parse_interface_bounds
parse_bounds f c = current c >>= λ ch.
    if ch == b':'
    then (current (advance c) >>= λ ch'.
        if ch' == b':'
        then parse_interface_bounds f (advance c)
        else chain (parse_field_type_signature f true)
            (λ t. chain (parse_interface_bounds f) (λ ts. pure (t ∷ ts))) (advance c))
    else ok ([], emplace_error bound_expected c)

-- `parseFormalTypeParameter`
unfoldable pub parse_formal_type_parameter : ℕ → Parser FormalTypeParameter
unfolding parse_identifier parse_bounds
parse_formal_type_parameter f c =
    let (id, c') = parse_identifier c in
    chain (parse_bounds f) (λ bs. pure (record { name = id; bounds = bs })) c'

-- The loop of `parseFormalTypeParameters`, with the `advance()` that follows it. A round that reads
-- nothing is recorded as an error, and does not end the loop.
unfoldable pub parse_more_formal_type_parameters : ℕ → Parser (List FormalTypeParameter)
unfolding current advance
parse_more_formal_type_parameters zero c = out_of_fuel
parse_more_formal_type_parameters (suc f) c =
    let more =
      chain (parse_formal_type_parameter f)
        (λ p c'. chain (parse_more_formal_type_parameters f) (λ ps. pure (p ∷ ps)) (progress c c'))
        c in
    current c >>= λ ch. if ch == b'>' then ok ([], advance c) else more

-- `parseFormalTypeParameters`
unfoldable pub parse_formal_type_parameters : ℕ → Parser (List FormalTypeParameter)
unfolding expect parse_formal_type_parameter parse_more_formal_type_parameters
parse_formal_type_parameters f = expect b'<' (
    chain (parse_formal_type_parameter f)
      (λ p. chain (parse_more_formal_type_parameters f) (λ ps. pure (p ∷ ps))))

-- `parseZeroOrMoreFormalTypeParameters`
unfoldable pub parse_zero_or_more_formal_type_parameters : ℕ → Parser (List FormalTypeParameter)
unfolding current parse_formal_type_parameters
parse_zero_or_more_formal_type_parameters f =
    peek (λ ch. if ch == b'<' then parse_formal_type_parameters f else pure [])

-- `parseSuperInterfaces`
unfoldable pub parse_super_interfaces : ℕ → Parser (List ClassPath)
unfolding current
parse_super_interfaces zero c = out_of_fuel
parse_super_interfaces (suc f) c =
    let more =
      chain (parse_class_type_signature f)
        (λ p. chain (parse_super_interfaces f) (λ ps. pure (p ∷ ps))) c in
    current c >>= λ ch. if ch == b'L' then more else ok ([], c)

-- `parseClassSignature`
unfoldable pub parse_class_signature : ℕ → Parser ClassSignature
parse_class_signature f = chain (parse_zero_or_more_formal_type_parameters f) (λ fs.
    chain (parse_class_type_signature f) (λ super. chain (parse_super_interfaces f) (λ interfaces.
      pure
        (record { formal_type_params = fs; superclass = super; super_interfaces = interfaces }))))

-- The characters at which `parseZeroOrMoreTypeSignatures` goes on.
unfoldable pub starts_type : ℕ → Bool
starts_type c =
    c == b'B'
    || c == b'C'
    || c == b'D'
    || c == b'F'
    || c == b'I'
    || c == b'J'
    || c == b'S'
    || c == b'Z'
    || c == b'L'
    || c == b'T'
    || c == b'['

-- `parseZeroOrMoreTypeSignatures`
unfoldable pub parse_zero_or_more_type_signatures : ℕ → Parser (List TypeSignature)
unfolding current starts_type
parse_zero_or_more_type_signatures zero c = out_of_fuel
parse_zero_or_more_type_signatures (suc f) c =
    let more =
      chain (parse_type_signature f)
        (λ t. chain (parse_zero_or_more_type_signatures f) (λ ts. pure (t ∷ ts))) c in
    current c >>= λ ch. if starts_type ch then more else ok ([], c)

-- `parseFormalParameters`
unfoldable pub parse_formal_parameters : ℕ → Parser (List TypeSignature)
unfolding expect
parse_formal_parameters f =
    expect b'(' (chain (parse_zero_or_more_type_signatures f) (λ ts. expect b')' (pure ts)))

-- `parseReturnType`
unfoldable pub parse_return_type : ℕ → Parser ReturnType
unfolding current advance
parse_return_type f = peek λ ch.
    if ch == b'V'
    then next (pure void_descriptor)
    else chain (parse_type_signature f) (λ t. pure (returns t))

-- `parseThrowsSignature`
unfoldable pub parse_throws_signature : ℕ → Parser FieldTypeSignature
unfolding expect
parse_throws_signature f = expect b'^' (parse_field_type_signature f false)

-- `parseZeroOrMoreThrowsSignatures`
unfoldable pub parse_zero_or_more_throws_signatures : ℕ → Parser (List FieldTypeSignature)
unfolding current
parse_zero_or_more_throws_signatures zero c = out_of_fuel
parse_zero_or_more_throws_signatures (suc f) c =
    let more =
      chain (parse_throws_signature f)
        (λ t. chain (parse_zero_or_more_throws_signatures f) (λ ts. pure (t ∷ ts))) c in
    current c >>= λ ch. if ch == b'^' then more else ok ([], c)

-- `parseMethodTypeSignature`; its assertion `_position == 0` holds at the entry point below.
unfoldable pub parse_method_type_signature : ℕ → Parser MethodTypeSignature
parse_method_type_signature f = chain (parse_zero_or_more_formal_type_parameters f) (λ fs.
    chain (parse_formal_parameters f) (λ params. chain (parse_return_type f) (λ ret.
      chain (parse_zero_or_more_throws_signatures f) (λ thrown. pure (record {
        formal_type_params = fs;
        parameter_types = params;
        return_type = ret;
        exception_types = thrown;
      })))))

-- `_input = signature; _position = 0; _errors.clear()`
abbrev pub start : Str → Cursor
start signature = at signature []

-- `parseClassSig`; what is left of the input is not looked at.
unfoldable pub parse_class_sig : ℕ → Str → Outcome (ClassSignature × Cursor)
parse_class_sig f signature = parse_class_signature f (start signature)

-- `parseMethodSig`
unfoldable pub parse_method_sig : ℕ → Str → Outcome (MethodTypeSignature × Cursor)
parse_method_sig f signature = parse_method_type_signature f (start signature)

-- `parseTypeSig`
unfoldable pub parse_type_sig : ℕ → Str → Outcome (TypeSignature × Cursor)
parse_type_sig f signature = parse_type_signature f (start signature)
