-- ===== src/Signature/Parser.antt =====
-- The recursive descent of Parser.cpp. A call or a round of a loop costs a unit of fuel; messages of
-- exceptions are left out.
use tarracsh.Prelude.{ℕ, zero, suc, Bool, true, false, ◌∷◌, ◌++◌, ◌||◌, ◌==◌, if◌then◌else◌, codes}
use tarracsh.Outcome.{ok, threw, out_of_fuel, ◌>>=◌}
use tarracsh.Signature.Nodes.{
  Str, BaseType, byte_signature, char_signature, int_signature, short_signature, long_signature,
  double_signature, float_signature, boolean_signature, FieldTypeSignature, class_type, simple,
  array, type_variable, bottom, TypeSignature, base, field_type, SimpleClassTypeSignature,
  simple_class, ClassPath, path_end, path_cons, TypeArgument, type_arg, wildcard, TypeArguments,
  no_args, arg_cons,
}
use tarracsh.Signature.Cursor.{
  current, advance, Parser, pure, raise, peek, next, chain, expect, parse_identifier,
}

-- `parseBaseType`
unfoldable pub parse_base_type : Parser BaseType
unfolding current advance
parse_base_type = peek λ c.
    if c == b'B'
    then next (pure byte_signature)
    else if c == b'C'
    then next (pure char_signature)
    else if c == b'D'
    then next (pure double_signature)
    else if c == b'F'
    then next (pure float_signature)
    else if c == b'I'
    then next (pure int_signature)
    else if c == b'J'
    then next (pure long_signature)
    else if c == b'S'
    then next (pure short_signature)
    else if c == b'Z'
    then next (pure boolean_signature)
    else raise

-- The cases of `parseTypeSignature` that it hands to `parseBaseType`.
unfoldable pub starts_base_type : ℕ → Bool
starts_base_type c =
    c == b'B'
    || c == b'C'
    || c == b'D'
    || c == b'F'
    || c == b'I'
    || c == b'J'
    || c == b'S'
    || c == b'Z'

-- `SimpleClassTypeSignature::make("java.lang.Object", false, typeArguments)`
abbrev pub object_signature : FieldTypeSignature
object_signature = simple (simple_class (codes "java.lang.Object") false no_args)

-- The inner loop of `parsePackageNameAndSimpleClassTypeSignature`: each `/` becomes a `.`.
unfoldable pub parse_package : ℕ → Str → Parser Str
unfolding current advance parse_identifier
parse_package zero id c = out_of_fuel
parse_package (suc f) id c =
    let more =
      (let (segment, c') = parse_identifier (advance c) in
        parse_package f (id ++ b'.' ∷ segment) c') in
    current c >>= λ ch. if ch == b'/' then more else ok (id, c)

-- `parseTypeVariableSignature`
unfoldable pub parse_type_variable_signature : Parser FieldTypeSignature
unfolding expect parse_identifier
parse_type_variable_signature =
    expect b'T' λ c. let (id, c') = parse_identifier c in expect b';' (pure (type_variable id)) c'

unfoldable mutual
  unfolding current advance expect parse_identifier parse_package parse_base_type starts_base_type
      parse_type_variable_signature

  pub parse_type_signature : ℕ → Parser TypeSignature
  parse_type_signature zero c = out_of_fuel
  parse_type_signature (suc f) c =
      let field = chain (parse_field_type_signature f true) (λ t. pure (field_type t)) c in
      current c >>= λ ch.
      if starts_base_type ch then chain parse_base_type (λ b. pure (base b)) c else field

  -- The argument is `allowArrays`.
  pub parse_field_type_signature : ℕ → Bool → Parser FieldTypeSignature
  parse_field_type_signature zero allow_arrays c = out_of_fuel
  parse_field_type_signature (suc f) allow_arrays c =
      let class = chain (parse_class_type_signature f) (λ p. pure (class_type p)) c in
      let component = chain (parse_type_signature f) (λ t. pure (array t)) (advance c) in
      current c >>= λ ch.
      if ch == b'L'
      then class
      else if ch == b'T'
      then parse_type_variable_signature c
      else if ch == b'['
      then (if allow_arrays then component else threw)
      else threw

  pub parse_class_type_signature : ℕ → Parser ClassPath
  parse_class_type_signature zero c = out_of_fuel
  parse_class_type_signature (suc f) c =
      let body = chain (parse_package_name_and_simple_class_type_signature f) (λ head.
        chain (parse_class_type_signature_suffix f)
          (λ suffix. expect b';' (pure (path_cons head suffix)))) in
      expect b'L' body c

  pub parse_package_name_and_simple_class_type_signature : ℕ → Parser SimpleClassTypeSignature
  parse_package_name_and_simple_class_type_signature zero c = out_of_fuel
  parse_package_name_and_simple_class_type_signature (suc f) c =
      let (first, c') = parse_identifier c in
      chain (parse_package f first)
        (λ id c''.
          let args = chain (parse_type_arguments f) (λ a. pure (simple_class id false a)) c'' in
          current c'' >>= λ ch.
          if ch == b';'
          then ok (simple_class id false no_args, c'')
          else if ch == b'<'
          then args
          else if ch == b'.' || ch == b'$'
          then ok (simple_class id false no_args, c'')
          else threw)
        c'

  -- The loop of `parseClassTypeSignatureSuffix`.
  pub parse_class_type_signature_suffix : ℕ → Parser ClassPath
  parse_class_type_signature_suffix zero c = out_of_fuel
  parse_class_type_signature_suffix (suc f) c =
      let more =
        chain (parse_simple_class_type_signature f true)
          (λ s. chain (parse_class_type_signature_suffix f) (λ p. pure (path_cons s p)))
          (advance c) in
      current c >>= λ ch. if ch == b'.' || ch == b'$' then more else ok (path_end, c)

  -- The argument is `dollar`.
  pub parse_simple_class_type_signature : ℕ → Bool → Parser SimpleClassTypeSignature
  parse_simple_class_type_signature zero dollar c = out_of_fuel
  parse_simple_class_type_signature (suc f) dollar c =
      let (id, c') = parse_identifier c in
      let args = chain (parse_type_arguments f) (λ a. pure (simple_class id dollar a)) c' in
      current c' >>= λ ch.
      if ch == b';' || ch == b'.' || ch == b'$'
      then ok (simple_class id dollar no_args, c')
      else if ch == b'<'
      then args
      else threw

  pub parse_type_arguments : ℕ → Parser TypeArguments
  parse_type_arguments zero c = out_of_fuel
  parse_type_arguments (suc f) c =
      let body =
        chain (parse_type_argument f)
          (λ a. chain (parse_more_type_arguments f) (λ r. pure (arg_cons a r))) in
      expect b'<' body c

  -- The loop of `parseTypeArguments`, with the `advance()` that follows it.
  pub parse_more_type_arguments : ℕ → Parser TypeArguments
  parse_more_type_arguments zero c = out_of_fuel
  parse_more_type_arguments (suc f) c =
      let more =
        chain (parse_type_argument f)
          (λ a. chain (parse_more_type_arguments f) (λ r. pure (arg_cons a r))) c in
      current c >>= λ ch. if ch == b'>' then ok (no_args, advance c) else more

  pub parse_type_argument : ℕ → Parser TypeArgument
  parse_type_argument zero c = out_of_fuel
  parse_type_argument (suc f) c =
      let field = parse_field_type_signature f true in
      current c >>= λ ch.
      if ch == b'+'
      then chain field (λ t. pure (wildcard t bottom)) (advance c)
      else if ch == b'*'
      then ok (wildcard object_signature bottom, advance c)
      else if ch == b'-'
      then chain field (λ t. pure (wildcard object_signature t)) (advance c)
      else chain field (λ t. pure (type_arg t)) c
