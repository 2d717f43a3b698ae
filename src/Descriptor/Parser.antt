-- ===== src/Descriptor/Parser.antt =====
-- src/domain/classfile/DescriptorParser.h, MethodDescriptorParser.h and types/DescriptorTypes.h.
-- Each round of a loop costs a unit of fuel.
use tarracsh.Prelude.{
  ℕ, zero, suc, ◌+◌, Bool, true, false, not, ◌||◌, ◌&&◌, List, [], ◌∷◌, ◌++◌, ◌==◌, if◌then◌else◌,
  codes,
}
use tarracsh.Outcome.{Outcome, ok, fault, out_of_fuel, ◌>>=◌}
use tarracsh.Descriptor.Scanner.{Str, Scanner, make, get_next_char, step, current_char}

-- `struct Descriptor`; `dimensions` counts characters of one text, so an int does not overflow.
pub record Descriptor : Type 0 where
  pub is_array : Bool
  pub is_class : Bool
  pub dimensions : ℕ
  pub type : Str

abbrev pub no_descriptor : Descriptor
no_descriptor = record { is_array = false; is_class = false; dimensions = 0; type = [] }

abbrev pub brackets : ℕ → Str
brackets zero = []
brackets (suc n) = b'[' ∷ b']' ∷ brackets n

-- `Descriptor::toString`
unfoldable pub to_string : Descriptor → Str
to_string d = d.type ++ brackets d.dimensions

-- `struct MethodDescriptor`
pub record MethodDescriptor : Type 0 where
  pub arguments : List Descriptor
  pub return_type : Descriptor

-- The loop of `argumentsToString` after its first round.
unfoldable pub more_arguments_to_string : List Descriptor → Str
unfolding to_string
more_arguments_to_string [] = []
more_arguments_to_string (d ∷ ds) = b',' ∷ b' ' ∷ (to_string d ++ more_arguments_to_string ds)

-- `MethodDescriptor::argumentsToString`
unfoldable pub arguments_to_string : List Descriptor → Str
unfolding more_arguments_to_string to_string
arguments_to_string [] = b'(' ∷ b')' ∷ []
arguments_to_string (d ∷ ds) = b'(' ∷ (to_string d ++ (more_arguments_to_string ds ++ b')' ∷ []))

abbrev pub slash_to_dot : ℕ → ℕ
slash_to_dot c = if c == b'/' then b'.' else c

-- The loop of `getFQClassname`, from its first `getNextChar`; the argument is `_descriptor.type`.
unfoldable pub get_fq_classname : ℕ → Str → Scanner → Outcome (Str × Scanner)
unfolding get_next_char
get_fq_classname zero type s = out_of_fuel
get_fq_classname (suc f) type s =
    let (c, s') = get_next_char s in
    let more = get_fq_classname f (type ++ slash_to_dot c ∷ []) s' in
    if c == b';' then ok (type, s') else more

-- The characters at which the switch of `DescriptorParser::parse` only breaks.
unfoldable pub is_skipped : ℕ → Bool
is_skipped c =
    c == b'(' || c == b')' || c == b'/' || c == b'.' || c == b'E' || c == b'<' || c == b'>'

-- The names that the switch gives to the letters of primitive types, else the whole signature.
unfoldable pub type_name : ℕ → Str → Str
type_name c whole =
    if c == b'B'
    then codes "byte"
    else if c == b'C'
    then codes "char"
    else if c == b'F'
    then codes "float"
    else if c == b'Z'
    then codes "boolean"
    else if c == b'D'
    then codes "double"
    else if c == b'I'
    then codes "int"
    else if c == b'J'
    then codes "long"
    else if c == b'S'
    then codes "short"
    else if c == b'V'
    then codes "void"
    else whole

-- The switch of `DescriptorParser::parse`.
unfoldable pub parse_character : ℕ → ℕ → Descriptor → Scanner → Outcome (Descriptor × Scanner)
unfolding is_skipped type_name
parse_character f c d s =
    if c == b'['
    then ok (record d { is_array = true; dimensions = d.dimensions + 1 }, s)
    else if c == b'L'
    then (get_fq_classname f d.type s >>= λ (type, s').
        ok (record d { is_class = true; type = type }, s'))
    else if is_skipped c
    then ok (d, s)
    else ok (record d { type = type_name c s.signature_string }, s)

abbrev pub is_empty : Str → Bool
is_empty [] = true
is_empty (c ∷ s) = false

-- The loop of `DescriptorParser::parse` at `character`.
unfoldable pub parse_loop : ℕ → ℕ → Descriptor → Scanner → Outcome (Descriptor × Scanner)
unfolding get_next_char
parse_loop zero c d s = out_of_fuel
parse_loop (suc f) c d s =
    let round =
      (parse_character f c d s >>= λ (d', s').
      let (c', s'') = get_next_char s' in parse_loop f c' d' s'') in
    if not (c == 0) && is_empty d.type && not (c == b')') then round else ok (d, s)

-- `DescriptorParser(scanner)`
unfoldable pub parse_with : ℕ → Scanner → Outcome (Descriptor × Scanner)
unfolding current_char
parse_with f s = current_char s >>= λ c. parse_loop f c no_descriptor s

-- `DescriptorParser(value)`
unfoldable pub parse_descriptor : ℕ → Str → Outcome Descriptor
unfolding make step
parse_descriptor f value = parse_with f (step (make value)) >>= λ (d, s). ok d

-- The loop of `parseParameters`.
unfoldable pub parse_arguments : ℕ → List Descriptor → Scanner → Outcome (List Descriptor × Scanner)
unfolding current_char
parse_arguments zero args s = out_of_fuel
parse_arguments (suc f) args s =
    let more = (parse_with f s >>= λ (d, s'). parse_arguments f (args ++ d ∷ []) s') in
    current_char s >>= λ c. if c == b')' then ok (args, s) else more

-- `parseParameters` and `parseReturnType`, as the loop of `MethodDescriptorParser::parse` calls
-- them; a character other than `(` fails an assertion.
unfoldable pub parse_parts : ℕ → MethodDescriptor → Scanner → Outcome (MethodDescriptor × Scanner)
unfolding step
parse_parts f m s = parse_arguments f m.arguments (step s) >>= λ (args, s').
    parse_with f (step s') >>= λ (ret, s'').
    ok (record { arguments = args; return_type = ret }, s'')

-- `MethodDescriptorParser::parse`, from its `getNextChar`.
unfoldable pub parse_method : ℕ → MethodDescriptor → Scanner → Outcome MethodDescriptor
unfolding get_next_char
parse_method zero m s = out_of_fuel
parse_method (suc f) m s =
    let (c, s') = get_next_char s in
    let round = (parse_parts f m s' >>= λ (m', s''). parse_method f m' s'') in
    if c == 0 then ok m else if c == b'(' then round else fault

-- `MethodDescriptorParser(descriptorString).getDescriptor()`
unfoldable pub parse_method_descriptor : ℕ → Str → Outcome MethodDescriptor
unfolding make
parse_method_descriptor f text =
    parse_method f (record { arguments = []; return_type = no_descriptor }) (make text)
