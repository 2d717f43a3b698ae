-- ===== src/Signature/Hazards.antt =====
-- On texts outside the grammar.
use tarracsh.Prelude.{
  ℕ, zero, suc, ◌+◌, ◌<◌, ◌≡◌, ◌≢◌, refl, true, false, List, [], ◌∷◌, ◌++◌, ◌==◌, length, arith,
  All,
}
use tarracsh.Outcome.{ok, fault, out_of_fuel}
use tarracsh.Signature.Nodes.{Str}
use tarracsh.Signature.Cursor.{
  at, past, ParseError, failure_to_make_progress, bound_expected, ends_identifier, take_identifier,
  progress, measure,
}
use tarracsh.Signature.Parser.{parse_type_signature}
use tarracsh.Signature.Declarations.{
  parse_formal_type_parameter, parse_more_formal_type_parameters, parse_class_sig, parse_method_sig,
  parse_class_signature, parse_method_type_signature, parse_zero_or_more_formal_type_parameters,
  parse_type_sig,
}
use tarracsh.Signature.Grammar.{Identifier}
use tarracsh.Signature.Names.{read_name, unreserved}
use tarracsh.Signature.Total.{type-Further}
use tarracsh.Outcome.{not_out_of_fuel}
use tarracsh.Prelude.{◌*◌}
use tarracsh.Signature.Measure.{Further}

-- The character ends a name and starts neither its bounds nor the end of the parameters.
abbrev pub Blocks : ℕ → Type 0
Blocks x = (ends_identifier x ≡ true) × ((x == b':') ≡ false) × ((x == b'>') ≡ false)

-- A round of the loop at such a character reads nothing.
stuck_round :
    (f x : ℕ) (k : Str) (e : List ParseError)
    → Blocks x
    → parse_formal_type_parameter f (at (x ∷ k) e)
      ≡ ok (record { name = []; bounds = [] }, at (x ∷ k) (bound_expected ∷ e))
unfolding parse_formal_type_parameter
stuck_round f x k e b = rw (b.0, b.1)

progress_stuck :
    (k : Str) (e d : List ParseError)
    → progress (at k e) (at k d) ≡ at k (failure_to_make_progress ∷ d)
unfolding progress
progress_stuck k e d = ground arith

loop-out_of_fuel :
    (f x : ℕ) (k : Str) (e : List ParseError)
    → Blocks x
    → parse_more_formal_type_parameters f (at (x ∷ k) e) ≡ out_of_fuel
unfolding parse_more_formal_type_parameters
loop-out_of_fuel zero x k e b = refl
loop-out_of_fuel (suc f) x k e b = rw (
  b.2,
  stuck_round f x k e b,
  progress_stuck (x ∷ k) e (bound_expected ∷ e),
  loop-out_of_fuel f x k (failure_to_make_progress ∷ bound_expected ∷ e) b,
)

formals-out_of_fuel :
    (i : Identifier) (x : ℕ) (k : Str) (f : ℕ)
    → Blocks x
    → parse_zero_or_more_formal_type_parameters f (at (b'<' ∷ (i.text ++ x ∷ k)) []) ≡ out_of_fuel
unfolding parse_zero_or_more_formal_type_parameters
formals-out_of_fuel i x k f b =
    rw (read_name i (x ∷ k) [] b.0, b.1, loop-out_of_fuel f x k (bound_expected ∷ []) b)

-- A class or method signature whose first type parameter's name is followed by one of `;` `.` `$`
-- `/` `[` `<` makes the parser loop: however much fuel it is given, it runs out.
pub parse_sig-diverges :
    (i : Identifier) (x : ℕ) (k : Str) (f : ℕ)
    → Blocks x
    → (parse_class_sig f (b'<' ∷ (i.text ++ x ∷ k)) ≡ out_of_fuel)
      × (parse_method_sig f (b'<' ∷ (i.text ++ x ∷ k)) ≡ out_of_fuel)
unfolding parse_class_sig parse_method_sig parse_class_signature parse_method_type_signature
parse_sig-diverges i x k f b =
    (rw (formals-out_of_fuel i x k f b), rw (formals-out_of_fuel i x k f b))

-- A name that the input ends in is read beyond the end, with the terminator as its last character.
take_identifier_past :
    (id : Str) (e : List ParseError)
    → All (λ c. ends_identifier c ≡ false) id
    → take_identifier id e ≡ (id ++ 0 ∷ [], past e)
unfolding take_identifier
take_identifier_past [] e v = refl
take_identifier_past (c ∷ id) e v = rw (v.0, take_identifier_past id e v.1)

-- A class type or a type variable that is cut off within its first name makes the parser read
-- beyond the end of the input.
pub parse_type_sig-cut_off :
    (i : Identifier) (f : ℕ)
    → 4 < f
    → (parse_type_sig f (b'L' ∷ i.text) ≡ fault) × (parse_type_sig f (b'T' ∷ i.text) ≡ fault)
unfolding parse_type_sig parse_type_signature
parse_type_sig-cut_off i zero h = absurd (omega arith)
parse_type_sig-cut_off i (suc zero) h = absurd (omega arith)
parse_type_sig-cut_off i (suc (suc zero)) h = absurd (omega arith)
parse_type_sig-cut_off i (suc (suc (suc zero))) h = absurd (omega arith)
parse_type_sig-cut_off i (suc (suc (suc (suc zero)))) h = absurd (omega arith)
parse_type_sig-cut_off i (suc (suc (suc (suc (suc f))))) h =
    let e = take_identifier_past i.text [] (unreserved i) in (rw e, rw e)

-- A type signature of any text returns, throws or faults when the fuel, which bounds how deep calls
-- and rounds of loops nest, is more than four units for each character and six.
pub parse_type_sig-ends :
    (s : Str) (f : ℕ) → 4 * length s + 6 < f → parse_type_sig f s ≢ out_of_fuel
unfolding parse_type_sig measure
parse_type_sig-ends s f h =
    not_out_of_fuel (Further (at s [])) (parse_type_signature f (at s []))
      (type-Further f (at s []) (omega arith))
