-- ===== src/Signature/Names.antt =====
-- How `parseIdentifier` and the package loop read the names of a spelled signature.
use tarracsh.Prelude.{
  ℕ, zero, suc, ◌<◌, ◌≡◌, refl, true, false, List, [], ◌∷◌, ◌++◌, ◌==◌, length, arith, All,
}
use tarracsh.Outcome.{ok}
use tarracsh.Signature.Nodes.{Str}
use tarracsh.Signature.Cursor.{at, ParseError, ends_identifier, take_identifier, parse_identifier}
use tarracsh.Signature.Parser.{parse_package}
use tarracsh.Signature.Grammar.{
  Identifier, Arguments, absent, present, Suffixes, closed, nested, emit_package, emit_arguments,
  emit_suffixes, dotted,
}

-- No character of a name ends it.
pub unreserved : (i : Identifier) → All (λ c. ends_identifier c ≡ false) i.text
unfolding ends_identifier
unreserved i = i.valid

-- The text goes on with a character that ends a name.
abbrev pub Stops : Str → Type 0
Stops [] = ⊥
Stops (c ∷ k) = ends_identifier c ≡ true

-- It goes on as a class name may: by arguments, a nested class or the end.
abbrev Follows : Str → Type 0
Follows [] = ⊥
Follows (c ∷ k) = (ends_identifier c ≡ true) × ((c == b'/') ≡ false)

take_identifier_lem :
    (id k : Str) (e : List ParseError)
    → All (λ c. ends_identifier c ≡ false) id
    → Stops k
    → take_identifier (id ++ k) e ≡ (id, at k e)
unfolding take_identifier
take_identifier_lem [] [] e v s = absurd s
take_identifier_lem [] (c ∷ k) e v s = rw s
take_identifier_lem (c ∷ id) k e v s = rw (v.0, take_identifier_lem id k e v.1 s)

-- A name is read, up to what follows it.
pub read_name :
    (i : Identifier) (k : Str) (e : List ParseError)
    → Stops k
    → take_identifier (i.text ++ k) e ≡ (i.text, at k e)
read_name i k e s = take_identifier_lem i.text k e (unreserved i) s

-- `parse_identifier` reads a name.
read_identifier :
    (i : Identifier) (k : Str) (e : List ParseError)
    → Stops k
    → parse_identifier (at (i.text ++ k) e) ≡ (i.text, at k e)
unfolding parse_identifier
read_identifier i k e s = take_identifier_lem i.text k e (unreserved i) s

pub Stops-emit_package : (is : List Identifier) (k : Str) → Follows k → Stops (emit_package is k)
unfolding ends_identifier
Stops-emit_package [] [] s = s
Stops-emit_package [] (c ∷ k) s = s.0
Stops-emit_package (i ∷ is) k s = refl

pub Follows-emit :
    (args : Arguments) (nest : Suffixes) (k : Str)
    → Follows (emit_arguments args (emit_suffixes nest (b';' ∷ k)))
unfolding emit_arguments ends_identifier
Follows-emit absent closed k = (refl, refl)
Follows-emit absent (nested true i args rest) k = (refl, refl)
Follows-emit absent (nested false i args rest) k = (refl, refl)
Follows-emit (present a xs) nest k = (refl, refl)

pub Stops-emit :
    (args : Arguments) (nest : Suffixes) (k : Str)
    → Stops (emit_arguments args (emit_suffixes nest (b';' ∷ k)))
unfolding emit_arguments ends_identifier
Stops-emit absent closed k = refl
Stops-emit absent (nested true i args rest) k = refl
Stops-emit absent (nested false i args rest) k = refl
Stops-emit (present a xs) nest k = refl

pub parse_package_lem :
    (is : List Identifier) (f : ℕ) (id k : Str) (e : List ParseError)
    → length is < f
    → Follows k
    → parse_package f id (at (emit_package is k) e) ≡ ok (dotted id is, at k e)
unfolding parse_package
parse_package_lem is zero id k e h s = absurd (omega arith)
parse_package_lem [] (suc f) id [] e h s = absurd s
parse_package_lem [] (suc f) id (c ∷ k) e h s = rw s.1
parse_package_lem (i ∷ is) (suc f) id k e h s =
    rw (read_identifier i (emit_package is k) e (Stops-emit_package is k s))
      (parse_package_lem is f (id ++ b'.' ∷ i.text) k e (omega arith) s)
