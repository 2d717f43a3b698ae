-- ===== src/Signature/Cursor.antt =====
-- `Parser`'s state: `_input` with `_position`, and `_errors`.
use tarracsh.Prelude.{ℕ, suc, Bool, List, [], ◌∷◌, ◌||◌, ◌==◌, leb, if◌then◌else◌, length}
use tarracsh.Outcome.{Outcome, ok, threw, fault, ◌>>=◌}
use tarracsh.Signature.Nodes.{Str}

-- The texts that the parser adds to `_errors`.
pub data ParseError : Type 0 where
  failure_to_make_progress bound_expected : ParseError

-- `_position` only grows, by one at a time, so what is left of the input stands for it: in
-- `at rest errors` it is inside the input or at its end (`rest` empty); `past errors` is any
-- position beyond the end. A uint64_t cannot wrap before the input's end.
pub data Cursor : Type 0 where
  at : Str → List ParseError → Cursor
  past : List ParseError → Cursor

-- `_input[_position]`. At the end a std::string gives its terminator; beyond, the behaviour is
-- undefined: `operator[]` does not throw, so the handler that returns `endOfInput()` never runs.
unfoldable pub current : Cursor → Outcome ℕ
current (at [] errors) = ok 0
current (at (c ∷ rest) errors) = ok c
current (past errors) = fault

-- `_position++`
unfoldable pub advance : Cursor → Cursor
advance (at [] errors) = past errors
advance (at (c ∷ rest) errors) = at rest errors
advance (past errors) = past errors

-- `_errors.emplace_back`
unfoldable pub emplace_error : ParseError → Cursor → Cursor
emplace_error e (at rest errors) = at rest (e ∷ errors)
emplace_error e (past errors) = past (e ∷ errors)

-- What is left to read, the terminator counted: the smaller this is, the larger is `_position`.
unfoldable pub measure : Cursor → ℕ
measure (at rest errors) = suc (length rest)
measure (past errors) = 0

-- `progress(startingPosition)`: `_position <= startingPosition`.
unfoldable pub progress : Cursor → Cursor → Cursor
unfolding measure emplace_error
progress start now =
    if leb (measure start) (measure now) then emplace_error failure_to_make_progress now else now

abbrev pub Parser : Type 0 → Type 0
Parser A = Cursor → Outcome (A × Cursor)

abbrev pub pure : {A : Type 0} → A → Parser A
pure a c = ok (a, c)

abbrev pub raise : {A : Type 0} → Parser A
raise c = threw

abbrev pub peek : {A : Type 0} → (ℕ → Parser A) → Parser A
peek k c = current c >>= λ ch. k ch c

-- `advance();` and what follows it.
abbrev pub next : {A : Type 0} → Parser A → Parser A
next k c = k (advance c)

abbrev pub chain : {A B : Type 0} → Parser A → (A → Parser B) → Parser B
chain p k c = p c >>= λ (a, c'). k a c'

-- `if (current() != ch) throw ...; advance();`
unfoldable pub expect : {A : Type 0} → ℕ → Parser A → Parser A
unfolding current advance
expect ch k c = current c >>= λ x. if x == ch then k (advance c) else threw

-- The characters that end an identifier.
unfoldable pub ends_identifier : ℕ → Bool
ends_identifier c =
    c == b';'
    || c == b'.'
    || c == b'$'
    || c == b'/'
    || c == b'['
    || c == b':'
    || c == b'>'
    || c == b'<'

-- `parseIdentifier`. `isEof()` holds only beyond the end, so at the end the terminator is taken for
-- a character of the name.
unfoldable pub take_identifier : Str → List ParseError → Str × Cursor
unfolding ends_identifier
take_identifier [] errors = (0 ∷ [], past errors)
take_identifier (c ∷ rest) errors =
    if ends_identifier c
    then ([], at (c ∷ rest) errors)
    else let (name, now) = take_identifier rest errors in (c ∷ name, now)

unfoldable pub parse_identifier : Cursor → Str × Cursor
unfolding take_identifier
parse_identifier (at rest errors) = take_identifier rest errors
parse_identifier (past errors) = ([], past errors)
