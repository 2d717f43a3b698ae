-- ===== src/CallGraph/GmlSteps.antt =====
-- Lines that src/app/commands/callgraph/CallGraphExporter.cpp writes, and their reading.
use tarracsh.Prelude.{
  ℕ, ◌==◌, ◌≡◌, refl, sym, subst, true, false, some, [], ◌∷◌, ◌++◌, append_assoc, arith,
}
use tarracsh.ClassFile.Pool.{Bytes}
use tarracsh.CallGraph.Output.{line, quote, quoted, escape_for_gml}
use tarracsh.CallGraph.Quoted.{read_quoted, read_quoted-escape_for_gml}
use tarracsh.CallGraph.Gml.{Read, ◌>>=◌, ◌>>◌, pure, literal, text_line, quoted_line, number_line}

-- The reader takes the text for the value, whatever follows.
pub record Reads {A : Type 0} (p : Read A) (text : Bytes) (a : A) : Type 0 where
  pub read_back : (rest : Bytes) → p (text ++ rest) ≡ some (a, rest)

pub >>=-Reads :
    {A B : Type 0} (p : Read A) (k : A → Read B) (text more : Bytes) {a : A} {b : B}
    → Reads p text a
    → Reads (k a) more b
    → Reads (p >>= k) (text ++ more) b
>>=-Reads p k text more h h' = record {
  read_back =
      λ rest. rw (append_assoc text more rest, h.read_back (more ++ rest)) (h'.read_back rest);
}

-- The last of some steps.
pub pure-Reads :
    {A B : Type 0} (p : Read A) (f : A → B) (text : Bytes) {a : A}
    → Reads p text a
    → Reads (p >>= λ a. pure (f a)) text (f a)
pure-Reads p f text h = record { read_back = λ rest. rw (h.read_back rest) refl }

equal_self : (c : ℕ) → (c == c) ≡ true
equal_self c = ground arith

literal-append : (text rest : Bytes) → literal text (text ++ rest) ≡ some (tt, rest)
unfolding literal
literal-append [] rest = refl
literal-append (c ∷ text) rest = rw (equal_self c) (literal-append text rest)

pub literal-Reads : (text : Bytes) → Reads (literal text) text tt
literal-Reads text = record { read_back = literal-append text }

read_quoted-Reads :
    (value : Bytes) → Reads (read_quoted false) (escape_for_gml value ++ (quote ∷ [])) value
read_quoted-Reads value = record {
  read_back = λ rest.
      rw (append_assoc (escape_for_gml value) (quote ∷ []) rest)
        (read_quoted-escape_for_gml value rest);
}

pub quoted_line-Reads :
    (prefix value : Bytes)
    → Reads (quoted_line prefix) (line (prefix ++ quoted (escape_for_gml value))) value
unfolding quoted_line
quoted_line-Reads prefix value =
    subst (λ text. Reads (quoted_line prefix) text value)
      (sym (append_assoc prefix (quoted (escape_for_gml value)) (10 ∷ [])))
      (>>=-Reads _ _ prefix _ (literal-Reads prefix) (
        >>=-Reads _ _ (quote ∷ []) _ (literal-Reads (quote ∷ [])) (
          >>=-Reads _ _ (escape_for_gml value ++ (quote ∷ [])) _ (read_quoted-Reads value)
            (pure-Reads _ (λ u. value) _ (literal-Reads (10 ∷ []))))))

-- A text in which nothing is escaped.
pub plain_line-Reads :
    (prefix value : Bytes)
    → escape_for_gml value ≡ value
    → Reads (quoted_line prefix) (line (prefix ++ quoted value)) value
plain_line-Reads prefix value h =
    subst (λ text. Reads (quoted_line prefix) (line (prefix ++ quoted text)) value) h
      (quoted_line-Reads prefix value)

pub text_line-Reads : (text : Bytes) → Reads (text_line text) (line text) tt
text_line-Reads text = literal-Reads (line text)

-- How an int is read and how it is printed: a printed int that a line feed follows is read back.
module _ (read_number : Read ℕ) (number : ℕ → Bytes)
    (printed : (n : ℕ) (rest : Bytes)
      → read_number (number n ++ (10 ∷ rest)) ≡ some (n, 10 ∷ rest)) where
  number_end :
      (n : ℕ) → Reads (do n ← read_number; literal (10 ∷ []); pure n) (number n ++ (10 ∷ [])) n
  unfolding literal
  number_end n = record {
    read_back = λ rest. rw (append_assoc (number n) (10 ∷ []) rest, printed n rest) refl;
  }

  pub number_line-Reads :
      (prefix : Bytes) (n : ℕ)
      → Reads (number_line read_number prefix) (line (prefix ++ number n)) n
  unfolding number_line
  number_line-Reads prefix n =
      subst (λ text. Reads (number_line read_number prefix) text n)
        (sym (append_assoc prefix (number n) (10 ∷ [])))
        (>>=-Reads _ _ prefix _ (literal-Reads prefix) (number_end n))
