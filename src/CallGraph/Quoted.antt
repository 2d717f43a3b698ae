-- ===== src/CallGraph/Quoted.antt =====
-- Labels in the GML file of src/app/commands/callgraph/CallGraphExporter.cpp.
use tarracsh.Prelude.{
  Bool, ℕ, ◌==◌, ◌≡◌, refl, ap, true, false, Option, none, some, [], ◌∷◌, ◌++◌, Bool-cases, inl,
  inr, if◌then◌else◌, arith,
}
use tarracsh.ClassFile.Pool.{Bytes}
use tarracsh.CallGraph.Output.{quote, backslash, escape_for_gml}

abbrev pub ahead : ℕ → Option (Bytes × Bytes) → Option (Bytes × Bytes)
ahead c none = none
ahead c (some (text, rest)) = some (c ∷ text, rest)

-- A reader of a quoted text, behind its first quote: up to the next quote that no backslash
-- escapes, and what follows.
pub read_quoted : Bool → Bytes → Option (Bytes × Bytes)
read_quoted escaped [] = none
read_quoted true (c ∷ bytes) = ahead c (read_quoted false bytes)
read_quoted false (c ∷ bytes) =
    let next = read_quoted true bytes in
    let more = ahead c (read_quoted false bytes) in
    if c == quote then some ([], bytes) else if c == backslash then next else more

quote_lem : (c : ℕ) → (c == quote) ≡ true → c ≡ quote
quote_lem c h = ground (arith, h)

backslash_lem : (c : ℕ) → (c == backslash) ≡ true → c ≡ backslash
backslash_lem c h = ground (arith, h)

-- A label is read back from its place in the file, whatever it holds and whatever follows.
pub read_quoted-escape_for_gml :
    (value rest : Bytes)
    → read_quoted false (escape_for_gml value ++ (quote ∷ rest)) ≡ some (value, rest)
unfolding escape_for_gml read_quoted
read_quoted-escape_for_gml [] rest = refl
read_quoted-escape_for_gml (c ∷ value) rest = elim (Bool-cases (c == quote)) [
  | inl q ↦ rw (q, quote_lem c q) (ap (ahead quote) (read_quoted-escape_for_gml value rest))
  | inr q ↦ elim (Bool-cases (c == backslash)) [
    | inl b ↦
        rw (q, b, backslash_lem c b) (ap (ahead backslash) (read_quoted-escape_for_gml value rest))
    | inr b ↦ rw (q, b, q, b) (ap (ahead c) (read_quoted-escape_for_gml value rest))
  ]
]
