-- ===== src/CallGraph/Gml.antt =====
-- An independent reader of the GML file that src/app/commands/callgraph/CallGraphExporter.cpp writes.
use tarracsh.Prelude.{
  ℕ, zero, suc, ◌==◌, false, Option, none, some, List, [], ◌∷◌, codes, if◌then◌else◌,
}
use tarracsh.ClassFile.Pool.{Bytes}
use tarracsh.Digest.Class.{equal}
use tarracsh.CallGraph.Exporter.{NodeRecord, EdgeRecord, missing_color}
use tarracsh.CallGraph.Output.{line, quote}
use tarracsh.CallGraph.Quoted.{read_quoted}

abbrev pub Read : Type 0 → Type 0
Read A = Bytes → Option (A × Bytes)

abbrev pub follow : {A B : Type 0} → Option (A × Bytes) → (A → Read B) → Option (B × Bytes)
follow none k = none
follow (some (a, rest)) k = k a rest

infixl 5 ◌>>=◌
abbrev pub ◌>>=◌ : {A B : Type 0} → Read A → (A → Read B) → Read B
◌>>=◌ p k bytes = follow (p bytes) k

infixl 5 ◌>>◌
abbrev pub ◌>>◌ : {A B : Type 0} → Read A → Read B → Read B
p >> q = p >>= λ a. q

abbrev pub pure : {A : Type 0} → A → Read A
pure a bytes = some (a, bytes)

-- What follows the text.
unfoldable pub literal : Bytes → Read (Unit {0})
literal [] bytes = some (tt, bytes)
literal (c ∷ text) [] = none
literal (c ∷ text) (b ∷ bytes) = let rest = literal text bytes in if c == b then rest else none

abbrev pub text_line : Bytes → Read (Unit {0})
text_line text = literal (line text)

-- A line of a text in quotes, as it stands between them.
unfoldable pub quoted_line : Bytes → Read Bytes
quoted_line prefix = do
  literal prefix
  literal (quote ∷ [])
  text ← read_quoted false
  literal (10 ∷ [])
  pure text

abbrev pub either : {A : Type 0} → Option (A × Bytes) → Option (A × Bytes) → Option (A × Bytes)
either none other = other
either (some found) other = some found

-- The end of an edge's graphics, and whether a dashed pattern stands before it.
unfoldable pub read_style : Read Bytes
read_style bytes =
    either
      ((do
        text_line (codes "      pattern \"dashed\"")
        text_line (codes "    ]")
        pure (codes "dashed"))
        bytes)
      ((do text_line (codes "    ]"); pure (codes "solid")) bytes)

-- Entries as long as there are any.
abbrev pub entry_then :
    {A : Type 0}
    → Option (A × Bytes)
    → (Bytes → Option (List A × Bytes))
    → Bytes
    → Option (List A × Bytes)
entry_then none more bytes = some ([], bytes)
entry_then (some (a, rest)) more bytes = follow (more rest) (λ entries. pure (a ∷ entries))

unfoldable pub read_all : {A : Type 0} → ℕ → Read A → Read (List A)
read_all zero p bytes = none
read_all (suc fuel) p bytes = entry_then (p bytes) (read_all fuel p) bytes

-- The reading of an int is a parameter, as its printing is.
module _ (read_number : Read ℕ) where
  unfoldable pub number_line : Bytes → Read ℕ
  number_line prefix = do literal prefix; n ← read_number; literal (10 ∷ []); pure n

  unfoldable pub read_node : Read NodeRecord
  read_node = do
    text_line (codes "  node [")
    id ← number_line (codes "    id ")
    label ← quoted_line (codes "    label ")
    text_line (codes "    graphics [")
    fill ← quoted_line (codes "      fill ")
    text_line (codes "    ]")
    text_line (codes "  ]")
    pure (record { id = id; label = label; is_missing = equal fill missing_color })

  unfoldable pub read_edge : Read EdgeRecord
  read_edge = do
    text_line (codes "  edge [")
    from ← number_line (codes "    source ")
    to ← number_line (codes "    target ")
    label ← quoted_line (codes "    label ")
    text_line (codes "    graphics [")
    color ← quoted_line (codes "      fill ")
    style ← read_style
    text_line (codes "  ]")
    pure (record { from = from; to = to; label = label; color = color; style = style })

  -- The nodes and edges of a whole file, of which there are fewer than `fuel` each.
  unfoldable pub read_gml : ℕ → Read (List NodeRecord × List EdgeRecord)
  read_gml fuel = do
    text_line (codes "graph [")
    text_line (codes "  directed 1")
    nodes ← read_all fuel read_node
    edges ← read_all fuel read_edge
    text_line (codes "]")
    pure (nodes, edges)
