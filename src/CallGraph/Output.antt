-- ===== src/CallGraph/Output.antt =====
-- src/app/commands/callgraph/CallGraphExporter.cpp: the texts of the two files, as lines end with a
-- line feed, and the escapes in them.
use tarracsh.Prelude.{ℕ, ◌==◌, List, [], ◌∷◌, ◌++◌, codes, if◌then◌else◌}
use tarracsh.ClassFile.Pool.{Bytes}
use tarracsh.Digest.Class.{equal}
use tarracsh.CallGraph.Exporter.{NodeRecord, EdgeRecord, missing_color, Graph}

abbrev pub quote : ℕ
quote = 0x22

abbrev pub backslash : ℕ
backslash = 0x5c

unfoldable pub escape_for_dot : Bytes → Bytes
escape_for_dot [] = []
escape_for_dot (ch ∷ value) =
    let rest = escape_for_dot value in if ch == quote then backslash ∷ quote ∷ rest else ch ∷ rest

unfoldable pub escape_for_gml : Bytes → Bytes
escape_for_gml [] = []
escape_for_gml (ch ∷ value) =
    let rest = escape_for_gml value in
    if ch == quote
    then backslash ∷ quote ∷ rest
    else if ch == backslash
    then backslash ∷ backslash ∷ rest
    else ch ∷ rest

-- A line: the text and a line feed.
abbrev pub line : Bytes → Bytes
line text = text ++ (10 ∷ [])

abbrev pub quoted : Bytes → Bytes
quoted text = quote ∷ (text ++ (quote ∷ []))

-- How fmt prints an int is a parameter.
module _ (number : ℕ → Bytes) where
  unfoldable pub dot_node : NodeRecord → Bytes
  dot_node n = line (
      codes "  n"
      ++ (number n.id
          ++ (codes " [label="
              ++ (quoted (escape_for_dot n.label)
                  ++ (codes ", color="
                      ++ (quoted (if n.is_missing then missing_color else codes "#333333")
                          ++ codes "];"))))))

  unfoldable pub dot_edge : EdgeRecord → Bytes
  dot_edge e = line (
      codes "  n"
      ++ (number e.from
          ++ (codes " -> n"
              ++ (number e.to
                  ++ (codes " [label="
                      ++ (quoted (escape_for_dot e.label)
                          ++ (codes ", color="
                              ++ (quoted e.color
                                  ++ (codes ", style=" ++ (quoted e.style ++ codes "];"))))))))))

  unfoldable pub all_of : {A : Type 0} → (A → Bytes) → List A → Bytes
  all_of show [] = []
  all_of show (a ∷ xs) = show a ++ all_of show xs

  -- `writeDot`, what it writes.
  unfoldable pub write_dot : Graph → Bytes
  write_dot g =
      line (codes "digraph CallGraph {")
      ++ (line (codes "  rankdir=LR;")
          ++ (line
                (codes "  node [shape=box, fontname=" ++ (quoted (codes "Helvetica") ++ codes "];"))
              ++ (all_of dot_node g.nodes ++ (all_of dot_edge g.edges ++ line (codes "}")))))

  unfoldable pub gml_node : NodeRecord → Bytes
  gml_node n =
      line (codes "  node [")
      ++ (line (codes "    id " ++ number n.id)
          ++ (line (codes "    label " ++ quoted (escape_for_gml n.label))
              ++ (line (codes "    graphics [")
                  ++ (line (
                        codes "      fill "
                        ++ quoted (if n.is_missing then missing_color else codes "#FFFFFF"))
                      ++ (line (codes "    ]") ++ line (codes "  ]"))))))

  unfoldable pub gml_edge : EdgeRecord → Bytes
  gml_edge e =
      line (codes "  edge [")
      ++ (line (codes "    source " ++ number e.from)
          ++ (line (codes "    target " ++ number e.to)
              ++ (line (codes "    label " ++ quoted (escape_for_gml e.label))
                  ++ (line (codes "    graphics [")
                      ++ (line (codes "      fill " ++ quoted e.color)
                          ++ ((if equal e.style (codes "dashed")
                                then line (codes "      pattern " ++ quoted (codes "dashed"))
                                else [])
                              ++ (line (codes "    ]") ++ line (codes "  ]"))))))))

  -- `writeGml`, what it writes.
  unfoldable pub write_gml : Graph → Bytes
  write_gml g =
      line (codes "graph [")
      ++ (line (codes "  directed 1")
          ++ (all_of gml_node g.nodes ++ (all_of gml_edge g.edges ++ line (codes "]"))))
