-- ===== src/CallGraph/GmlReads.antt =====
-- The GML file of src/app/commands/callgraph/CallGraphExporter.cpp, read back.
use tarracsh.Prelude.{
  ℕ, zero, suc, ◌<◌, ◌≡◌, refl, sym, subst, true, false, Bool, none, some, List, [], ◌∷◌, ◌++◌,
  append_assoc, length, codes, All, ◌⊎◌, inl, inr, if◌then◌else◌, arith,
}
use tarracsh.ClassFile.Pool.{Bytes}
use tarracsh.Digest.Class.{equal}
use tarracsh.CallGraph.Exporter.{NodeRecord, EdgeRecord, Graph, missing_color}
use tarracsh.CallGraph.Output.{line, quoted, escape_for_gml, all_of, gml_node, gml_edge, write_gml}
use tarracsh.CallGraph.Gml.{
  Read, ◌>>=◌, ◌>>◌, pure, literal, text_line, read_style, read_all, read_node, read_edge, read_gml,
}
use tarracsh.CallGraph.GmlSteps.{
  Reads, >>=-Reads, pure-Reads, text_line-Reads, quoted_line-Reads, plain_line-Reads,
  number_line-Reads,
}

-- What the exporter gives an edge: a color in which nothing is escaped, and one of two styles.
abbrev pub Drawn : EdgeRecord → Type 0
Drawn e =
    (escape_for_gml e.color ≡ e.color) × ((e.style ≡ codes "solid") ⊎ (e.style ≡ codes "dashed"))

abbrev pattern_line : Bytes → Bytes
pattern_line style =
    if equal style (codes "dashed") then line (codes "      pattern \"dashed\"") else []

abbrev style_lines : Bytes → Bytes
style_lines style = pattern_line style ++ line (codes "    ]")

style-Reads :
    (style : Bytes)
    → (style ≡ codes "solid") ⊎ (style ≡ codes "dashed")
    → Reads read_style (style_lines style) style
unfolding read_style literal
style-Reads style (inl e) =
    subst (λ s. Reads read_style (style_lines s) s) (sym e) (record { read_back = λ rest. refl })
style-Reads style (inr e) =
    subst (λ s. Reads read_style (style_lines s) s) (sym e) (record { read_back = λ rest. refl })

every_unit : {A : Type 0} (xs : List A) → All (λ a. Unit {0}) xs
every_unit [] = tt
every_unit (x ∷ xs) = (tt, every_unit xs)

-- Entries up to where there is none.
read_all-all_of :
    {A : Type 0} (number : ℕ → Bytes) (p : Read A) (show : A → Bytes) (P : A → Type 0) (xs : List A)
    (rest : Bytes) (fuel : ℕ)
    → ((a : A) → P a → Reads p (show a) a)
    → All P xs
    → p rest ≡ none
    → length xs < fuel
    → read_all fuel p (all_of number show xs ++ rest) ≡ some (xs, rest)
unfolding read_all all_of
read_all-all_of number p show P xs rest zero each all stop h = absurd (omega arith)
read_all-all_of number p show P [] rest (suc fuel) each all stop h = rw stop refl
read_all-all_of number p show P (x ∷ xs) rest (suc fuel) each (px, all) stop h =
    rw
      (
        append_assoc (show x) (all_of number show xs) rest,
        (each x px).read_back (all_of number show xs ++ rest),
        read_all-all_of number p show P xs rest fuel each all stop (omega arith),
      )
      refl

module _ (read_number : Read ℕ) (number : ℕ → Bytes)
    (printed : (n : ℕ) (rest : Bytes)
      → read_number (number n ++ (10 ∷ rest)) ≡ some (n, 10 ∷ rest)) where
  -- The lines of a node by its fill.
  abbrev node_lines : ℕ → Bytes → Bytes → Bytes
  node_lines id label fill =
      line (codes "  node [")
      ++ (line (codes "    id " ++ number id)
          ++ (line (codes "    label " ++ quoted (escape_for_gml label))
              ++ (line (codes "    graphics [")
                  ++ (line (codes "      fill " ++ quoted fill)
                      ++ (line (codes "    ]") ++ line (codes "  ]"))))))

  node_lines-Reads :
      (id : ℕ) (label fill : Bytes)
      → escape_for_gml fill ≡ fill
      → Reads
          (read_node read_number)
          (node_lines id label fill)
          (record { id = id; label = label; is_missing = equal fill missing_color })
  unfolding read_node
  node_lines-Reads id label fill plain =
      >>=-Reads _ _ (line (codes "  node [")) _ (text_line-Reads (codes "  node [")) (
        >>=-Reads _ _ (line (codes "    id " ++ number id)) _
          (number_line-Reads read_number number printed (codes "    id ") id)
          (>>=-Reads _ _ (line (codes "    label " ++ quoted (escape_for_gml label))) _
            (quoted_line-Reads (codes "    label ") label)
            (>>=-Reads _ _ (line (codes "    graphics [")) _
              (text_line-Reads (codes "    graphics ["))
              (>>=-Reads _ _ (line (codes "      fill " ++ quoted fill)) _
                (plain_line-Reads (codes "      fill ") fill plain)
                (>>=-Reads _ _ (line (codes "    ]")) _ (text_line-Reads (codes "    ]")) (
                  pure-Reads _
                    (λ u. record { id = id; label = label; is_missing = equal fill missing_color })
                    _ (text_line-Reads (codes "  ]"))))))))

  labelled_node-Reads :
      (id : ℕ) (label : Bytes) (b : Bool)
      → Reads
          (read_node read_number)
          (gml_node number (record { id = id; label = label; is_missing = b }))
          (record { id = id; label = label; is_missing = b })
  unfolding gml_node escape_for_gml
  labelled_node-Reads id label true = node_lines-Reads id label missing_color refl
  labelled_node-Reads id label false = node_lines-Reads id label (codes "#FFFFFF") refl

  node-Reads : (n : NodeRecord) → Reads (read_node read_number) (gml_node number n) n
  node-Reads n = labelled_node-Reads n.id n.label n.is_missing

  edge-Reads : (e : EdgeRecord) → Drawn e → Reads (read_edge read_number) (gml_edge number e) e
  unfolding read_edge gml_edge
  edge-Reads e (plain, style) =
      >>=-Reads _ _ (line (codes "  edge [")) _ (text_line-Reads (codes "  edge [")) (
        >>=-Reads _ _ (line (codes "    source " ++ number e.from)) _
          (number_line-Reads read_number number printed (codes "    source ") e.from)
          (>>=-Reads _ _ (line (codes "    target " ++ number e.to)) _
            (number_line-Reads read_number number printed (codes "    target ") e.to)
            (>>=-Reads _ _ (line (codes "    label " ++ quoted (escape_for_gml e.label))) _
              (quoted_line-Reads (codes "    label ") e.label)
              (>>=-Reads _ _ (line (codes "    graphics [")) _
                (text_line-Reads (codes "    graphics ["))
                (>>=-Reads _ _ (line (codes "      fill " ++ quoted e.color)) _
                  (plain_line-Reads (codes "      fill ") e.color plain)
                  (subst
                    (λ text.
                      Reads
                        (do
                          style ← read_style
                          text_line (codes "  ]")
                          pure (record e { style = style }))
                        text e)
                    (append_assoc (pattern_line e.style) (line (codes "    ]"))
                      (line (codes "  ]")))
                    (>>=-Reads _ _ (style_lines e.style) _ (style-Reads e.style style)
                      (pure-Reads _ (λ u. e) _ (text_line-Reads (codes "  ]"))))))))))

  no_edge : (rest : Bytes) → read_edge read_number (line (codes "]") ++ rest) ≡ none
  unfolding read_edge literal
  no_edge rest = refl

  -- What follows the nodes is no node.
  no_node_after :
      (edges : List EdgeRecord) (rest : Bytes)
      → read_node read_number (all_of number (gml_edge number) edges ++ (line (codes "]") ++ rest))
        ≡ none
  unfolding all_of gml_edge read_node literal
  no_node_after [] rest = refl
  no_node_after (e ∷ edges) rest = refl

  -- The file of a graph, whatever its labels hold, is read back: its nodes, and its edges if each has
  -- a color that needs no escape and one of the two styles, with more fuel than there are of each.
  pub read_gml-write_gml :
      (g : Graph) (fuel : ℕ) (rest : Bytes)
      → All Drawn g.edges
      → length g.nodes < fuel
      → length g.edges < fuel
      → read_gml read_number fuel (write_gml number g ++ rest) ≡ some ((g.nodes, g.edges), rest)
  unfolding read_gml write_gml literal
  read_gml-write_gml g fuel rest drawn hn he =
      let closing = line (codes "]") in
      let edges_text = all_of number (gml_edge number) g.edges in
      rw
        (
          append_assoc (all_of number (gml_node number) g.nodes) (edges_text ++ closing) rest,
          append_assoc edges_text closing rest,
          read_all-all_of number (read_node read_number) (gml_node number) (λ n. Unit) g.nodes
              (edges_text ++ (closing ++ rest)) fuel (λ n u. node-Reads n) (every_unit g.nodes)
              (no_node_after g.edges rest) hn,
          read_all-all_of number (read_edge read_number) (gml_edge number) Drawn g.edges
              (closing ++ rest) fuel edge-Reads drawn (no_edge rest) he,
        )
        refl
