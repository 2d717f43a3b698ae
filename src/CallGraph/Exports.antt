-- ===== src/CallGraph/Exports.antt =====
-- What `endAnalysis` of src/app/commands/callgraph/CallGraphAnalyzer.cpp exports, from the tables to the
-- GML file.
use tarracsh.Prelude.{
  ℕ, suc, ◌+◌, ◌<◌, ◌≡◌, refl, sym, subst, true, false, Bool, some, List, [], ◌∷◌, ◌++◌, append-nil,
  length, ◌||◌, arith,
}
use tarracsh.Outcome.{ok}
use tarracsh.ClassFile.Pool.{Bytes}
use tarracsh.CallGraph.Rows.{ClassFileRow}
use tarracsh.CallGraph.Exporter.{Graph, GraphTables, collect}
use tarracsh.CallGraph.Output.{write_gml, write_dot}
use tarracsh.CallGraph.Analysis.{
  link_ref_nodes, Exported, export_graph, written_if, run, end_analysis,
}
use tarracsh.CallGraph.Linked.{Unlinked, collect-link_ref_nodes}
use tarracsh.CallGraph.Gml.{Read, read_gml}
use tarracsh.CallGraph.GmlReads.{read_gml-write_gml}
use tarracsh.CallGraph.Drawing.{collect-AllDrawn}

export_graph-gml :
    (get_c_string number : ℕ → Bytes) (export_dot : Bool) (t : GraphTables)
    (classes : List ClassFileRow) (g : Graph)
    → 0 < length classes
    → collect get_c_string t ≡ ok g
    → (x : Exported) × (export_graph get_c_string number export_dot true t classes ≡ ok x)
      × (x.gml ≡ some (write_gml number g))
export_graph-gml get_c_string number export_dot t [] g h is = absurd (omega arith)
export_graph-gml get_c_string number export_dot t (c ∷ classes) g h is = (
  record {
    succeeded = true;
    dot = written_if export_dot (write_dot number g);
    gml = some (write_gml number g);
  },
  rw is refl,
  refl,
)

or_true : (b : Bool) → (b || true) ≡ true
or_true true = refl
or_true false = refl

-- Of tables that are not linked yet and hold a class, where a printed int that a line feed follows is
-- read back: `endAnalysis` with a GML file asked for links and collects a graph, and the file is read
-- back to the nodes and edges of that graph, with more fuel than there are of both.
pub end_analysis-read_gml :
    (get_c_string number : ℕ → Bytes) (read_number : Read ℕ) (export_dot : Bool) (t : GraphTables)
    → ((n : ℕ) (rest : Bytes) → read_number (number n ++ (10 ∷ rest)) ≡ some (n, 10 ∷ rest))
    → 0 < length t.class_files
    → Unlinked t
    → (t' : GraphTables) × (g : Graph) × (x : Exported) × (file : Bytes) × (link_ref_nodes t
        ≡ ok t')
      × (collect get_c_string t' ≡ ok g)
      × (end_analysis get_c_string number export_dot true t ≡ ok (t', some x))
      × (x.gml ≡ some file)
      × (read_gml read_number (suc (length g.nodes + length g.edges)) file
          ≡ some ((g.nodes, g.edges), []))
unfolding end_analysis run
end_analysis-read_gml get_c_string number read_number export_dot t printed some_class u =
    let (t', g, linked, many, collected, graph) = collect-link_ref_nodes get_c_string t u in
    let (x, exported, gml) =
      export_graph-gml get_c_string number export_dot t' t'.class_files g
        (subst (λ n. 0 < n) (sym many) some_class) collected in
    (
      t',
      g,
      x,
      write_gml number g,
      linked,
      collected,
      rw (linked, or_true export_dot, exported) refl,
      gml,
      subst
          (λ file.
            read_gml read_number (suc (length g.nodes + length g.edges)) file
            ≡ some ((g.nodes, g.edges), []))
          (append-nil (write_gml number g))
          (read_gml-write_gml read_number number printed g (suc (length g.nodes + length g.edges))
            [] (collect-AllDrawn get_c_string t' g collected) (omega arith) (omega arith)),
    )
