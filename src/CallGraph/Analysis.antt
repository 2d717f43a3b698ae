-- ===== src/CallGraph/Analysis.antt =====
-- What src/app/commands/callgraph does at the end of an analysis: `linkRefNodes` of
-- CallGraphAnalyzer.cpp, then `run` of CallGraphExporter.cpp.
use tarracsh.Prelude.{ℕ, Bool, true, false, ◌||◌, Option, none, some, List, [], ◌∷◌, if◌then◌else◌}
use tarracsh.Outcome.{Outcome, ok, ◌>>=◌}
use tarracsh.ClassFile.Pool.{Bytes}
use tarracsh.CallGraph.Rows.{ClassFileRow}
use tarracsh.CallGraph.Link.{create_member_index, link_class_refs, link_member_refs}
use tarracsh.CallGraph.Exporter.{GraphTables, collect}
use tarracsh.CallGraph.Output.{write_dot, write_gml}

-- `linkRefNodes`, with the indexes of `createNamedIndexes`.
unfoldable pub link_ref_nodes : GraphTables → Outcome GraphTables
link_ref_nodes t = create_member_index t.class_files t.methods >>= λ methods_index.
    create_member_index t.class_files t.fields >>= λ fields_index.
    link_class_refs t.class_files t.class_refs t.class_ref_edges
    >>= λ (classes, (class_refs', class_edges)).
        link_member_refs methods_index t.methods t.method_refs t.method_ref_edges
        >>= λ (methods', (method_refs', method_edges)).
            link_member_refs fields_index t.fields t.field_refs t.field_ref_edges
            >>= λ (fields', (field_refs', field_edges)). ok (record {
              class_files = classes;
              class_ref_edges = class_edges;
              class_refs = class_refs';
              methods = methods';
              method_ref_edges = method_edges;
              method_refs = method_refs';
              fields = fields';
              field_ref_edges = field_edges;
              field_refs = field_refs';
            })

-- What `run` returns and the files it writes, where they can be opened.
pub record Exported : Type 0 where
  pub succeeded : Bool
  pub dot : Option Bytes
  pub gml : Option Bytes

abbrev pub written_if : Bool → Bytes → Option Bytes
written_if true text = some text
written_if false text = none

-- `run` behind `buildClassNodes`, which makes a node of each class.
abbrev pub export_graph :
    (ℕ → Bytes) → (ℕ → Bytes) → Bool → Bool → GraphTables → List ClassFileRow → Outcome Exported
export_graph get_c_string number export_dot export_gml t [] =
    ok (record { succeeded = false; dot = none; gml = none })
export_graph get_c_string number export_dot export_gml t (c ∷ classes) =
    collect get_c_string t >>= λ g. ok (record {
      succeeded = true;
      dot = written_if export_dot (write_dot number g);
      gml = written_if export_gml (write_gml number g);
    })

unfoldable pub run : (ℕ → Bytes) → (ℕ → Bytes) → Bool → Bool → GraphTables → Outcome Exported
run get_c_string number export_dot export_gml t =
    export_graph get_c_string number export_dot export_gml t t.class_files

-- `endAnalysis` up to the database's stop: the tables, and what was exported.
unfoldable pub end_analysis :
    (ℕ → Bytes) → (ℕ → Bytes) → Bool → Bool → GraphTables → Outcome (GraphTables × Option Exported)
end_analysis get_c_string number export_dot export_gml t = link_ref_nodes t >>= λ t'.
    if export_dot || export_gml
    then (run get_c_string number export_dot export_gml t' >>= λ exported. ok (t', some exported))
    else ok (t', none)
