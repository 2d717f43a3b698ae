-- ===== src/Examples/CallGraphs.antt =====
-- The theorems on the call graph, at concrete inputs.
use tarracsh.Prelude.{
  List, ◌+◌, length, All, ◌+◌, suc, none, true, ◌-◌, ap, ◌↔◌, Among, ℕ, ◌≡◌, refl, [], ◌∷◌, ◌++◌,
  All, length, some, false, codes, arith,
}
use tarracsh.Outcome.{ok}
use tarracsh.ClassFile.Pool.{Bytes}
use tarracsh.CallGraph.Rows.{EdgeRow, ClassFileRow, ClassRefRow, MemberRow, MemberRefRow}
use tarracsh.CallGraph.Exporter.{
  Graph, GraphTables, empty_graph, build_class_nodes, find_id, get_class_node_id, add_class_node,
  collect, collect_class_ref_edges,
}
use tarracsh.CallGraph.Nodes.{IsGraph}
use tarracsh.CallGraph.Analysis.{link_ref_nodes, Exported, end_analysis}
use tarracsh.CallGraph.Linked.{Unlinked, collect-link_ref_nodes}
use tarracsh.CallGraph.Link.{
  link_class_refs, create_member_index, owner_name, link_member_refs, member_edge,
}
use tarracsh.CallGraph.Matches.{Linked, link_member_refs-Linked}
use tarracsh.CallGraph.Owners.{collect_class_ref_edges-link_class_refs}
use tarracsh.CallGraph.Gml.{Read, read_gml}
use tarracsh.CallGraph.Exports.{end_analysis-read_gml}

-- The name at a place in the string pool.
abbrev named : ℕ → Bytes
named n = codes "name" ++ (n ∷ [])

abbrev caller : ClassFileRow
caller = record { id = 0; classname = 10; strong_classname = codes "Caller"; ref_count = 0 }

abbrev callee : ClassFileRow
callee = record { id = 1; classname = 20; strong_classname = codes "Callee"; ref_count = 0 }

abbrev called : MemberRow
called = record {
  id = 0;
  owner_class = 1;
  name = 30;
  descriptor = 40;
  strong_name = codes "Callee.called";
  ref_count = 0;
}

abbrev call : MemberRefRow
call = record {
  id = 0;
  owner_class = 0;
  classname = 20;
  name = 30;
  descriptor = 40;
  edge_count = 1;
}

abbrev lost_call : MemberRefRow
lost_call = record {
  id = 1;
  owner_class = 0;
  classname = 50;
  name = 30;
  descriptor = 40;
  edge_count = 0;
}

abbrev to_callee : ClassRefRow
to_callee = record { id = 0; owner_class = 0; name = 20; edge_count = 0 }

abbrev to_caller : ClassRefRow
to_caller = record { id = 1; owner_class = 1; name = 10; edge_count = 0 }

-- A call that is found and one that is missing.
abbrev two_calls : GraphTables
two_calls = record {
  class_files = caller ∷ callee ∷ [];
  class_ref_edges = [];
  class_refs = [];
  methods = called ∷ [];
  method_ref_edges = [];
  method_refs = call ∷ lost_call ∷ [];
  fields = [];
  field_ref_edges = [];
  field_refs = [];
}

two_calls-Unlinked : Unlinked two_calls
two_calls-Unlinked = record {
  classes = (refl, (refl, tt));
  class_refs = tt;
  methods = (refl, tt);
  method_refs = (refl, (refl, tt));
  fields = tt;
  field_refs = tt;
  method_owners = (omega arith, tt);
  field_owners = tt;
  no_class_edges = refl;
  no_method_edges = refl;
  no_field_edges = refl;
}

collect-link_ref_nodes_example :
    (t' : GraphTables) × (g : Graph) × (link_ref_nodes two_calls ≡ ok t')
    × (length t'.class_files ≡ 2)
    × (collect named t' ≡ ok g)
    × IsGraph g
collect-link_ref_nodes_example = collect-link_ref_nodes named two_calls two_calls-Unlinked

-- The nodes of the two classes.
abbrev two_classes : Graph
two_classes = build_class_nodes (caller ∷ callee ∷ []) empty_graph

caller_node : get_class_node_id 0 two_classes ≡ some 0
unfolding get_class_node_id find_id build_class_nodes add_class_node
caller_node = refl

no_edges : two_classes.edges ≡ []
unfolding build_class_nodes add_class_node
no_edges = refl

collect_class_ref_edges-link_class_refs_example :
    (linked : List ClassFileRow × (List ClassRefRow × List EdgeRow)) × (link_class_refs
        (caller ∷ callee ∷ [])
        (to_callee ∷ to_caller ∷ [])
        []
      ≡ ok linked)
    × All (λ e. e.from ≡ 0) (collect_class_ref_edges linked.1.1 two_classes).edges
collect_class_ref_edges-link_class_refs_example =
    collect_class_ref_edges-link_class_refs (caller ∷ callee ∷ []) (to_callee ∷ to_caller ∷ [])
      two_classes 0 (refl, (refl, tt)) (refl, (refl, tt)) caller_node no_edges

called_index : create_member_index (caller ∷ callee ∷ []) (called ∷ []) ≡ ok ((20, called) ∷ [])
unfolding create_member_index owner_name
called_index = refl

link_member_refs-Linked_example :
    (linked : List MemberRow × (List MemberRefRow × List EdgeRow)) × (link_member_refs
        ((20, called) ∷ [])
        (called ∷ [])
        (call ∷ lost_call ∷ [])
        []
      ≡ ok linked)
    × (Among (member_edge call 0) linked.1.1
        ↔ Linked (caller ∷ callee ∷ []) (called ∷ []) (call ∷ lost_call ∷ []) (member_edge call 0))
link_member_refs-Linked_example =
    link_member_refs-Linked (caller ∷ callee ∷ []) (called ∷ []) (call ∷ lost_call ∷ [])
      ((20, called) ∷ []) (member_edge call 0) called_index (refl, tt) (refl, (refl, tt))

-- Ints below ten as digits.
abbrev digit : ℕ → Bytes
digit n = (b'0' + n) ∷ []

abbrev read_digit : Read ℕ
read_digit [] = none
read_digit (c ∷ rest) = some (c - b'0', rest)

digit_lem : (n : ℕ) (rest : Bytes) → read_digit (digit n ++ (10 ∷ rest)) ≡ some (n, 10 ∷ rest)
digit_lem n rest = ap (λ (m : ℕ). some (m, 10 ∷ rest)) (omega arith)

end_analysis-read_gml_example :
    (t' : GraphTables) × (g : Graph) × (x : Exported) × (file : Bytes) × (link_ref_nodes two_calls
      ≡ ok t')
    × (collect named t' ≡ ok g)
    × (end_analysis named digit false true two_calls ≡ ok (t', some x))
    × (x.gml ≡ some file)
    × (read_gml read_digit (suc (length g.nodes + length g.edges)) file
        ≡ some ((g.nodes, g.edges), []))
end_analysis-read_gml_example =
    end_analysis-read_gml named digit read_digit false two_calls digit_lem (omega arith)
      two_calls-Unlinked
