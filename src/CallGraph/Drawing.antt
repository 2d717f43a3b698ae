-- ===== src/CallGraph/Drawing.antt =====
-- How src/app/commands/callgraph/CallGraphExporter.cpp draws the edges that it collects: the colors need
-- no escape, and a style is solid or dashed.
use tarracsh.Prelude.{
  ℕ, ◌==◌, ◌≡◌, refl, sym, subst, true, false, Bool, inl, inr, Option, none, some, List, [], ◌∷◌,
  ◌++◌, get_elem?, codes, All, All-append, if◌then◌else◌,
}
use tarracsh.Outcome.{ok, ok_lem, ◌>>=◌, >>=-ok}
use tarracsh.ClassFile.Pool.{Bytes}
use tarracsh.Diff.Names.{find}
use tarracsh.CallGraph.Rows.{ClassFileRow, ClassRefRow, EdgeRow, MemberRow, MemberRefRow}
use tarracsh.CallGraph.Exporter.{
  Graph, GraphTables, class_color, method_color, field_color, missing_color, empty_graph,
  add_class_node, build_class_nodes, get_class_node_id, known_or_new, get_missing_node_id,
  add_solid, add_dashed, collect_class_ref_edges, add_member_edge, collect_missing_classes,
  collect_member_edges, missing_key, collect_missing_members, collect,
}
use tarracsh.CallGraph.Output.{escape_for_gml}
use tarracsh.CallGraph.GmlReads.{Drawn}

abbrev pub AllDrawn : Graph → Type 0
AllDrawn g = All Drawn g.edges

add_solid-AllDrawn :
    (from to : Option ℕ) (label color : Bytes) (g : Graph)
    → escape_for_gml color ≡ color
    → AllDrawn g
    → AllDrawn (add_solid from to label color g)
unfolding add_solid
add_solid-AllDrawn none to label color g p h = h
add_solid-AllDrawn (some from) none label color g p h = h
add_solid-AllDrawn (some from) (some to) label color g p h =
    All-append Drawn g.edges
      (record { from = from; to = to; label = label; color = color; style = codes "solid" }) h
      (p, inl refl)

known_or_new-edges :
    (label : Bytes) (o : Option ℕ) (g : Graph) → (known_or_new label o g).1.edges ≡ g.edges
known_or_new-edges label (some id) g = refl
known_or_new-edges label none g = refl

add_dashed-AllDrawn :
    (from : Option ℕ) (key label : Bytes) (g : Graph)
    → AllDrawn g
    → AllDrawn (add_dashed from key label g)
unfolding add_dashed get_missing_node_id escape_for_gml
add_dashed-AllDrawn none key label g h = h
add_dashed-AllDrawn (some from) key label g h =
    let found = known_or_new key (find key g.missing_node_ids) g in
    All-append Drawn found.1.edges
      (record {
        from = from;
        to = found.0;
        label = label;
        color = missing_color;
        style = codes "dashed";
      })
      (subst (All Drawn) (sym (known_or_new-edges key (find key g.missing_node_ids) g)) h)
      (refl, inr refl)

build_class_nodes-AllDrawn :
    (rows : List ClassFileRow) (g : Graph) → AllDrawn g → AllDrawn (build_class_nodes rows g)
unfolding build_class_nodes add_class_node
build_class_nodes-AllDrawn [] g h = h
build_class_nodes-AllDrawn (row ∷ rows) g h =
    build_class_nodes-AllDrawn rows (add_class_node row g) h

collect_class_ref_edges-AllDrawn :
    (rows : List EdgeRow) (g : Graph) → AllDrawn g → AllDrawn (collect_class_ref_edges rows g)
unfolding collect_class_ref_edges escape_for_gml
collect_class_ref_edges-AllDrawn [] g h = h
collect_class_ref_edges-AllDrawn (e ∷ rows) g h =
    let from = get_class_node_id e.owner_class g in
    let to = get_class_node_id e.to g in
    collect_class_ref_edges-AllDrawn rows (add_solid from to (codes "class") class_color g)
      (add_solid-AllDrawn from to (codes "class") class_color g refl h)

either-AllDrawn :
    (b : Bool) (g g' : Graph) → AllDrawn g → AllDrawn g' → AllDrawn (if b then g else g')
either-AllDrawn true g g' h h' = h
either-AllDrawn false g g' h h' = h'

module _ (get_c_string : ℕ → Bytes) where
  collect_missing_classes-AllDrawn :
      (rows : List ClassRefRow) (g : Graph)
      → AllDrawn g
      → AllDrawn (collect_missing_classes get_c_string rows g)
  unfolding collect_missing_classes
  collect_missing_classes-AllDrawn [] g h = h
  collect_missing_classes-AllDrawn (r ∷ rows) g h =
      let name = get_c_string r.name in
      let from = get_class_node_id r.owner_class g in
      let dashed = add_dashed from (name ++ codes " (missing)") name g in
      collect_missing_classes-AllDrawn rows (if r.edge_count == 0 then dashed else g) (
        either-AllDrawn (r.edge_count == 0) dashed g
          (add_dashed-AllDrawn from (name ++ codes " (missing)") name g h) h)

  collect_missing_members-AllDrawn :
      (rows : List MemberRefRow) (g : Graph)
      → AllDrawn g
      → AllDrawn (collect_missing_members get_c_string rows g)
  unfolding collect_missing_members
  collect_missing_members-AllDrawn [] g h = h
  collect_missing_members-AllDrawn (r ∷ rows) g h =
      let key = missing_key get_c_string r in
      let from = get_class_node_id r.owner_class g in
      let dashed = add_dashed from key (key ++ codes " (missing)") g in
      collect_missing_members-AllDrawn rows (if r.edge_count == 0 then dashed else g) (
        either-AllDrawn (r.edge_count == 0) dashed g
          (add_dashed-AllDrawn from key (key ++ codes " (missing)") g h) h)

  add_member_edge-AllDrawn :
      (color : Bytes) (e : EdgeRow) (o : Option MemberRow) (g g' : Graph)
      → escape_for_gml color ≡ color
      → AllDrawn g
      → add_member_edge get_c_string color e o g ≡ ok g'
      → AllDrawn g'
  unfolding add_member_edge
  add_member_edge-AllDrawn color e none g g' p h is = cc
  add_member_edge-AllDrawn color e (some m) g g' p h is = subst AllDrawn (ok_lem is) (
      add_solid-AllDrawn (get_class_node_id e.owner_class g) (get_class_node_id m.owner_class g)
        (m.strong_name ++ (codes " " ++ get_c_string m.descriptor)) color g p h)

  collect_member_edges-AllDrawn :
      (color : Bytes) (members : List MemberRow) (rows : List EdgeRow) (g g' : Graph)
      → escape_for_gml color ≡ color
      → AllDrawn g
      → collect_member_edges get_c_string color members rows g ≡ ok g'
      → AllDrawn g'
  unfolding collect_member_edges
  collect_member_edges-AllDrawn color members [] g g' p h is = subst AllDrawn (ok_lem is) h
  collect_member_edges-AllDrawn color members (e ∷ rows) g g' p h is =
      let (g₁, first, rest) =
        >>=-ok (add_member_edge get_c_string color e (get_elem? members e.to) g)
          (collect_member_edges get_c_string color members rows) g' is in
      collect_member_edges-AllDrawn color members rows g₁ g' p
        (add_member_edge-AllDrawn color e (get_elem? members e.to) g g₁ p h first) rest

  pub collect-AllDrawn : (t : GraphTables) (g : Graph) → collect get_c_string t ≡ ok g → AllDrawn g
  unfolding collect escape_for_gml
  collect-AllDrawn t g is =
      let start =
        collect_missing_classes get_c_string t.class_refs (
          collect_class_ref_edges t.class_ref_edges
            (build_class_nodes t.class_files empty_graph)) in
      let started =
        collect_missing_classes-AllDrawn t.class_refs
          (collect_class_ref_edges t.class_ref_edges (build_class_nodes t.class_files empty_graph))
          (collect_class_ref_edges-AllDrawn t.class_ref_edges
            (build_class_nodes t.class_files empty_graph)
            (build_class_nodes-AllDrawn t.class_files empty_graph tt)) in
      let (g₁, methods, rest) =
        >>=-ok (collect_member_edges get_c_string method_color t.methods t.method_ref_edges start)
          (λ g.
            collect_member_edges get_c_string field_color t.fields t.field_ref_edges
              (collect_missing_members get_c_string t.method_refs g)
            >>= λ g. ok (collect_missing_members get_c_string t.field_refs g))
          g is in
      let middle = collect_missing_members get_c_string t.method_refs g₁ in
      let (g₂, fields, last) =
        >>=-ok (collect_member_edges get_c_string field_color t.fields t.field_ref_edges middle)
          (λ g. ok (collect_missing_members get_c_string t.field_refs g)) g rest in
      subst AllDrawn (ok_lem last) (
        collect_missing_members-AllDrawn t.field_refs g₂ (
          collect_member_edges-AllDrawn field_color t.fields t.field_ref_edges middle g₂ refl
            (collect_missing_members-AllDrawn t.method_refs g₁ (
              collect_member_edges-AllDrawn method_color t.methods t.method_ref_edges start g₁ refl
                started methods))
            fields))
