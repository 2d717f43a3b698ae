-- ===== src/CallGraph/Ends.antt =====
-- The edges that src/app/commands/callgraph/CallGraphExporter.cpp collects.
use tarracsh.Prelude.{
  ℕ, zero, suc, ◌<◌, ◌==◌, ◌≡◌, refl, Option, none, some, List, [], ◌∷◌, ◌++◌, length, get_elem?,
  All, Bool-cases, inl, inr, codes, arith,
}
use tarracsh.Outcome.{ok}
use tarracsh.ClassFile.Pool.{Bytes}
use tarracsh.CallGraph.Rows.{ClassRefRow, EdgeRow, MemberRow, MemberRefRow}
use tarracsh.CallGraph.Exporter.{
  class_color, missing_color, method_color, field_color, Graph, empty_graph, build_class_nodes,
  get_class_node_id, get_missing_node_id, add_solid, add_dashed, collect_class_ref_edges,
  add_member_edge, collect_missing_classes, collect_member_edges, missing_key,
  collect_missing_members, GraphTables, collect,
}
use tarracsh.CallGraph.Nodes.{
  IsGraph, empty_graph-IsGraph, Below, build_class_nodes-IsGraph, get_class_node_id-Below,
  get_missing_node_id-Found, add_edge-IsGraph,
}

add_solid-IsGraph :
    (from to : Option ℕ) (label color : Bytes) (g : Graph)
    → Below (length g.nodes) from
    → Below (length g.nodes) to
    → IsGraph g
    → IsGraph (add_solid from to label color g)
unfolding add_solid
add_solid-IsGraph none to label color g p q h = h
add_solid-IsGraph (some from) none label color g p q h = h
add_solid-IsGraph (some from) (some to) label color g p q h =
    add_edge-IsGraph
      (record { from = from; to = to; label = label; color = color; style = codes "solid" }) g
      (p, q) h

add_dashed-IsGraph :
    (from : Option ℕ) (key label : Bytes) (g : Graph)
    → Below (length g.nodes) from
    → IsGraph g
    → IsGraph (add_dashed from key label g)
unfolding add_dashed
add_dashed-IsGraph none key label g p h = h
add_dashed-IsGraph (some from) key label g p h =
    let (found, graph, more) = get_missing_node_id-Found key g h in
    add_edge-IsGraph
      (record {
        from = from;
        to = (get_missing_node_id key g).0;
        label = label;
        color = missing_color;
        style = codes "dashed";
      })
      (get_missing_node_id key g).1 (omega (arith, p, more), found) graph

collect_class_ref_edges-IsGraph :
    (rows : List EdgeRow) (g : Graph) → IsGraph g → IsGraph (collect_class_ref_edges rows g)
unfolding collect_class_ref_edges
collect_class_ref_edges-IsGraph [] g h = h
collect_class_ref_edges-IsGraph (e ∷ rows) g h =
    collect_class_ref_edges-IsGraph rows
      (add_solid (get_class_node_id e.owner_class g) (get_class_node_id e.to g) (codes "class")
        class_color g)
      (add_solid-IsGraph (get_class_node_id e.owner_class g) (get_class_node_id e.to g)
        (codes "class") class_color g (get_class_node_id-Below e.owner_class g h)
        (get_class_node_id-Below e.to g h) h)

-- A row within the table.
pub row_within {ℓ} :
    {A : Type ℓ} (rows : List A) (i : ℕ) → i < length rows → (m : A) × (get_elem? rows i ≡ some m)
row_within [] i h = absurd (omega arith)
row_within (m ∷ rows) zero h = (m, refl)
row_within (m ∷ rows) (suc i) h = row_within rows i (omega arith)

module _ (get_c_string : ℕ → Bytes) where
  collect_missing_classes-IsGraph :
      (rows : List ClassRefRow) (g : Graph)
      → IsGraph g
      → IsGraph (collect_missing_classes get_c_string rows g)
  unfolding collect_missing_classes
  collect_missing_classes-IsGraph [] g h = h
  collect_missing_classes-IsGraph (r ∷ rows) g h =
      let name = get_c_string r.name in
      let dashed =
        add_dashed (get_class_node_id r.owner_class g) (name ++ codes " (missing)") name g in
      elim (Bool-cases (r.edge_count == 0)) [
        | inl e ↦ rw e (
            collect_missing_classes-IsGraph rows dashed (
              add_dashed-IsGraph (get_class_node_id r.owner_class g) (name ++ codes " (missing)")
                name g (get_class_node_id-Below r.owner_class g h) h))
        | inr e ↦ rw e (collect_missing_classes-IsGraph rows g h)
      ]

  collect_missing_members-IsGraph :
      (rows : List MemberRefRow) (g : Graph)
      → IsGraph g
      → IsGraph (collect_missing_members get_c_string rows g)
  unfolding collect_missing_members
  collect_missing_members-IsGraph [] g h = h
  collect_missing_members-IsGraph (r ∷ rows) g h =
      let key = missing_key get_c_string r in
      let dashed =
        add_dashed (get_class_node_id r.owner_class g) key (key ++ codes " (missing)") g in
      elim (Bool-cases (r.edge_count == 0)) [
        | inl e ↦ rw e (
            collect_missing_members-IsGraph rows dashed (
              add_dashed-IsGraph (get_class_node_id r.owner_class g) key (key ++ codes " (missing)")
                g (get_class_node_id-Below r.owner_class g h) h))
        | inr e ↦ rw e (collect_missing_members-IsGraph rows g h)
      ]

  collect_member_edges-IsGraph :
      (color : Bytes) (members : List MemberRow) (rows : List EdgeRow) (g : Graph)
      → All (λ e. e.to < length members) rows
      → IsGraph g
      → (g' : Graph) × (collect_member_edges get_c_string color members rows g ≡ ok g') × IsGraph g'
  unfolding collect_member_edges add_member_edge
  collect_member_edges-IsGraph color members [] g k h = (g, refl, h)
  collect_member_edges-IsGraph color members (e ∷ rows) g (p, k) h =
      let (m, at) = row_within members e.to p in
      let from = get_class_node_id e.owner_class g in
      let to = get_class_node_id m.owner_class g in
      let label = m.strong_name ++ (codes " " ++ get_c_string m.descriptor) in
      let (g', done, graph) =
        collect_member_edges-IsGraph color members rows (add_solid from to label color g) k (
          add_solid-IsGraph from to label color g (get_class_node_id-Below e.owner_class g h)
            (get_class_node_id-Below m.owner_class g h) h) in
      (g', rw at done, graph)

  -- The graph is collected where each edge of a method or field leads to a row of its table; each node's
  -- id is its place among the nodes, and every edge joins two of the nodes.
  pub collect-IsGraph :
      (t : GraphTables)
      → All (λ e. e.to < length t.methods) t.method_ref_edges
      → All (λ e. e.to < length t.fields) t.field_ref_edges
      → (g : Graph) × (collect get_c_string t ≡ ok g) × IsGraph g
  unfolding collect
  collect-IsGraph t hm hf =
      let g₀ = build_class_nodes t.class_files empty_graph in
      let g₁ =
        collect_missing_classes get_c_string t.class_refs
          (collect_class_ref_edges t.class_ref_edges g₀) in
      let (g₂, e₂, h₂) =
        collect_member_edges-IsGraph method_color t.methods t.method_ref_edges g₁ hm (
          collect_missing_classes-IsGraph t.class_refs
            (collect_class_ref_edges t.class_ref_edges g₀)
            (collect_class_ref_edges-IsGraph t.class_ref_edges g₀
              (build_class_nodes-IsGraph t.class_files empty_graph empty_graph-IsGraph))) in
      let (g₃, e₃, h₃) =
        collect_member_edges-IsGraph field_color t.fields t.field_ref_edges
          (collect_missing_members get_c_string t.method_refs g₂) hf
          (collect_missing_members-IsGraph t.method_refs g₂ h₂) in
      (
        collect_missing_members get_c_string t.field_refs g₃,
        rw (e₂, e₃) refl,
        collect_missing_members-IsGraph t.field_refs g₃ h₃,
      )
