-- ===== src/CallGraph/Exporter.antt =====
-- src/app/commands/callgraph/CallGraphExporter.cpp: the nodes and edges of the graph.
use tarracsh.Prelude.{
  ℕ, true, false, Bool, ◌==◌, Option, none, some, List, [], ◌∷◌, ◌++◌, length, get_elem?, codes,
  if◌then◌else◌,
}
use tarracsh.Outcome.{Outcome, ok, fault, ◌>>=◌}
use tarracsh.ClassFile.Pool.{Bytes}
use tarracsh.Diff.Names.{NameMap, find, put}
use tarracsh.CallGraph.Rows.{ClassFileRow, ClassRefRow, EdgeRow, MemberRow, MemberRefRow}

pub record NodeRecord : Type 0 where
  pub id : ℕ
  pub label : Bytes
  pub is_missing : Bool

pub record EdgeRecord : Type 0 where
  pub from : ℕ
  pub to : ℕ
  pub label : Bytes
  pub color : Bytes
  pub style : Bytes

abbrev pub class_color : Bytes
class_color = codes "#4F81BD"

abbrev pub method_color : Bytes
method_color = codes "#70AD47"

abbrev pub field_color : Bytes
field_color = codes "#ED7D31"

abbrev pub missing_color : Bytes
missing_color = codes "#C00000"

-- `_nodes`, `_classNodeIds` and `_missingNodeIds`, and the edges so far. The nodes are fewer than
-- 2 ^ 31, so that an id is an int.
pub record Graph : Type 0 where
  pub nodes : List NodeRecord
  pub class_node_ids : List (ℕ × ℕ)
  pub missing_node_ids : NameMap ℕ
  pub edges : List EdgeRecord

abbrev pub empty_graph : Graph
empty_graph = record { nodes = []; class_node_ids = []; missing_node_ids = []; edges = [] }

abbrev pub add_node : Bytes → Bool → Graph → Graph
add_node label is_missing g = record g {
  nodes = g.nodes ++ (record { id = length g.nodes; label = label; is_missing = is_missing } ∷ []);
}

-- A round of `buildClassNodes`; a class row has an id of its own, so the map gets a new key.
unfoldable pub add_class_node : ClassFileRow → Graph → Graph
add_class_node row g = record (add_node row.strong_classname false g) {
  class_node_ids = (row.id, length g.nodes) ∷ g.class_node_ids;
}

unfoldable pub build_class_nodes : List ClassFileRow → Graph → Graph
build_class_nodes [] g = g
build_class_nodes (row ∷ rows) g = build_class_nodes rows (add_class_node row g)

-- `getClassNodeId`; `none` is -1.
unfoldable pub find_id : ℕ → List (ℕ × ℕ) → Option ℕ
find_id class_id [] = none
find_id class_id ((id, node) ∷ ids) =
    let rest = find_id class_id ids in if id == class_id then some node else rest

unfoldable pub get_class_node_id : ℕ → Graph → Option ℕ
get_class_node_id class_id g = find_id class_id g.class_node_ids

-- `getMissingNodeId`
abbrev pub known_or_new : Bytes → Option ℕ → Graph → ℕ × Graph
known_or_new label (some id) g = (id, g)
known_or_new label none g = (
  length g.nodes,
  record (add_node label true g) {
    missing_node_ids = put label (length g.nodes) g.missing_node_ids;
  },
)

unfoldable pub get_missing_node_id : Bytes → Graph → ℕ × Graph
get_missing_node_id label g = known_or_new label (find label g.missing_node_ids) g

abbrev pub add_edge : EdgeRecord → Graph → Graph
add_edge e g = record g { edges = g.edges ++ (e ∷ []) }

-- A solid edge where both ends are known.
unfoldable pub add_solid : Option ℕ → Option ℕ → Bytes → Bytes → Graph → Graph
add_solid (some from) (some to) label color g =
    add_edge (record { from = from; to = to; label = label; color = color; style = codes "solid" })
      g
add_solid from to label color g = g

-- A dashed edge to a node that stands for what is missing.
unfoldable pub add_dashed : Option ℕ → Bytes → Bytes → Graph → Graph
add_dashed none key label g = g
add_dashed (some from) key label g =
    let (to, g') = get_missing_node_id key g in
    add_edge
      (record {
        from = from;
        to = to;
        label = label;
        color = missing_color;
        style = codes "dashed";
      })
      g'

-- The first loop of `collectClassEdges`.
unfoldable pub collect_class_ref_edges : List EdgeRow → Graph → Graph
collect_class_ref_edges [] g = g
collect_class_ref_edges (e ∷ rows) g = collect_class_ref_edges rows (
    add_solid (get_class_node_id e.owner_class g) (get_class_node_id e.to g) (codes "class")
      class_color g)

-- `methods->getRow(edgeRow.to.id)` and what the loop does with it, its label with the descriptor.
unfoldable pub add_member_edge :
    (ℕ → Bytes) → Bytes → EdgeRow → Option MemberRow → Graph → Outcome Graph
add_member_edge get_c_string color e none g = fault
add_member_edge get_c_string color e (some m) g = ok (
    add_solid (get_class_node_id e.owner_class g) (get_class_node_id m.owner_class g)
      (m.strong_name ++ (codes " " ++ get_c_string m.descriptor)) color g)

-- `getCString` is a parameter of the loops that show names.
module _ (get_c_string : ℕ → Bytes) where
  -- The second loop of `collectClassEdges`.
  unfoldable pub collect_missing_classes : List ClassRefRow → Graph → Graph
  collect_missing_classes [] g = g
  collect_missing_classes (r ∷ rows) g =
      let name = get_c_string r.name in
      let g' =
        if r.edge_count == 0
        then add_dashed (get_class_node_id r.owner_class g) (name ++ codes " (missing)") name g
        else g in
      collect_missing_classes rows g'

  -- The loops of `collectMethodEdges` and `collectFieldEdges`, which differ in the color.
  unfoldable pub collect_member_edges :
      Bytes → List MemberRow → List EdgeRow → Graph → Outcome Graph
  collect_member_edges color members [] g = ok g
  collect_member_edges color members (e ∷ rows) g =
      add_member_edge get_c_string color e (get_elem? members e.to) g
      >>= collect_member_edges color members rows

  -- `{}#{} {}`
  abbrev pub missing_key : MemberRefRow → Bytes
  missing_key r =
      get_c_string r.classname
      ++ (codes "#" ++ (get_c_string r.name ++ (codes " " ++ get_c_string r.descriptor)))

  unfoldable pub collect_missing_members : List MemberRefRow → Graph → Graph
  collect_missing_members [] g = g
  collect_missing_members (r ∷ rows) g =
      let key = missing_key r in
      let g' =
        if r.edge_count == 0
        then add_dashed (get_class_node_id r.owner_class g) key (key ++ codes " (missing)") g
        else g in
      collect_missing_members rows g'

-- The tables that the exporter reads.
pub record GraphTables : Type 0 where
  pub class_files : List ClassFileRow
  pub class_ref_edges : List EdgeRow
  pub class_refs : List ClassRefRow
  pub methods : List MemberRow
  pub method_ref_edges : List EdgeRow
  pub method_refs : List MemberRefRow
  pub fields : List MemberRow
  pub field_ref_edges : List EdgeRow
  pub field_refs : List MemberRefRow

-- `buildClassNodes` and `collectEdges`, as `run` calls them where there are nodes.
unfoldable pub collect : (ℕ → Bytes) → GraphTables → Outcome Graph
collect get_c_string t =
    let g = build_class_nodes t.class_files empty_graph in
    let g' =
      collect_missing_classes get_c_string t.class_refs
        (collect_class_ref_edges t.class_ref_edges g) in
    collect_member_edges get_c_string method_color t.methods t.method_ref_edges g' >>= λ g.
    let g' = collect_missing_members get_c_string t.method_refs g in
    collect_member_edges get_c_string field_color t.fields t.field_ref_edges g' >>= λ g.
    ok (collect_missing_members get_c_string t.field_refs g)
