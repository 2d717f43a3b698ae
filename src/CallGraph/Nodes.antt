-- ===== src/CallGraph/Nodes.antt =====
-- The nodes that the edges of src/app/commands/callgraph/CallGraphExporter.cpp refer to.
use tarracsh.Prelude.{
  All-weaken, All-append, ℕ, suc, ◌+◌, ◌<◌, ◌≤◌, ◌==◌, ◌≡◌, Bool, true, false, Option, none, some,
  List, [], ◌∷◌, ◌++◌, length, length-append, All, Bool-cases, inl, inr, arith,
}
use tarracsh.ClassFile.Pool.{Bytes}
use tarracsh.Digest.Class.{equal}
use tarracsh.Diff.Names.{NameMap, find}
use tarracsh.Diff.Readable.{Kept, put-Kept}
use tarracsh.CallGraph.Rows.{ClassFileRow}
use tarracsh.CallGraph.Exporter.{
  NodeRecord, EdgeRecord, Graph, empty_graph, add_node, add_class_node, build_class_nodes, find_id,
  get_class_node_id, known_or_new, get_missing_node_id, add_edge,
}

-- The ids count up from `i`.
abbrev pub Numbered : ℕ → List NodeRecord → Type 0
Numbered i [] = Unit
Numbered i (n ∷ nodes) = (n.id ≡ i) × Numbered (suc i) nodes

abbrev pub EdgeWithin : ℕ → EdgeRecord → Type 0
EdgeWithin n e = (e.from < n) × (e.to < n)

-- Each node's id is its place, and every edge, and every id kept for later, is one of these.
pub record IsGraph (g : Graph) : Type 0 where
  pub numbered : Numbered 0 g.nodes
  pub classes : All (λ entry. entry.1 < length g.nodes) g.class_node_ids
  pub missing : Kept (λ n. n < length g.nodes) g.missing_node_ids
  pub edges : All (EdgeWithin (length g.nodes)) g.edges

-- An id that was found, if one was.
abbrev pub Below : ℕ → Option ℕ → Type 0
Below n none = Unit
Below n (some id) = id < n

Numbered-append :
    (i : ℕ) (nodes : List NodeRecord) (n : NodeRecord)
    → Numbered i nodes
    → n.id ≡ i + length nodes
    → Numbered i (nodes ++ (n ∷ []))
Numbered-append i [] n h e = (omega (arith, e), tt)
Numbered-append i (m ∷ nodes) n (p, h) e = (p, Numbered-append (suc i) nodes n h (omega (arith, e)))

Kept-weaken : (P Q : ℕ → Type 0) (m : NameMap ℕ) → ((n : ℕ) → P n → Q n) → Kept P m → Kept Q m
Kept-weaken P Q [] k h = tt
Kept-weaken P Q ((name, n) ∷ m) k (p, h) = (k n p, Kept-weaken P Q m k h)

length-add_node :
    (g : Graph) (label : Bytes) (b : Bool)
    → length (add_node label b g).nodes ≡ suc (length g.nodes)
length-add_node g label b = omega (
  arith,
  length-append g.nodes (record { id = length g.nodes; label = label; is_missing = b } ∷ []),
)

below_grown :
    (g : Graph) (label : Bytes) (b : Bool) (n : ℕ)
    → n < length g.nodes
    → n < length (add_node label b g).nodes
below_grown g label b n h = omega (arith, length-add_node g label b, h)

add_node-IsGraph : (label : Bytes) (b : Bool) (g : Graph) → IsGraph g → IsGraph (add_node label b g)
add_node-IsGraph label b g h = record {
  numbered =
      Numbered-append 0 g.nodes (record { id = length g.nodes; label = label; is_missing = b })
        h.numbered (omega arith);
  classes =
      All-weaken (λ entry. entry.1 < length g.nodes)
        (λ entry. entry.1 < length (add_node label b g).nodes) g.class_node_ids
        (λ entry p. below_grown g label b entry.1 p) h.classes;
  missing =
      Kept-weaken (λ n. n < length g.nodes) (λ n. n < length (add_node label b g).nodes)
        g.missing_node_ids (below_grown g label b) h.missing;
  edges =
      All-weaken (EdgeWithin (length g.nodes)) (EdgeWithin (length (add_node label b g).nodes))
        g.edges (λ e p. (below_grown g label b e.from p.0, below_grown g label b e.to p.1)) h.edges;
}

add_class_node-IsGraph :
    (row : ClassFileRow) (g : Graph) → IsGraph g → IsGraph (add_class_node row g)
unfolding add_class_node
add_class_node-IsGraph row g h =
    let n = add_node-IsGraph row.strong_classname false g h in
    record {
      numbered = n.numbered;
      classes = (omega (arith, length-add_node g row.strong_classname false), n.classes);
      missing = n.missing;
      edges = n.edges;
    }

pub build_class_nodes-IsGraph :
    (rows : List ClassFileRow) (g : Graph) → IsGraph g → IsGraph (build_class_nodes rows g)
unfolding build_class_nodes
build_class_nodes-IsGraph [] g h = h
build_class_nodes-IsGraph (row ∷ rows) g h =
    build_class_nodes-IsGraph rows (add_class_node row g) (add_class_node-IsGraph row g h)

find_id-Below :
    (k n : ℕ) (ids : List (ℕ × ℕ)) → All (λ entry. entry.1 < n) ids → Below n (find_id k ids)
unfolding find_id
find_id-Below k n [] h = tt
find_id-Below k n ((id, node) ∷ ids) (p, h) = elim (Bool-cases (id == k)) [
  | inl e ↦ rw e p
  | inr e ↦ rw e (find_id-Below k n ids h)
]

pub get_class_node_id-Below :
    (k : ℕ) (g : Graph) → IsGraph g → Below (length g.nodes) (get_class_node_id k g)
unfolding get_class_node_id
get_class_node_id-Below k g h = find_id-Below k (length g.nodes) g.class_node_ids h.classes

find-Below : (label : Bytes) (n : ℕ) (m : NameMap ℕ) → Kept (λ i. i < n) m → Below n (find label m)
unfolding find
find-Below label n [] h = tt
find-Below label n ((name, i) ∷ m) (p, h) = elim (Bool-cases (equal label name)) [
  | inl e ↦ rw e p
  | inr e ↦ rw e (find-Below label n m h)
]

-- The graph with a node for what is missing, and its id.
abbrev pub Found : ℕ → ℕ × Graph → Type 0
Found n (id, g) = (id < length g.nodes) × IsGraph g × (n ≤ length g.nodes)

known_or_new-Found :
    (label : Bytes) (o : Option ℕ) (g : Graph)
    → Below (length g.nodes) o
    → IsGraph g
    → Found (length g.nodes) (known_or_new label o g)
known_or_new-Found label (some id) g b h = (b, h, omega arith)
known_or_new-Found label none g b h =
    let n = add_node-IsGraph label true g h in
    (
      omega (arith, length-add_node g label true),
      record {
        numbered = n.numbered;
        classes = n.classes;
        missing =
            put-Kept (λ i. i < length (add_node label true g).nodes) label (length g.nodes)
              g.missing_node_ids (omega (arith, length-add_node g label true)) n.missing;
        edges = n.edges;
      },
      omega (arith, length-add_node g label true),
    )

pub get_missing_node_id-Found :
    (label : Bytes) (g : Graph) → IsGraph g → Found (length g.nodes) (get_missing_node_id label g)
unfolding get_missing_node_id
get_missing_node_id-Found label g h =
    known_or_new-Found label (find label g.missing_node_ids) g
      (find-Below label (length g.nodes) g.missing_node_ids h.missing) h

pub add_edge-IsGraph :
    (e : EdgeRecord) (g : Graph)
    → EdgeWithin (length g.nodes) e
    → IsGraph g
    → IsGraph (add_edge e g)
add_edge-IsGraph e g p h = record {
  numbered = h.numbered;
  classes = h.classes;
  missing = h.missing;
  edges = All-append (EdgeWithin (length g.nodes)) g.edges e h.edges p;
}

pub empty_graph-IsGraph : IsGraph empty_graph
empty_graph-IsGraph = record { numbered = tt; classes = tt; missing = tt; edges = tt }
