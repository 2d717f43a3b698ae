-- ===== src/CallGraph/Owners.antt =====
-- Where the edges of `linkClassRefs` in src/app/commands/callgraph/CallGraphAnalyzer.cpp start in the
-- graph of CallGraphExporter.cpp.
use tarracsh.Prelude.{
  ℕ, ◌≡◌, refl, Option, none, some, List, [], ◌∷◌, ◌++◌, map, All, All-append, subst, sym, codes,
}
use tarracsh.ClassFile.Pool.{Bytes}
use tarracsh.CallGraph.Rows.{ClassFileRow, ClassRefRow, EdgeRow}
use tarracsh.CallGraph.Link.{classes_named, refer_to_classes, class_edge, link_class_refs}
use tarracsh.Outcome.{ok}
use tarracsh.CallGraph.Links.{class_links, link_class_refs-class_links}
use tarracsh.CallGraph.NewEdges.{Placed}
use tarracsh.CallGraph.Exporter.{
  EdgeRecord, class_color, Graph, find_id, get_class_node_id, add_solid, collect_class_ref_edges,
}

abbrev Unowned : EdgeRow → Type 0
Unowned e = e.owner_class ≡ 0

map-Unowned :
    (ref : ClassRefRow) (found : List ClassFileRow) (rest : List EdgeRow)
    → All Unowned rest
    → All Unowned (map (class_edge ref) found ++ rest)
unfolding class_edge
map-Unowned ref [] rest h = h
map-Unowned ref (c ∷ found) rest h = (refl, map-Unowned ref found rest h)

class_links-Unowned :
    (classes : List ClassFileRow) (refs : List ClassRefRow)
    → All Unowned (class_links classes refs).1.1
unfolding class_links
class_links-Unowned classes [] = tt
class_links-Unowned classes (ref ∷ refs) =
    let found = classes_named ref.name classes in
    map-Unowned ref found (class_links (refer_to_classes found classes) refs).1.1
      (class_links-Unowned (refer_to_classes found classes) refs)

abbrev StartsAt : ℕ → EdgeRecord → Type 0
StartsAt n e = e.from ≡ n

add_solid-StartsAt :
    (n : ℕ) (to : Option ℕ) (label color : Bytes) (g : Graph)
    → All (StartsAt n) g.edges
    → All (StartsAt n) (add_solid (some n) to label color g).edges
unfolding add_solid
add_solid-StartsAt n none label color g h = h
add_solid-StartsAt n (some to) label color g h =
    All-append (StartsAt n) g.edges
      (record { from = n; to = to; label = label; color = color; style = codes "solid" }) h refl

-- The nodes of the classes stay.
add_solid-class_node_ids :
    (from to : Option ℕ) (label color : Bytes) (g : Graph)
    → (add_solid from to label color g).class_node_ids ≡ g.class_node_ids
unfolding add_solid
add_solid-class_node_ids none to label color g = refl
add_solid-class_node_ids (some from) none label color g = refl
add_solid-class_node_ids (some from) (some to) label color g = refl

collect_class_ref_edges-StartsAt :
    (rows : List EdgeRow) (n : ℕ) (g : Graph)
    → All Unowned rows
    → find_id 0 g.class_node_ids ≡ some n
    → All (StartsAt n) g.edges
    → All (StartsAt n) (collect_class_ref_edges rows g).edges
unfolding collect_class_ref_edges get_class_node_id
collect_class_ref_edges-StartsAt [] n g k e h = h
collect_class_ref_edges-StartsAt (row ∷ rows) n g (p, k) e h =
    let to = find_id row.to g.class_node_ids in
    let g' =
      add_solid (find_id row.owner_class g.class_node_ids) to (codes "class") class_color g in
    let start : find_id row.owner_class g.class_node_ids ≡ some n = rw p e in
    collect_class_ref_edges-StartsAt rows n g' k
      (rw
        (add_solid-class_node_ids (find_id row.owner_class g.class_node_ids) to (codes "class")
          class_color g)
        e)
      (rw start (add_solid-StartsAt n to (codes "class") class_color g h))

-- Of references to classes in tables where ids are places: linking succeeds, and of the new edges,
-- collected, every one starts at the node of the class with the id 0, whichever class refers.
pub collect_class_ref_edges-link_class_refs :
    (classes : List ClassFileRow) (refs : List ClassRefRow) (g : Graph) (n : ℕ)
    → Placed (λ c. c.id) 0 classes
    → Placed (λ r. r.id) 0 refs
    → get_class_node_id 0 g ≡ some n
    → g.edges ≡ []
    → (linked : List ClassFileRow × (List ClassRefRow × List EdgeRow)) × (link_class_refs classes
          refs []
        ≡ ok linked)
      × All (λ e. e.from ≡ n) (collect_class_ref_edges linked.1.1 g).edges
unfolding get_class_node_id
collect_class_ref_edges-link_class_refs classes refs g n hc hr e none_yet = (
  class_links classes refs,
  link_class_refs-class_links classes refs hc hr,
  collect_class_ref_edges-StartsAt (class_links classes refs).1.1 n g
      (class_links-Unowned classes refs) e (subst (λ es. All (StartsAt n) es) (sym none_yet) tt),
)
