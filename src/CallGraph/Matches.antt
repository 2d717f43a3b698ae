-- ===== src/CallGraph/Matches.antt =====
-- Which references src/app/commands/callgraph/CallGraphAnalyzer.h links to which members.
use tarracsh.Prelude.{
  ℕ, ◌≡◌, ◌↔◌, refl, sym, ◌∙◌, ap, subst, List, [], ◌∷◌, map, Among, Among-append_left,
  Among-append_right, Among-append_cases, inl, inr,
}
use tarracsh.Outcome.{ok}
use tarracsh.CallGraph.Rows.{ClassFileRow, EdgeRow, MemberRow, MemberRefRow}
use tarracsh.CallGraph.Link.{
  create_member_index, get_member_matches, member_edge, refer_to_members, link_member_refs,
}
use tarracsh.CallGraph.Links.{member_links, link_member_refs-member_links}
use tarracsh.CallGraph.NewEdges.{Placed}
use tarracsh.CallGraph.Indexes.{
  Names, InClass, found_named, named_found, indexed_member, member_indexed,
}

-- The reference names the member: its class, its name and its descriptor.
abbrev pub Refers : List ClassFileRow → MemberRefRow → MemberRow → Type 0
Refers classes ref m = (x : ℕ) × InClass classes x m × Names x m ref

-- An edge of a reference to a member that it names.
abbrev pub Linked : List ClassFileRow → List MemberRow → List MemberRefRow → EdgeRow → Type 0
Linked classes members refs e =
    (ref : MemberRefRow) × (m : MemberRow) × Among ref refs
    × Among m members
    × Refers classes ref m
    × (e ≡ member_edge ref m.id)

edge_found :
    (ref : MemberRefRow) (found : List ℕ) (e : EdgeRow)
    → Among e (map (member_edge ref) found)
    → (id : ℕ) × Among id found × (e ≡ member_edge ref id)
edge_found ref [] e h = absurd h
edge_found ref (id ∷ found) e (inl is) = (id, inl refl, is)
edge_found ref (id ∷ found) e (inr h) =
    let (id', among, is) = edge_found ref found e h in (id', inr among, is)

found_edge :
    (ref : MemberRefRow) (found : List ℕ) (id : ℕ)
    → Among id found
    → Among (member_edge ref id) (map (member_edge ref) found)
found_edge ref [] id h = absurd h
found_edge ref (i ∷ found) id (inl is) = inl (ap (member_edge ref) is)
found_edge ref (i ∷ found) id (inr h) = inr (found_edge ref found id h)

module _ (classes : List ClassFileRow) (table : List MemberRow) (index : List (ℕ × MemberRow))
    (indexed : create_member_index classes table ≡ ok index) where
  edge-Linked :
      (members : List MemberRow) (refs : List MemberRefRow) (e : EdgeRow)
      → Among e (member_links index members refs).1.1
      → Linked classes table refs e
  unfolding member_links
  edge-Linked members [] e h = absurd h
  edge-Linked members (ref ∷ refs) e h =
      let found = get_member_matches index ref in
      let rest = member_links index (refer_to_members found members) refs in
      elim (Among-append_cases e (map (member_edge ref) found) rest.1.1 h) [
        | inl here ↦
            let (id, among, is) = edge_found ref found e here in
            let (x, m, entry, names, m_id) = found_named index ref id among in
            let (known, member) = indexed_member classes table index x m indexed entry in
            (ref, m, inl refl, member, (x, known, names), is ∙ ap (member_edge ref) (sym m_id))
        | inr later ↦
            let (ref', m, among, member, refers, is) =
              edge-Linked (refer_to_members found members) refs e later in
            (ref', m, inr among, member, refers, is)
      ]

  Linked-edge :
      (members : List MemberRow) (refs : List MemberRefRow) (ref : MemberRefRow) (m : MemberRow)
      → Among ref refs
      → Among m table
      → Refers classes ref m
      → Among (member_edge ref m.id) (member_links index members refs).1.1
  unfolding member_links
  Linked-edge members [] ref m h member refers = absurd h
  Linked-edge members (r ∷ refs) ref m (inl is) member (x, known, names) =
      let found = get_member_matches index r in
      Among-append_left (member_edge ref m.id) (map (member_edge r) found)
        (member_links index (refer_to_members found members) refs).1.1
        (subst (λ (q : MemberRefRow). Among (member_edge q m.id) (map (member_edge r) found))
          (sym is)
          (found_edge r found m.id (
            named_found index r x m (member_indexed classes table index x m indexed known member)
              (subst (λ q. Names x m q) is names))))
  Linked-edge members (r ∷ refs) ref m (inr h) member refers =
      let found = get_member_matches index r in
      Among-append_right (member_edge ref m.id) (map (member_edge r) found)
        (member_links index (refer_to_members found members) refs).1.1
        (Linked-edge (refer_to_members found members) refs ref m h member refers)

-- With an index that was made of the classes and members, where ids are places, linking succeeds, and
-- an edge is among the new ones exactly when it leads from one of the references to a member with the
-- class, name and descriptor that it names.
pub link_member_refs-Linked :
    (classes : List ClassFileRow) (members : List MemberRow) (refs : List MemberRefRow)
    (index : List (ℕ × MemberRow)) (e : EdgeRow)
    → create_member_index classes members ≡ ok index
    → Placed (λ m. m.id) 0 members
    → Placed (λ r. r.id) 0 refs
    → (linked : List MemberRow × (List MemberRefRow × List EdgeRow)) × (link_member_refs index
          members refs []
        ≡ ok linked)
      × (Among e linked.1.1 ↔ Linked classes members refs e)
link_member_refs-Linked classes members refs index e indexed hm hr = (
  member_links index members refs,
  link_member_refs-member_links classes members refs index indexed hm hr,
  (
    edge-Linked classes members index indexed members refs e,
    λ linked.
        let (ref, m, among, member, refers, is) = linked in
        subst (λ e. Among e (member_links index members refs).1.1) (sym is)
          (Linked-edge classes members index indexed members refs ref m among member refers),
  ),
)
