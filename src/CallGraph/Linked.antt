-- ===== src/CallGraph/Linked.antt =====
-- The edges that src/app/commands/callgraph/CallGraphAnalyzer.h makes of references to members lead
-- to rows of the members' table.
use tarracsh.Prelude.{
  ℕ, suc, ◌<◌, ◌≤◌, ◌+◌, arith, ◌==◌, ◌&&◌, ◌≡◌, refl, sym, ◌∙◌, ap, subst, List, [], ◌∷◌, ◌++◌,
  map, length, All, Bool-cases, inl, inr,
}
use tarracsh.Outcome.{ok}
use tarracsh.ClassFile.Pool.{Bytes}
use tarracsh.CallGraph.Rows.{ClassFileRow, EdgeRow, MemberRow, MemberRefRow}
use tarracsh.CallGraph.Link.{
  create_member_index, owner_name, get_member_matches, member_edge, refer_to_member,
  refer_to_members,
}
use tarracsh.CallGraph.Links.{
  length-class_links, class_links, member_links, link_class_refs-class_links,
  link_member_refs-member_links,
}
use tarracsh.CallGraph.NewEdges.{Placed}
use tarracsh.CallGraph.Exporter.{GraphTables, Graph, collect}
use tarracsh.CallGraph.Nodes.{IsGraph}
use tarracsh.CallGraph.Ends.{row_within, collect-IsGraph}
use tarracsh.CallGraph.Analysis.{link_ref_nodes}

-- Each id is a place below `n`, each class one of the classes.
abbrev MembersWithin : List ClassFileRow → ℕ → List MemberRow → Type 0
MembersWithin classes n members = All (λ m. (m.id < n) × (m.owner_class < length classes)) members

abbrev IndexWithin : ℕ → List (ℕ × MemberRow) → Type 0
IndexWithin n index = All (λ entry. entry.1.id < n) index

create_member_index-IndexWithin :
    (classes : List ClassFileRow) (n : ℕ) (members : List MemberRow)
    → MembersWithin classes n members
    → (index : List (ℕ × MemberRow)) × (create_member_index classes members ≡ ok index)
      × IndexWithin n index
unfolding create_member_index owner_name
create_member_index-IndexWithin classes n [] h = ([], refl, tt)
create_member_index-IndexWithin classes n (m ∷ members) ((p, q), h) =
    let (c, at) = row_within classes m.owner_class q in
    let (index, done, within) = create_member_index-IndexWithin classes n members h in
    ((c.classname, m) ∷ index, rw (at, done) refl, (p, within))

get_member_matches-within :
    (n : ℕ) (index : List (ℕ × MemberRow)) (ref : MemberRefRow)
    → IndexWithin n index
    → All (λ id. id < n) (get_member_matches index ref)
unfolding get_member_matches
get_member_matches-within n [] ref h = tt
get_member_matches-within n ((classname, m) ∷ index) ref (p, h) =
    let same =
      classname == ref.classname && (m.name == ref.name && m.descriptor == ref.descriptor) in
    elim (Bool-cases same) [
      | inl e ↦ rw e (p, get_member_matches-within n index ref h)
      | inr e ↦ rw e (get_member_matches-within n index ref h)
    ]

length-refer_to_member :
    (id : ℕ) (members : List MemberRow) → length (refer_to_member id members) ≡ length members
unfolding refer_to_member
length-refer_to_member id [] = refl
length-refer_to_member id (m ∷ members) = elim (Bool-cases (m.id == id)) [
  | inl e ↦ rw e refl
  | inr e ↦ rw e (ap suc (length-refer_to_member id members))
]

length-refer_to_members :
    (found : List ℕ) (members : List MemberRow)
    → length (refer_to_members found members) ≡ length members
unfolding refer_to_members
length-refer_to_members [] members = refl
length-refer_to_members (id ∷ found) members =
    length-refer_to_members found (refer_to_member id members) ∙ length-refer_to_member id members

abbrev EdgesWithin : ℕ → List EdgeRow → Type 0
EdgesWithin n edges = All (λ e. e.to < n) edges

append-EdgesWithin :
    (n : ℕ) (left right : List EdgeRow)
    → EdgesWithin n left
    → EdgesWithin n right
    → EdgesWithin n (left ++ right)
append-EdgesWithin n [] right h k = k
append-EdgesWithin n (e ∷ left) right (p, h) k = (p, append-EdgesWithin n left right h k)

map-EdgesWithin :
    (n : ℕ) (ref : MemberRefRow) (found : List ℕ)
    → All (λ id. id < n) found
    → EdgesWithin n (map (member_edge ref) found)
unfolding member_edge
map-EdgesWithin n ref [] h = tt
map-EdgesWithin n ref (id ∷ found) (p, h) = (p, map-EdgesWithin n ref found h)

member_links-EdgesWithin :
    (n : ℕ) (index : List (ℕ × MemberRow)) (members : List MemberRow) (refs : List MemberRefRow)
    → IndexWithin n index
    → EdgesWithin n (member_links index members refs).1.1
unfolding member_links
member_links-EdgesWithin n index members [] h = tt
member_links-EdgesWithin n index members (ref ∷ refs) h =
    let found = get_member_matches index ref in
    append-EdgesWithin n (map (member_edge ref) found)
      (member_links index (refer_to_members found members) refs).1.1
      (map-EdgesWithin n ref found (get_member_matches-within n index ref h))
      (member_links-EdgesWithin n index (refer_to_members found members) refs h)

length-member_links :
    (index : List (ℕ × MemberRow)) (members : List MemberRow) (refs : List MemberRefRow)
    → length (member_links index members refs).0 ≡ length members
unfolding member_links
length-member_links index members [] = refl
length-member_links index members (ref ∷ refs) =
    let found = get_member_matches index ref in
    length-member_links index (refer_to_members found members) refs
    ∙ length-refer_to_members found members

linked_within :
    (index : List (ℕ × MemberRow)) (members : List MemberRow) (refs : List MemberRefRow)
    → IndexWithin (length members) index
    → EdgesWithin (length (member_links index members refs).0) (member_links index members refs).1.1
linked_within index members refs h =
    subst (λ n. EdgesWithin n (member_links index members refs).1.1)
      (sym (length-member_links index members refs))
      (member_links-EdgesWithin (length members) index members refs h)

-- Tables that are not linked yet: ids are places, the classes of members are places in the table of
-- classes, and there are no edges.
pub record Unlinked (t : GraphTables) : Type 0 where
  pub classes : Placed (λ c. c.id) 0 t.class_files
  pub class_refs : Placed (λ r. r.id) 0 t.class_refs
  pub methods : Placed (λ m. m.id) 0 t.methods
  pub method_refs : Placed (λ r. r.id) 0 t.method_refs
  pub fields : Placed (λ m. m.id) 0 t.fields
  pub field_refs : Placed (λ r. r.id) 0 t.field_refs
  pub method_owners : All (λ m. m.owner_class < length t.class_files) t.methods
  pub field_owners : All (λ m. m.owner_class < length t.class_files) t.fields
  pub no_class_edges : t.class_ref_edges ≡ []
  pub no_method_edges : t.method_ref_edges ≡ []
  pub no_field_edges : t.field_ref_edges ≡ []

Placed-MembersWithin :
    (classes : List ClassFileRow) (n i : ℕ) (members : List MemberRow)
    → Placed (λ m. m.id) i members
    → All (λ m. m.owner_class < length classes) members
    → i + length members ≤ n
    → MembersWithin classes n members
Placed-MembersWithin classes n i [] h k l = tt
Placed-MembersWithin classes n i (m ∷ members) (p, h) (q, k) l = (
  (omega (arith, p, l), q),
  Placed-MembersWithin classes n (suc i) members h k (omega (arith, l)),
)

-- Of tables that are not linked yet, linking and collecting succeed, there are as many classes as
-- before, and in the graph each node's id is its place and every edge joins two of the nodes.
pub collect-link_ref_nodes :
    (get_c_string : ℕ → Bytes) (t : GraphTables)
    → Unlinked t
    → (t' : GraphTables) × (g : Graph) × (link_ref_nodes t ≡ ok t')
      × (length t'.class_files ≡ length t.class_files)
      × (collect get_c_string t' ≡ ok g)
      × IsGraph g
unfolding link_ref_nodes
collect-link_ref_nodes get_c_string t u =
    let (mi, em, wm) = create_member_index-IndexWithin t.class_files (length t.methods) t.methods (
      Placed-MembersWithin t.class_files (length t.methods) 0 t.methods u.methods u.method_owners
        (omega arith)) in
    let (fi, ef, wf) = create_member_index-IndexWithin t.class_files (length t.fields) t.fields (
      Placed-MembersWithin t.class_files (length t.fields) 0 t.fields u.fields u.field_owners
        (omega arith)) in
    let classes = class_links t.class_files t.class_refs in
    let methods = member_links mi t.methods t.method_refs in
    let fields = member_links fi t.fields t.field_refs in
    let t' : GraphTables = record {
      class_files = classes.0;
      class_ref_edges = classes.1.1;
      class_refs = classes.1.0;
      methods = methods.0;
      method_ref_edges = methods.1.1;
      method_refs = methods.1.0;
      fields = fields.0;
      field_ref_edges = fields.1.1;
      field_refs = fields.1.0;
    } in
    let (g, done, graph) =
      collect-IsGraph get_c_string t' (linked_within mi t.methods t.method_refs wm)
        (linked_within fi t.fields t.field_refs wf) in
    (
      t',
      g,
      rw
          (
            em,
            ef,
            u.no_class_edges,
            u.no_method_edges,
            u.no_field_edges,
            link_class_refs-class_links t.class_files t.class_refs u.classes u.class_refs,
            link_member_refs-member_links t.class_files t.methods t.method_refs mi em u.methods
                u.method_refs,
            link_member_refs-member_links t.class_files t.fields t.field_refs fi ef u.fields
                u.field_refs,
          )
          refl,
      length-class_links t.class_files t.class_refs,
      done,
      graph,
    )
