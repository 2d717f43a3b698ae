-- ===== src/CallGraph/Link.antt =====
-- src/app/commands/callgraph/CallGraphAnalyzer.{h,cpp}: from references to edges.
use tarracsh.Prelude.{
  ℕ, Bool, true, false, ◌+◌, ◌%◌, ◌^◌, ◌==◌, ◌&&◌, Option, none, some, List, [], ◌∷◌, ◌++◌, map,
  length, get_elem?, if◌then◌else◌,
}
use tarracsh.Outcome.{Outcome, ok, fault, ◌>>=◌}
use tarracsh.CallGraph.Rows.{ClassFileRow, ClassRefRow, EdgeRow, new_edge, MemberRow, MemberRefRow}

-- `_classesByName[name]`, as `createClassnameIndex` fills it.
unfoldable pub classes_named : ℕ → List ClassFileRow → List ClassFileRow
classes_named name [] = []
classes_named name (c ∷ classes) =
    let rest = classes_named name classes in if c.classname == name then c ∷ rest else rest

-- `++pClassFileRow->refCount`
unfoldable pub refer_to_class : ℕ → List ClassFileRow → List ClassFileRow
refer_to_class id [] = []
refer_to_class id (c ∷ classes) =
    let rest = refer_to_class id classes in
    if c.id == id then record c { ref_count = (c.ref_count + 1) % 2 ^ 64 } ∷ classes else c ∷ rest

unfoldable pub refer_to_classes : List ClassFileRow → List ClassFileRow → List ClassFileRow
refer_to_classes [] classes = classes
refer_to_classes (c ∷ found) classes = refer_to_classes found (refer_to_class c.id classes)

-- A new edge of `linkClassRefs`, of which `from` and `to` are set.
unfoldable pub class_edge : ClassRefRow → ClassFileRow → EdgeRow
class_edge ref c = record new_edge { from = ref.id; to = c.id }

abbrev pub counted_class : ClassRefRow → List ClassFileRow → ClassRefRow
counted_class ref [] = ref
counted_class ref (c ∷ found) = record ref {
  edge_count = (ref.edge_count + length (c ∷ found)) % 2 ^ 64;
}

-- `_rows.contains(key)` for the key that `getKey` of the edge tables makes: the ids of both ends.
unfoldable pub has_edge : ℕ → ℕ → List EdgeRow → Bool
has_edge from to [] = false
has_edge from to (e ∷ edges) =
    let rest = has_edge from to edges in if e.from == from && e.to == to then true else rest

-- `add` of an edge table: `internalAdd` asserts that the key is new.
unfoldable pub add_edge_row : EdgeRow → List EdgeRow → Outcome (List EdgeRow)
add_edge_row e edges = if has_edge e.from e.to edges then fault else ok (edges ++ (e ∷ []))

unfoldable pub add_edge_rows : List EdgeRow → List EdgeRow → Outcome (List EdgeRow)
add_edge_rows [] edges = ok edges
add_edge_rows (e ∷ new) edges = add_edge_row e edges >>= add_edge_rows new

-- `linkClassRefs`: the class rows, the references and the table of edges.
unfoldable pub link_class_refs :
    List ClassFileRow
    → List ClassRefRow
    → List EdgeRow
    → Outcome (List ClassFileRow × (List ClassRefRow × List EdgeRow))
link_class_refs classes [] edges = ok (classes, ([], edges))
link_class_refs classes (ref ∷ refs) edges =
    let found = classes_named ref.name classes in
    add_edge_rows (map (class_edge ref) found) edges >>= λ edges'.
    link_class_refs (refer_to_classes found classes) refs edges' >>= λ (classes', (refs', all)).
    ok (classes', (counted_class ref found ∷ refs', all))

-- `createMemberIndex`: each member with the name of its class.
unfoldable pub owner_name : Option ClassFileRow → MemberRow → Outcome (ℕ × MemberRow)
owner_name none m = fault
owner_name (some c) m = ok (c.classname, m)

unfoldable pub create_member_index :
    List ClassFileRow → List MemberRow → Outcome (List (ℕ × MemberRow))
create_member_index classes [] = ok []
create_member_index classes (m ∷ members) =
    owner_name (get_elem? classes m.owner_class) m >>= λ entry.
    create_member_index classes members >>= λ index. ok (entry ∷ index)

-- `getMemberMatches`
unfoldable pub get_member_matches : List (ℕ × MemberRow) → MemberRefRow → List ℕ
get_member_matches [] ref = []
get_member_matches ((classname, m) ∷ index) ref =
    let rest = get_member_matches index ref in
    if classname == ref.classname && (m.name == ref.name && m.descriptor == ref.descriptor)
    then m.id ∷ rest
    else rest

-- A new edge of `linkMemberRefs`.
unfoldable pub member_edge : MemberRefRow → ℕ → EdgeRow
member_edge ref id = record { owner_class = ref.owner_class; from = ref.id; to = id }

abbrev pub counted_member : MemberRefRow → List ℕ → MemberRefRow
counted_member ref [] = ref
counted_member ref (id ∷ found) = record ref {
  edge_count = (ref.edge_count + length (id ∷ found)) % 2 ^ 64;
}

-- `++row.refCount`
unfoldable pub refer_to_member : ℕ → List MemberRow → List MemberRow
refer_to_member id [] = []
refer_to_member id (m ∷ members) =
    let rest = refer_to_member id members in
    if m.id == id then record m { ref_count = (m.ref_count + 1) % 2 ^ 64 } ∷ members else m ∷ rest

unfoldable pub refer_to_members : List ℕ → List MemberRow → List MemberRow
refer_to_members [] members = members
refer_to_members (id ∷ found) members = refer_to_members found (refer_to_member id members)

-- `linkMemberRefs`: the members, the references and the table of edges.
unfoldable pub link_member_refs :
    List (ℕ × MemberRow)
    → List MemberRow
    → List MemberRefRow
    → List EdgeRow
    → Outcome (List MemberRow × (List MemberRefRow × List EdgeRow))
link_member_refs index members [] edges = ok (members, ([], edges))
link_member_refs index members (ref ∷ refs) edges =
    let found = get_member_matches index ref in
    add_edge_rows (map (member_edge ref) found) edges >>= λ edges'.
    link_member_refs index (refer_to_members found members) refs edges'
    >>= λ (members', (refs', all)). ok (members', (counted_member ref found ∷ refs', all))
