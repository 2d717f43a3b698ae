-- ===== src/CallGraph/Links.antt =====
-- What linking in src/app/commands/callgraph/CallGraphAnalyzer.{h,cpp} comes to where each edge is new:
-- the rows that are counted, and the edges that are added, in a table that has none yet.
use tarracsh.Prelude.{
  ℕ, suc, ◌==◌, ◌&&◌, ◌≡◌, refl, ap, length, ◌∙◌, subst, sym, Bool-cases, inl, inr, List, [], ◌∷◌,
  ◌++◌, append_assoc, append-nil, map, arith,
}
use tarracsh.Outcome.{ok, ok_lem}
use tarracsh.CallGraph.Rows.{ClassFileRow, ClassRefRow, EdgeRow, MemberRow, MemberRefRow}
use tarracsh.CallGraph.Link.{
  classes_named, refer_to_class, refer_to_classes, class_edge, counted_class, link_class_refs,
  create_member_index, get_member_matches, member_edge, counted_member, refer_to_members,
  link_member_refs,
}
use tarracsh.CallGraph.Indexes.{index_lem}
use tarracsh.CallGraph.NewEdges.{
  Placed, Rising, Rising-weaken, Before, NewFrom, add_edge_rows-NewFrom,
}

-- The classes, the references and the new edges.
unfoldable pub class_links :
    List ClassFileRow → List ClassRefRow → List ClassFileRow × (List ClassRefRow × List EdgeRow)
class_links classes [] = (classes, ([], []))
class_links classes (ref ∷ refs) =
    let found = classes_named ref.name classes in
    let (classes', (refs', edges)) = class_links (refer_to_classes found classes) refs in
    (classes', (counted_class ref found ∷ refs', map (class_edge ref) found ++ edges))

-- The members, the references and the new edges.
unfoldable pub member_links :
    List (ℕ × MemberRow)
    → List MemberRow
    → List MemberRefRow
    → List MemberRow × (List MemberRefRow × List EdgeRow)
member_links index members [] = (members, ([], []))
member_links index members (ref ∷ refs) =
    let found = get_member_matches index ref in
    let (members', (refs', edges)) = member_links index (refer_to_members found members) refs in
    (members', (counted_member ref found ∷ refs', map (member_edge ref) found ++ edges))

-- The ids of the rows that a reference finds.
classes_named-Rising :
    (name i : ℕ) (classes : List ClassFileRow)
    → Placed (λ c. c.id) i classes
    → Rising (λ (c : ClassFileRow). c.id) i (classes_named name classes)
unfolding classes_named
classes_named-Rising name i [] h = tt
classes_named-Rising name i (c ∷ classes) (p, h) = elim (Bool-cases (c.classname == name)) [
  | inl e ↦ rw e (omega (arith, p), rw p (classes_named-Rising name (suc i) classes h))
  | inr e ↦ rw e (
      Rising-weaken (λ (c : ClassFileRow). c.id) i (suc i) (classes_named name classes)
        (omega arith) (classes_named-Rising name (suc i) classes h))
]

class_edge-NewFrom :
    (ref : ClassRefRow) (j : ℕ) (found : List ClassFileRow)
    → Rising (λ (c : ClassFileRow). c.id) j found
    → NewFrom ref.id j (map (class_edge ref) found)
unfolding class_edge
class_edge-NewFrom ref j [] h = tt
class_edge-NewFrom ref j (c ∷ found) (p, h) = (refl, p, class_edge-NewFrom ref (suc c.id) found h)

-- Counting keeps the ids.
refer_to_class-Placed :
    (id i : ℕ) (classes : List ClassFileRow)
    → Placed (λ c. c.id) i classes
    → Placed (λ (c : ClassFileRow). c.id) i (refer_to_class id classes)
unfolding refer_to_class
refer_to_class-Placed id i [] h = tt
refer_to_class-Placed id i (c ∷ classes) (p, h) = elim (Bool-cases (c.id == id)) [
  | inl e ↦ rw e (p, h)
  | inr e ↦ rw e (p, refer_to_class-Placed id (suc i) classes h)
]

refer_to_classes-Placed :
    (found classes : List ClassFileRow)
    → Placed (λ c. c.id) 0 classes
    → Placed (λ (c : ClassFileRow). c.id) 0 (refer_to_classes found classes)
unfolding refer_to_classes
refer_to_classes-Placed [] classes h = h
refer_to_classes-Placed (c ∷ found) classes h =
    refer_to_classes-Placed found (refer_to_class c.id classes)
      (refer_to_class-Placed c.id 0 classes h)

class_refs_linked :
    (i : ℕ) (classes : List ClassFileRow) (refs : List ClassRefRow) (edges : List EdgeRow)
    → Placed (λ c. c.id) 0 classes
    → Placed (λ r. r.id) i refs
    → Before i 0 edges
    → link_class_refs classes refs edges
      ≡ ok (
        (class_links classes refs).0,
        ((class_links classes refs).1.0, edges ++ (class_links classes refs).1.1),
      )
unfolding link_class_refs class_links
class_refs_linked i classes [] edges hc hr h =
    ap (λ (es : List EdgeRow). ok (classes, ([], es))) (sym (append-nil edges))
class_refs_linked i classes (ref ∷ refs) edges hc (p, hr) h =
    let found = classes_named ref.name classes in
    let new = map (class_edge ref) found in
    let rest = class_links (refer_to_classes found classes) refs in
    let (added, before) =
      add_edge_rows-NewFrom i 0 new edges
        (subst (λ n. NewFrom n 0 new) p
          (class_edge-NewFrom ref 0 found (classes_named-Rising ref.name 0 classes hc)))
        h in
    rw
      (
        added,
        class_refs_linked (suc i) (refer_to_classes found classes) refs (edges ++ new)
            (refer_to_classes-Placed found classes hc) hr before,
      )
      (ap (λ (es : List EdgeRow). ok (rest.0, (counted_class ref found ∷ rest.1.0, es)))
        (append_assoc edges new rest.1.1))

-- Where ids are places, and no edges are there yet, each edge of a class reference is new.
pub link_class_refs-class_links :
    (classes : List ClassFileRow) (refs : List ClassRefRow)
    → Placed (λ c. c.id) 0 classes
    → Placed (λ r. r.id) 0 refs
    → link_class_refs classes refs [] ≡ ok (class_links classes refs)
link_class_refs-class_links classes refs hc hr = class_refs_linked 0 classes refs [] hc hr tt

get_member_matches-Rising :
    (j : ℕ) (index : List (ℕ × MemberRow)) (ref : MemberRefRow)
    → Rising (λ (entry : ℕ × MemberRow). entry.1.id) j index
    → Rising (λ (id : ℕ). id) j (get_member_matches index ref)
unfolding get_member_matches
get_member_matches-Rising j [] ref h = tt
get_member_matches-Rising j ((x, m) ∷ index) ref (p, h) =
    elim (Bool-cases
      (x == ref.classname && (m.name == ref.name && m.descriptor == ref.descriptor))) [
        | inl e ↦ rw e (p, get_member_matches-Rising (suc m.id) index ref h)
        | inr e ↦ rw e (
            Rising-weaken (λ (id : ℕ). id) j (suc m.id) (get_member_matches index ref)
              (omega (arith, p)) (get_member_matches-Rising (suc m.id) index ref h))
      ]

create_member_index-Rising :
    (j : ℕ) (classes : List ClassFileRow) (members : List MemberRow) (index : List (ℕ × MemberRow))
    → create_member_index classes members ≡ ok index
    → Placed (λ m. m.id) j members
    → Rising (λ (entry : ℕ × MemberRow). entry.1.id) j index
unfolding create_member_index
create_member_index-Rising j classes [] index e h =
    subst (Rising (λ (entry : ℕ × MemberRow). entry.1.id) j) (ok_lem e) tt
create_member_index-Rising j classes (m ∷ members) index e (p, h) =
    let (c, rest, at, more, all) = index_lem classes m members index e in
    subst (Rising (λ (entry : ℕ × MemberRow). entry.1.id) j) all
      (omega (arith, p), rw p (create_member_index-Rising (suc j) classes members rest more h))

member_edge-NewFrom :
    (ref : MemberRefRow) (j : ℕ) (found : List ℕ)
    → Rising (λ (id : ℕ). id) j found
    → NewFrom ref.id j (map (member_edge ref) found)
unfolding member_edge
member_edge-NewFrom ref j [] h = tt
member_edge-NewFrom ref j (id ∷ found) (p, h) = (refl, p, member_edge-NewFrom ref (suc id) found h)

member_refs_linked :
    (i : ℕ) (index : List (ℕ × MemberRow)) (members : List MemberRow) (refs : List MemberRefRow)
    (edges : List EdgeRow)
    → Rising (λ (entry : ℕ × MemberRow). entry.1.id) 0 index
    → Placed (λ r. r.id) i refs
    → Before i 0 edges
    → link_member_refs index members refs edges
      ≡ ok (
        (member_links index members refs).0,
        ((member_links index members refs).1.0, edges ++ (member_links index members refs).1.1),
      )
unfolding link_member_refs member_links
member_refs_linked i index members [] edges hi hr h =
    ap (λ (es : List EdgeRow). ok (members, ([], es))) (sym (append-nil edges))
member_refs_linked i index members (ref ∷ refs) edges hi (p, hr) h =
    let found = get_member_matches index ref in
    let new = map (member_edge ref) found in
    let rest = member_links index (refer_to_members found members) refs in
    let (added, before) =
      add_edge_rows-NewFrom i 0 new edges
        (subst (λ n. NewFrom n 0 new) p
          (member_edge-NewFrom ref 0 found (get_member_matches-Rising 0 index ref hi)))
        h in
    rw
      (
        added,
        member_refs_linked (suc i) index (refer_to_members found members) refs (edges ++ new) hi hr
            before,
      )
      (ap (λ (es : List EdgeRow). ok (rest.0, (counted_member ref found ∷ rest.1.0, es)))
        (append_assoc edges new rest.1.1))

-- The same of references to members, with the index that is made of them.
pub link_member_refs-member_links :
    (classes : List ClassFileRow) (members : List MemberRow) (refs : List MemberRefRow)
    (index : List (ℕ × MemberRow))
    → create_member_index classes members ≡ ok index
    → Placed (λ m. m.id) 0 members
    → Placed (λ r. r.id) 0 refs
    → link_member_refs index members refs [] ≡ ok (member_links index members refs)
link_member_refs-member_links classes members refs index e hm hr =
    member_refs_linked 0 index members refs []
      (create_member_index-Rising 0 classes members index e hm) hr tt

length-refer_to_class :
    (id : ℕ) (classes : List ClassFileRow) → length (refer_to_class id classes) ≡ length classes
unfolding refer_to_class
length-refer_to_class id [] = refl
length-refer_to_class id (c ∷ classes) = elim (Bool-cases (c.id == id)) [
  | inl e ↦ rw e refl
  | inr e ↦ rw e (ap suc (length-refer_to_class id classes))
]

length-refer_to_classes :
    (found classes : List ClassFileRow) → length (refer_to_classes found classes) ≡ length classes
unfolding refer_to_classes
length-refer_to_classes [] classes = refl
length-refer_to_classes (c ∷ found) classes =
    length-refer_to_classes found (refer_to_class c.id classes) ∙ length-refer_to_class c.id classes

pub length-class_links :
    (classes : List ClassFileRow) (refs : List ClassRefRow)
    → length (class_links classes refs).0 ≡ length classes
unfolding class_links
length-class_links classes [] = refl
length-class_links classes (ref ∷ refs) =
    let found = classes_named ref.name classes in
    length-class_links (refer_to_classes found classes) refs ∙ length-refer_to_classes found classes
