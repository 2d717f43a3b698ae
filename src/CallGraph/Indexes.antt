-- ===== src/CallGraph/Indexes.antt =====
-- What the index of members in src/app/commands/callgraph/CallGraphAnalyzer.h holds, and what
-- `getMemberMatches` finds in it.
use tarracsh.Prelude.{
  ℕ, ◌==◌, ◌&&◌, ◌≡◌, ◌⊎◌, Bool, refl, sym, ◌∙◌, ap, ap₂, subst, true, false, Option, none, some,
  List, [], ◌∷◌, Among, get_elem?, inl, inr, if◌then◌else◌, arith,
}
use tarracsh.Outcome.{ok, ok_lem, ◌>>=◌, >>=-ok}
use tarracsh.CallGraph.Rows.{ClassFileRow, MemberRow, MemberRefRow}
use tarracsh.CallGraph.Link.{create_member_index, owner_name, get_member_matches}

-- The reference has the member's name and descriptor, and `classname`.
abbrev pub Names : ℕ → MemberRow → MemberRefRow → Type 0
Names classname m ref =
    (classname ≡ ref.classname) × (m.name ≡ ref.name) × (m.descriptor ≡ ref.descriptor)

abbrev same : ℕ → MemberRow → MemberRefRow → Bool
same classname m ref =
    classname == ref.classname && (m.name == ref.name && m.descriptor == ref.descriptor)

same-Names :
    (classname : ℕ) (m : MemberRow) (ref : MemberRefRow)
    → same classname m ref ≡ true
    → Names classname m ref
same-Names classname m ref h = (ground (arith, h), ground (arith, h), ground (arith, h))

Names-same :
    (classname : ℕ) (m : MemberRow) (ref : MemberRefRow)
    → Names classname m ref
    → same classname m ref ≡ true
Names-same classname m ref (p, q, r) = ground (arith, p, q, r)

-- What is in a list of which the first is there under a condition.
module _ {A : Type 0} (x : A) (rest : List A) where
  when-cases :
      (b : Bool) (a : A)
      → Among a (if b then x ∷ rest else rest)
      → ((b ≡ true) × (a ≡ x)) ⊎ Among a rest
  when-cases true a (inl e) = inl (refl, e)
  when-cases true a (inr h) = inr h
  when-cases false a h = inr h

  when-head : (b : Bool) → b ≡ true → Among x (if b then x ∷ rest else rest)
  when-head true e = inl refl
  when-head false e = cc

  when-tail : (b : Bool) (a : A) → Among a rest → Among a (if b then x ∷ rest else rest)
  when-tail true a h = inr h
  when-tail false a h = h

pub found_named :
    (index : List (ℕ × MemberRow)) (ref : MemberRefRow) (id : ℕ)
    → Among id (get_member_matches index ref)
    → (x : ℕ) × (m : MemberRow) × Among (x, m) index × Names x m ref × (m.id ≡ id)
unfolding get_member_matches
found_named [] ref id h = absurd h
found_named ((x, m) ∷ index) ref id h =
    elim (when-cases m.id (get_member_matches index ref) (same x m ref) id h) [
      | inl (e, at) ↦ (x, m, inl refl, same-Names x m ref e, sym at)
      | inr more ↦
          let (y, m', there, n, at) = found_named index ref id more in (y, m', inr there, n, at)
    ]

pub named_found :
    (index : List (ℕ × MemberRow)) (ref : MemberRefRow) (x : ℕ) (m : MemberRow)
    → Among (x, m) index
    → Names x m ref
    → Among m.id (get_member_matches index ref)
unfolding get_member_matches
named_found [] ref x m h n = absurd h
named_found ((y, m') ∷ index) ref x m (inl e) n =
    subst (λ (entry : ℕ × MemberRow). Among entry.1.id (get_member_matches ((y, m') ∷ index) ref))
      (sym e)
      (when-head m'.id (get_member_matches index ref) (same y m' ref)
        (Names-same y m' ref (subst (λ (entry : ℕ × MemberRow). Names entry.0 entry.1 ref) e n)))
named_found ((y, m') ∷ index) ref x m (inr h) n =
    when-tail m'.id (get_member_matches index ref) (same y m' ref) m.id
      (named_found index ref x m h n)

-- The member's class is there, under `classname`.
abbrev pub InClass : List ClassFileRow → ℕ → MemberRow → Type 0
InClass classes classname m =
    (c : ClassFileRow) × (get_elem? classes m.owner_class ≡ some c) × (c.classname ≡ classname)

owner_name-ok :
    (o : Option ClassFileRow) (m : MemberRow) (entry : ℕ × MemberRow)
    → owner_name o m ≡ ok entry
    → (c : ClassFileRow) × (o ≡ some c) × ((c.classname, m) ≡ entry)
unfolding owner_name
owner_name-ok none m entry h = cc
owner_name-ok (some c) m entry h = (c, refl, ok_lem h)

-- An index of members, taken apart.
pub index_lem :
    (classes : List ClassFileRow) (m : MemberRow) (members : List MemberRow)
    (index : List (ℕ × MemberRow))
    → create_member_index classes (m ∷ members) ≡ ok index
    → (c : ClassFileRow) × (rest : List (ℕ × MemberRow)) × (get_elem? classes m.owner_class
        ≡ some c)
      × (create_member_index classes members ≡ ok rest)
      × ((c.classname, m) ∷ rest ≡ index)
unfolding create_member_index
index_lem classes m members index h =
    let (entry, e, k) =
      >>=-ok (owner_name (get_elem? classes m.owner_class) m)
        (λ entry. create_member_index classes members >>= λ rest. ok (entry ∷ rest)) index h in
    let (c, at, is) = owner_name-ok (get_elem? classes m.owner_class) m entry e in
    let (rest, more, all) =
      >>=-ok (create_member_index classes members) (λ rest. ok (entry ∷ rest)) index k in
    (c, rest, at, more, ap (λ (entry : ℕ × MemberRow). entry ∷ rest) is ∙ ok_lem all)

pub indexed_member :
    (classes : List ClassFileRow) (members : List MemberRow) (index : List (ℕ × MemberRow)) (x : ℕ)
    (m : MemberRow)
    → create_member_index classes members ≡ ok index
    → Among (x, m) index
    → InClass classes x m × Among m members
unfolding create_member_index
indexed_member classes [] index x m e h =
    absurd (subst (λ entries. Among (x, m) entries) (sym (ok_lem e)) h)
indexed_member classes (n ∷ members) index x m e h =
    let (c, rest, at, more, all) = index_lem classes n members index e in
    let here : Among (x, m) ((c.classname, n) ∷ rest) =
      subst (λ entries. Among (x, m) entries) (sym all) h in
    elim here [
      | inl is ↦ (
        subst (λ (entry : ℕ × MemberRow). InClass classes entry.0 entry.1) (sym is) (c, at, refl),
        inl (ap (λ (entry : ℕ × MemberRow). entry.1) is),
      )
      | inr there ↦
          let (known, among) = indexed_member classes members rest x m more there in
          (known, inr among)
    ]

some_lem : {A : Type 0} {a b : A} → ◌≡◌ {A = Option A} (some a) (some b) → a ≡ b
some_lem h = cc

pub member_indexed :
    (classes : List ClassFileRow) (members : List MemberRow) (index : List (ℕ × MemberRow)) (x : ℕ)
    (m : MemberRow)
    → create_member_index classes members ≡ ok index
    → InClass classes x m
    → Among m members
    → Among (x, m) index
member_indexed classes [] index x m e k h = absurd h
member_indexed classes (n ∷ members) index x m e (d, k, named) h =
    let (c, rest, at, more, all) = index_lem classes n members index e in
    subst (λ entries. Among (x, m) entries) all
      (elim h [
        | inl is ↦ inl (
            ap₂ (λ (y : ℕ) (n : MemberRow). (y, n))
              (sym named
                ∙ ap (λ (c : ClassFileRow). c.classname)
                    (some_lem
                      (sym k ∙ (ap (λ (m : MemberRow). get_elem? classes m.owner_class) is ∙ at))))
              is)
        | inr there ↦ inr (member_indexed classes members rest x m more (d, k, named) there)
      ])
