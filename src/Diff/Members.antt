-- ===== src/Diff/Members.antt =====
-- src/interfaces/cfdiff/ClassfileDiffApp.cpp: the comparison of methods and fields.
use tarracsh.Prelude.{
  ℕ, Bool, true, false, ◌&&◌, ◌||◌, not, List, [], ◌∷◌, Option, none, some, if◌then◌else◌,
}
use tarracsh.Outcome.{Outcome, ok, fault, ◌>>=◌}
use tarracsh.AccessModifiers.{is_public}
use tarracsh.ClassFile.Pool.{Bytes, ConstantPool}
use tarracsh.ClassFile.Entries.{get_string}
use tarracsh.ClassFile.Parser.{MemberInfo, ClassFile}
use tarracsh.Diff.Names.{NameMap, find, put, erase, by_name, push}
use tarracsh.Diff.Compare.{
  Options, add_differences, compare_descriptors, compare_access_flags, count_rest,
  compare_attributes,
}

-- Whether `_publicOnly` leaves the member in.
unfoldable pub is_compared : Options → MemberInfo → Bool
is_compared o m = not o.public_only || is_public m.access_flags

unfoldable pub compared : Options → List MemberInfo → List MemberInfo
compared o [] = []
compared o (m ∷ ms) = let rest = compared o ms in if is_compared o m then m ∷ rest else rest

-- `extractMethods`, the vectors of overloads by name.
unfoldable pub extract_methods :
    ConstantPool → NameMap (List MemberInfo) → List MemberInfo → Outcome (NameMap (List MemberInfo))
extract_methods pool m [] = ok m
extract_methods pool m (method ∷ rest) =
    get_string pool method.name_index >>= λ name. extract_methods pool (push name method m) rest

-- `empty()` of a vector.
abbrev pub is_empty : {A : Type 0} → List A → Bool
is_empty [] = true
is_empty (x ∷ xs) = false

-- `for` over the methods on one side only: each counts, and its descriptor is read for the log.
unfoldable pub count_only : ConstantPool → List MemberInfo → ℕ → Outcome ℕ
count_only pool [] count = ok count
count_only pool (m ∷ ms) count =
    get_string pool m.descriptor_index >>= λ d. count_only pool ms (add_differences 1 count)

-- The vector with a method that was passed over before it.
unfoldable pub also : MemberInfo → Option (List MemberInfo) → Option (List MemberInfo)
also r none = none
also r (some rs) = some (r ∷ rs)

-- The rest of a round of the loop over the left methods of a name. When the last right method is
-- erased, so is its vector from the map, and `rightMethods` refers to freed memory: what
-- `rightMethods.empty()` gives then is `stale`, and a further round would walk the freed vector.
unfoldable pub over_freed : List MemberInfo → Outcome Bool → ℕ → Outcome (List MemberInfo × ℕ)
over_freed lefts stale count =
    stale >>= λ empty. if empty || is_empty lefts then ok ([], count) else fault

unfoldable pub next_round :
    Outcome Bool
    → List MemberInfo
    → (List MemberInfo → ℕ → Outcome (List MemberInfo × ℕ))
    → List MemberInfo
    → Option (List MemberInfo) × ℕ
    → Outcome (List MemberInfo × ℕ)
next_round stale lefts more rights (none, count) =
    if is_empty rights then ok (rights, count) else more rights count
next_round stale lefts more rights (some [], count) = over_freed lefts stale count
next_round stale lefts more rights (some (r ∷ rs), count) = more (r ∷ rs) count

-- The vector of a name is in the map until it is empty.
unfoldable pub update_rights :
    Bytes → NameMap (List MemberInfo) → List MemberInfo → NameMap (List MemberInfo)
update_rights name rights [] = erase name rights
update_rights name rights (r ∷ rs) = put name (r ∷ rs) rights

module _ (o : Options) (left right : ConstantPool) where
  -- `areMethodsEqual`: flags, descriptors and attributes, each compared and counted. The code for a
  -- field is the same without the result.
  unfoldable pub are_members_equal : MemberInfo → MemberInfo → ℕ → Outcome (Bool × ℕ)
  are_members_equal l r count =
      let (same_flags, count) = compare_access_flags l.access_flags r.access_flags count in
      compare_descriptors left right l.descriptor_index r.descriptor_index count
      >>= λ (same_descriptor, count).
          compare_attributes o.ignored_attributes left right l.attributes r.attributes count
          >>= λ (same_attributes, count).
              ok (same_attributes && (same_descriptor && same_flags), count)

  -- The loop of `compareToRightMethods` up to its `break`: the right methods without the one that is
  -- equal, if one is.
  unfoldable pub find_equal :
      MemberInfo → List MemberInfo → ℕ → Outcome (Option (List MemberInfo) × ℕ)
  find_equal l [] count = ok (none, count)
  find_equal l (r ∷ rs) count = are_members_equal l r count >>= λ (same, count').
      let more = (find_equal l rs count' >>= λ (found, count''). ok (also r found, count'')) in
      if same then ok (some rs, count') else more

  -- `compareToRightMethods`: where a method is equal, the differences found on the way are forgotten.
  unfoldable pub restore : ℕ → Option (List MemberInfo) × ℕ → Option (List MemberInfo) × ℕ
  restore previous (none, count) = (none, count)
  restore previous (some rest, count) = (some rest, previous)

  unfoldable pub compare_to_right :
      MemberInfo → List MemberInfo → ℕ → Outcome (Option (List MemberInfo) × ℕ)
  compare_to_right l rights count = get_string left l.descriptor_index >>= λ d.
      find_equal l rights count >>= λ found. ok (restore count found)

  module _ (stale : Outcome Bool) where
    -- The loop over the left methods of a name, and the right methods it leaves.
    unfoldable pub compare_overloads :
        List MemberInfo → List MemberInfo → ℕ → Outcome (List MemberInfo × ℕ)
    compare_overloads [] rights count = ok (rights, count)
    compare_overloads (l ∷ lefts) rights count =
        compare_to_right l rights count >>= next_round stale lefts (compare_overloads lefts) rights

    unfoldable pub match_methods :
        Bytes
        → List MemberInfo
        → Option (List MemberInfo)
        → NameMap (List MemberInfo)
        → ℕ
        → Outcome (NameMap (List MemberInfo) × ℕ)
    match_methods name lefts none rights count =
        count_only left lefts count >>= λ count. ok (rights, count)
    match_methods name lefts (some rs) rights count =
        compare_overloads lefts rs count >>= λ (rs', count').
        ok (update_rights name rights rs', count')

    unfoldable pub match_all_methods :
        NameMap (List MemberInfo)
        → NameMap (List MemberInfo)
        → ℕ
        → Outcome (NameMap (List MemberInfo) × ℕ)
    match_all_methods [] rights count = ok (rights, count)
    match_all_methods ((name, ls) ∷ lefts) rights count =
        match_methods name ls (find name rights) rights count >>= λ (rights', count').
        match_all_methods lefts rights' count'

    -- The last loop, over what the map still holds.
    unfoldable pub count_right : NameMap (List MemberInfo) → ℕ → Outcome ℕ
    count_right [] count = ok count
    count_right ((name, rs) ∷ rights) count =
        count_only right rs count >>= λ count. count_right rights count

    -- `compareMethods`
    unfoldable pub compare_methods : List MemberInfo → List MemberInfo → ℕ → Outcome ℕ
    compare_methods left_methods right_methods count =
        extract_methods left [] (compared o left_methods) >>= λ lefts.
        extract_methods right [] (compared o right_methods) >>= λ rights.
        match_all_methods lefts rights count >>= λ (rest, count'). count_right rest count'

  -- A round of the first loop of `compareFields`.
  unfoldable pub match_field :
      Bytes
      → MemberInfo
      → Option MemberInfo
      → NameMap MemberInfo
      → ℕ
      → Outcome (NameMap MemberInfo × ℕ)
  match_field name l none rights count = ok (rights, add_differences 1 count)
  match_field name l (some r) rights count =
      are_members_equal l r count >>= λ (same, count'). ok (erase name rights, count')

  unfoldable pub match_fields :
      NameMap MemberInfo → NameMap MemberInfo → ℕ → Outcome (NameMap MemberInfo × ℕ)
  match_fields [] rights count = ok (rights, count)
  match_fields ((name, l) ∷ lefts) rights count =
      match_field name l (find name rights) rights count >>= λ (rights', count').
      match_fields lefts rights' count'

  -- `compareFields`
  unfoldable pub compare_fields : List MemberInfo → List MemberInfo → ℕ → Outcome ℕ
  compare_fields left_fields right_fields count =
      by_name (λ f. get_string left f.name_index) [] (compared o left_fields) >>= λ lefts.
      by_name (λ f. get_string right f.name_index) [] (compared o right_fields) >>= λ rights.
      match_fields lefts rights count >>= λ rest. ok (count_rest rest)

-- `compareMembers`
unfoldable pub compare_members : Outcome Bool → Options → ClassFile → ClassFile → ℕ → Outcome ℕ
compare_members stale o l r count =
    compare_methods o l.constant_pool r.constant_pool stale l.methods r.methods count >>= λ count.
    compare_fields o l.constant_pool r.constant_pool l.fields r.fields count
