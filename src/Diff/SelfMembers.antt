-- ===== src/Diff/SelfMembers.antt =====
-- A class beside itself in src/interfaces/cfdiff/ClassfileDiffApp.cpp: methods and fields.
use tarracsh.Prelude.{
  ℕ, subst, ◌≡◌, refl, Bool, true, false, List, [], ◌∷◌, some, All, inl, inr, Bool-cases,
}
use tarracsh.Outcome.{Outcome, ok, threw, fault, out_of_fuel, ◌>>=◌, >>=-ok, ok_lem}
use tarracsh.ClassFile.Pool.{Bytes, ConstantPool}
use tarracsh.ClassFile.Entries.{get_string}
use tarracsh.ClassFile.Parser.{MemberInfo, ClassFile}
use tarracsh.Digest.Class.{equal}
use tarracsh.Diff.Names.{NameMap, push}
use tarracsh.Diff.Compare.{Options, add_differences, count_rest}
use tarracsh.Diff.Members.{
  compared, extract_methods, is_empty, are_members_equal, find_equal, restore, compare_to_right,
  over_freed, next_round, compare_overloads, update_rights, match_methods, match_all_methods,
  count_right, compare_methods, match_field, match_fields, compare_fields, compare_members,
}
use tarracsh.Diff.Application.{compare}
use tarracsh.Diff.Readable.{
  MemberReadable, Readable, Kept, Overloads, by_name-Kept, extract_methods-Kept, compared-All,
}
use tarracsh.Diff.Self.{
  find_first, erase_first, compare_descriptors_self, compare_access_flags_self,
  compare_attributes_self, compare_main_class_self,
}

over_freed_last : (stale : Outcome Bool) → over_freed [] stale 0 ≡ (stale >>= λ empty. ok ([], 0))
unfolding over_freed
over_freed_last (ok true) = refl
over_freed_last (ok false) = refl
over_freed_last threw = refl
over_freed_last fault = refl
over_freed_last out_of_fuel = refl

module _ (o : Options) (pool : ConstantPool) where
  are_members_equal_self :
      (m : MemberInfo) → MemberReadable pool m → are_members_equal o pool pool m m 0 ≡ ok (true, 0)
  unfolding are_members_equal
  are_members_equal_self m h =
      rw
        (
          compare_access_flags_self m.access_flags 0,
          compare_descriptors_self pool m.descriptor_index 0 h.descriptor,
          compare_attributes_self o.ignored_attributes pool m.attributes h.attributes,
        )
        refl

  compare_to_right_self :
      (m : MemberInfo) (ms : List MemberInfo)
      → MemberReadable pool m
      → compare_to_right o pool pool m (m ∷ ms) 0 ≡ ok (some ms, 0)
  unfolding compare_to_right find_equal restore
  compare_to_right_self m ms h =
      let (d, e) = h.descriptor in rw (e, are_members_equal_self m h) refl

  -- The vector is freed in the last round.
  compare_overloads_self :
      (stale : Outcome Bool) (m : MemberInfo) (ms : List MemberInfo)
      → MemberReadable pool m
      → All (MemberReadable pool) ms
      → compare_overloads o pool pool stale (m ∷ ms) (m ∷ ms) 0 ≡ (stale >>= λ empty. ok ([], 0))
  unfolding compare_overloads next_round
  compare_overloads_self stale m [] h hs = rw (compare_to_right_self m [] h) (over_freed_last stale)
  compare_overloads_self stale m (n ∷ ms) h (p, hs) =
      rw (compare_to_right_self m (n ∷ ms) h) (compare_overloads_self stale n ms p hs)

  match_all_methods_self :
      (empty : Bool) (m : NameMap (List MemberInfo))
      → Kept (Overloads (MemberReadable pool)) m
      → match_all_methods o pool pool (ok empty) m m 0 ≡ ok ([], 0)
  unfolding match_all_methods match_methods update_rights
  match_all_methods_self empty [] h = refl
  match_all_methods_self empty ((name, []) ∷ m) (h, k) = absurd h
  match_all_methods_self empty ((name, v ∷ vs) ∷ m) ((p, hs), k) =
      rw
        (
          find_first name (v ∷ vs) m,
          compare_overloads_self (ok empty) v vs p hs,
          erase_first name (v ∷ vs) m,
        )
        (match_all_methods_self empty m k)

  match_all_methods_freed :
      (name : Bytes) (vs : List MemberInfo) (m : NameMap (List MemberInfo))
      → Overloads (MemberReadable pool) vs
      → match_all_methods o pool pool fault ((name, vs) ∷ m) ((name, vs) ∷ m) 0 ≡ fault
  unfolding match_all_methods match_methods
  match_all_methods_freed name [] m h = absurd h
  match_all_methods_freed name (v ∷ vs) m (p, hs) =
      rw (find_first name (v ∷ vs) m, compare_overloads_self fault v vs p hs) refl

  match_fields_self :
      (m : NameMap MemberInfo)
      → Kept (MemberReadable pool) m
      → match_fields o pool pool m m 0 ≡ ok ([], 0)
  unfolding match_fields match_field
  match_fields_self [] h = refl
  match_fields_self ((name, f) ∷ m) (p, h) =
      rw (find_first name f m, are_members_equal_self f p, erase_first name f m)
        (match_fields_self m h)

  compare_fields_self :
      (fs : List MemberInfo)
      → All (MemberReadable pool) fs
      → compare_fields o pool pool fs fs 0 ≡ ok 0
  unfolding compare_fields count_rest add_differences
  compare_fields_self fs h =
      let (m, made, kept) =
        by_name-Kept (MemberReadable pool) (λ f. get_string pool f.name_index) [] (compared o fs)
          (λ f readable. readable.name) tt (compared-All (MemberReadable pool) o fs h) in
      rw (made, match_fields_self m kept) refl

  compare_methods_self :
      (empty : Bool) (ms : List MemberInfo)
      → All (MemberReadable pool) ms
      → compare_methods o pool pool (ok empty) ms ms 0 ≡ ok 0
  unfolding compare_methods count_right
  compare_methods_self empty ms h =
      let (m, made, kept) =
        extract_methods-Kept pool [] (compared o ms) tt
          (compared-All (MemberReadable pool) o ms h) in
      rw (made, match_all_methods_self empty m kept) refl

-- A class whose names can be looked up has no differences from itself, whatever is ignored and
-- whatever `empty()` says of the freed vector, if it says anything.
pub compare_self :
    (empty : Bool) (o : Options) (c : ClassFile) → Readable c → compare (ok empty) o c c ≡ ok 0
unfolding compare compare_members
compare_self empty o c h =
    rw
      (
        compare_main_class_self o c h,
        compare_methods_self o c.constant_pool empty c.methods h.methods,
        compare_fields_self o c.constant_pool c.fields h.fields,
      )
      refl

push-full :
    (name : Bytes) (v : MemberInfo) (m : NameMap (List MemberInfo))
    → is_empty (push name v m) ≡ false
unfolding push
push-full name v [] = refl
push-full name v ((n, vs) ∷ m) = elim (Bool-cases (equal name n)) [
  | inl e ↦ rw e refl
  | inr e ↦ rw e refl
]

extract_methods-full :
    (pool : ConstantPool) (ms : List MemberInfo) (m m' : NameMap (List MemberInfo))
    → is_empty m ≡ false
    → extract_methods pool m ms ≡ ok m'
    → is_empty m' ≡ false
unfolding extract_methods
extract_methods-full pool [] m m' h e = subst (λ n. is_empty n ≡ false) (ok_lem e) h
extract_methods-full pool (method ∷ ms) m m' h e =
    let (name, found, e') = >>=-ok (get_string pool method.name_index) _ m' e in
    extract_methods-full pool ms (push name method m) m' (push-full name method m) e'

map_full :
    (pool : ConstantPool) (ms : List MemberInfo) (m : MemberInfo) (ns : List MemberInfo)
    (k : NameMap (List MemberInfo))
    → ms ≡ m ∷ ns
    → extract_methods pool [] ms ≡ ok k
    → is_empty k ≡ false
unfolding extract_methods
map_full pool [] m ns k e h = cc
map_full pool (m' ∷ ms) m ns k e h =
    let (name, found, h') = >>=-ok (get_string pool m'.name_index) _ k h in
    extract_methods-full pool ms (push name m' []) k (push-full name m' []) h'

freed_map :
    (o : Options) (pool : ConstantPool) (k : NameMap (List MemberInfo))
    → Kept (Overloads (MemberReadable pool)) k
    → is_empty k ≡ false
    → match_all_methods o pool pool fault k k 0 ≡ fault
freed_map o pool [] h e = cc
freed_map o pool ((name, vs) ∷ k) (h, hs) e = match_all_methods_freed o pool name vs k h

-- Where a method is compared, the comparison of such a class with itself reads the freed vector.
pub compare-self_freed :
    (o : Options) (c : ClassFile) (m : MemberInfo) (ms : List MemberInfo)
    → Readable c
    → compared o c.methods ≡ m ∷ ms
    → compare fault o c c ≡ fault
unfolding compare compare_members compare_methods
compare-self_freed o c m ms h e =
    let pool = c.constant_pool in
    let (k, made, kept) =
      extract_methods-Kept pool [] (compared o c.methods) tt
        (compared-All (MemberReadable pool) o c.methods h.methods) in
    rw (compare_main_class_self o c h, made)
      (rw (freed_map o pool k kept (map_full pool (compared o c.methods) m ms k e made)) refl)

-- What reading the freed vector comes to, by the methods that are compared.
abbrev pub freed_result : List MemberInfo → ℕ → Outcome ℕ
freed_result [] count = ok count
freed_result (m ∷ ms) count = fault

compare_methods_none :
    (o : Options) (pool : ConstantPool) (stale : Outcome Bool) (c : ClassFile)
    → compared o c.methods ≡ []
    → compare_methods o pool pool stale c.methods c.methods 0 ≡ ok 0
unfolding compare_methods match_all_methods count_right extract_methods
compare_methods_none o pool stale c e = rw e refl

-- A class beside itself, where the read of the freed vector is a fault.
pub compare_self_freed :
    (o : Options) (c : ClassFile)
    → Readable c
    → (ms : List MemberInfo) → compared o c.methods ≡ ms
    → compare fault o c c ≡ freed_result ms 0
unfolding compare compare_members
compare_self_freed o c h (m ∷ ms) e = compare-self_freed o c m ms h e
compare_self_freed o c h [] e =
    rw
      (
        compare_main_class_self o c h,
        compare_methods_none o c.constant_pool fault c e,
        compare_fields_self o c.constant_pool c.fields h.fields,
      )
      refl
