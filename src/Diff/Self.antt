-- ===== src/Diff/Self.antt =====
-- A class beside itself in src/interfaces/cfdiff/ClassfileDiffApp.cpp: the main class.
use tarracsh.Prelude.{
  ℕ, ◌≡◌, refl, sym, ap, Bool, true, false, List, [], ◌∷◌, ◌++◌, some, length, All, ◌==◌,
  Bool-cases, inl, inr, arith, append_assoc, append-nil,
}
use tarracsh.Outcome.{ok}
use tarracsh.ClassFile.Pool.{Bytes, ConstantPool}
use tarracsh.ClassFile.Entries.{get_class_info_name, get_string}
use tarracsh.ClassFile.Parser.{AttributeInfo, ClassFile}
use tarracsh.Digest.Class.{equal}
use tarracsh.StringPool.Layout.{equal_refl, equal_sound}
use tarracsh.Diff.Names.{NameMap, is_among, find, erase}
use tarracsh.Diff.Compare.{
  Options, add_differences, differ_unless, are_classnames_equal, compare_super_class,
  compare_main_classname, compare_descriptors, compare_access_flags, match_interface,
  match_interfaces, count_rest, compare_interfaces, same_info, match_attribute, match_attributes,
  count_missing, attribute_differences, compare_attributes, compare_main_class,
}
use tarracsh.Diff.Readable.{HasName, AttributeReadable, by_name-Kept, Readable}

==_self : (n : ℕ) → (n == n) ≡ true
==_self n = ground arith

module _ {V : Type 0} (name : Bytes) (v : V) (m : NameMap V) where
  pub find_first : find name ((name, v) ∷ m) ≡ some v
  unfolding find
  find_first = rw (equal_refl name) refl

  pub erase_first : erase name ((name, v) ∷ m) ≡ m
  unfolding erase
  erase_first = rw (equal_refl name) refl

are_classnames_equal_self :
    (pool : ConstantPool) (i : ℕ)
    → HasName (get_class_info_name pool i)
    → are_classnames_equal pool pool i i ≡ ok true
unfolding are_classnames_equal
are_classnames_equal_self pool i (name, e) = rw (e, equal_refl name) refl

pub compare_descriptors_self :
    (pool : ConstantPool) (i count : ℕ)
    → HasName (get_string pool i)
    → compare_descriptors pool pool i i count ≡ ok (true, count)
unfolding compare_descriptors differ_unless
compare_descriptors_self pool i count (name, e) = rw (e, equal_refl name) refl

pub compare_access_flags_self :
    (flags count : ℕ) → compare_access_flags flags flags count ≡ (true, count)
unfolding compare_access_flags differ_unless
compare_access_flags_self flags count = rw (==_self flags) refl

match_interfaces_self : (m : NameMap ℕ) (count : ℕ) → match_interfaces m m count ≡ ([], count)
unfolding match_interfaces match_interface
match_interfaces_self [] count = refl
match_interfaces_self ((name, i) ∷ m) count =
    rw (find_first name i m, erase_first name i m) (match_interfaces_self m count)

compare_interfaces_self :
    (pool : ConstantPool) (is : List ℕ)
    → All (λ i. HasName (get_class_info_name pool i)) is
    → compare_interfaces pool pool is is 0 ≡ ok 0
unfolding compare_interfaces count_rest add_differences
compare_interfaces_self pool is h =
    let (m, made, kept) =
      by_name-Kept (λ i. HasName (get_class_info_name pool i)) (get_class_info_name pool) [] is
        (λ i named. named) tt h in
    rw (made, match_interfaces_self m 0) refl

-- Attributes that are passed over stay in the right map.
module _ (ignored : List Bytes) where
  abbrev AllIgnored : NameMap AttributeInfo → Type 0
  AllIgnored [] = Unit
  AllIgnored ((name, a) ∷ m) = (is_among name ignored ≡ true) × AllIgnored m

  AllIgnored-append :
      (m : NameMap AttributeInfo) (name : Bytes) (a : AttributeInfo)
      → AllIgnored m
      → is_among name ignored ≡ true
      → AllIgnored (m ++ ((name, a) ∷ []))
  AllIgnored-append [] name a h e = (e, tt)
  AllIgnored-append (x ∷ m) name a (p, h) e = (p, AllIgnored-append m name a h e)

  not_equal :
      (name n : Bytes)
      → is_among name ignored ≡ false
      → is_among n ignored ≡ true
      → equal name n ≡ false
  not_equal name n h k = elim (Bool-cases (equal name n)) [
    | inl e ↦ cc (equal_sound name n e)
    | inr e ↦ e
  ]

  find_past :
      (rest : NameMap AttributeInfo) (name : Bytes) (a : AttributeInfo) (m : NameMap AttributeInfo)
      → AllIgnored rest
      → is_among name ignored ≡ false
      → find name (rest ++ ((name, a) ∷ m)) ≡ some a
  unfolding find
  find_past [] name a m h e = find_first name a m
  find_past ((n, b) ∷ rest) name a m (p, h) e =
      rw (not_equal name n e p) (find_past rest name a m h e)

  erase_past :
      (rest : NameMap AttributeInfo) (name : Bytes) (a : AttributeInfo) (m : NameMap AttributeInfo)
      → AllIgnored rest
      → is_among name ignored ≡ false
      → erase name (rest ++ ((name, a) ∷ m)) ≡ rest ++ m
  unfolding erase
  erase_past [] name a m h e = erase_first name a m
  erase_past ((n, b) ∷ rest) name a m (p, h) e =
      rw (not_equal name n e p) (ap ((n, b) ∷◌) (erase_past rest name a m h e))

  count_missing-ignored :
      (m : NameMap AttributeInfo) (n : ℕ) → AllIgnored m → count_missing ignored m n ≡ n
  unfolding count_missing
  count_missing-ignored [] n h = refl
  count_missing-ignored ((name, a) ∷ m) n (p, h) = rw p (count_missing-ignored m n h)

  same_info_self : (a : AttributeInfo) → same_info a a ≡ true
  unfolding same_info
  same_info_self a = rw (==_self (length a.info), equal_refl a.info) refl

  match_attributes_self :
      (m rest : NameMap AttributeInfo) (n : ℕ)
      → AllIgnored rest
      → (rest' : NameMap AttributeInfo) × (match_attributes ignored m (rest ++ m) n ≡ (rest', n))
        × AllIgnored rest'
  unfolding match_attributes match_attribute
  match_attributes_self [] rest n h = (rest, rw append-nil refl, h)
  match_attributes_self ((name, a) ∷ m) rest n h = elim (Bool-cases (is_among name ignored)) [
    | inl e ↦
        let (rest', matched, i) =
          match_attributes_self m (rest ++ ((name, a) ∷ [])) n
            (AllIgnored-append rest name a h e) in
        (rest', rw (e, sym (append_assoc rest ((name, a) ∷ []) m)) matched, i)
    | inr e ↦
        let (rest', matched, i) = match_attributes_self m rest n h in
        (
          rest',
          rw (e, find_past rest name a m h e, erase_past rest name a m h e, same_info_self a)
              matched,
          i,
        )
  ]

  attribute_differences_self : (m : NameMap AttributeInfo) → attribute_differences ignored m m ≡ 0
  unfolding attribute_differences
  attribute_differences_self m =
      let (rest, matched, i) = match_attributes_self m [] 0 tt in
      rw matched (count_missing-ignored rest 0 i)

pub compare_attributes_self :
    (ignored : List Bytes) (pool : ConstantPool) (xs : List AttributeInfo)
    → All (AttributeReadable pool) xs
    → compare_attributes ignored pool pool xs xs 0 ≡ ok (true, 0)
unfolding compare_attributes add_differences
compare_attributes_self ignored pool xs h =
    let (m, made, kept) =
      by_name-Kept (AttributeReadable pool) (λ a. get_string pool a.name_index) [] xs
        (λ a named. named) tt h in
    rw (made, attribute_differences_self ignored m) refl

compare_main_classname_self :
    (ignore : Bool) (pool : ConstantPool) (i : ℕ)
    → HasName (get_class_info_name pool i)
    → compare_main_classname pool pool ignore i i 0 ≡ ok 0
unfolding compare_main_classname differ_unless
compare_main_classname_self true pool i h = rw (are_classnames_equal_self pool i h) refl
compare_main_classname_self false pool i h = rw (are_classnames_equal_self pool i h) refl

compare_super_class_self :
    (pool : ConstantPool) (i : ℕ)
    → HasName (get_class_info_name pool i)
    → compare_super_class pool pool i i 0 ≡ ok 0
unfolding compare_super_class differ_unless
compare_super_class_self pool i h = rw (are_classnames_equal_self pool i h) refl

pub compare_main_class_self :
    (o : Options) (c : ClassFile) → Readable c → compare_main_class o c c 0 ≡ ok 0
unfolding compare_main_class
compare_main_class_self o c h =
    let pool = c.constant_pool in
    let main = c.main_class_info in
    rw
      (
        compare_main_classname_self o.ignore_classname pool main.this_class h.this_class,
        compare_super_class_self pool main.super_class h.super_class,
        compare_access_flags_self main.access_flags 0,
        compare_interfaces_self pool c.interfaces h.interfaces,
        compare_attributes_self o.ignored_attributes pool c.attributes h.attributes,
      )
      refl
