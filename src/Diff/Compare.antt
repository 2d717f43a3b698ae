-- ===== src/Diff/Compare.antt =====
-- src/interfaces/cfdiff/ClassfileDiffApp.cpp: the comparison of names, flags, descriptors,
-- interfaces and attributes. What is written to the log is not modelled.
use tarracsh.Prelude.{
  ℕ, ◌+◌, ◌%◌, ◌^◌, Bool, ◌&&◌, List, [], ◌∷◌, ◌==◌, Option, none, some, length, if◌then◌else◌,
}
use tarracsh.Outcome.{Outcome, ok, ◌>>=◌}
use tarracsh.ClassFile.Pool.{Bytes, ConstantPool}
use tarracsh.ClassFile.Entries.{get_class_info_name, get_string}
use tarracsh.ClassFile.Parser.{AttributeInfo, ClassFile}
use tarracsh.Digest.Class.{equal}
use tarracsh.Diff.Names.{NameMap, is_among, find, erase, by_name}

-- The command line: `_ignoreClassname`, `_publicOnly` and `_ignoredAttributes`.
pub record Options : Type 0 where
  pub ignore_classname : Bool
  pub public_only : Bool
  pub ignored_attributes : List Bytes

-- `_differenceCount += n`, an unsigned int.
unfoldable pub add_differences : ℕ → ℕ → ℕ
add_differences n count = (count + n) % 2 ^ 32

-- `_differenceCount++` where the items differ.
unfoldable pub differ_unless : Bool → ℕ → ℕ
differ_unless same count = if same then count else add_differences 1 count

module _ (left right : ConstantPool) where
  -- `areClassnamesEqual`
  unfoldable pub are_classnames_equal : ℕ → ℕ → Outcome Bool
  are_classnames_equal left_class_info right_class_info =
      get_class_info_name left left_class_info >>= λ l.
      get_class_info_name right right_class_info >>= λ r. ok (equal l r)

  -- `compareSuperClass`
  unfoldable pub compare_super_class : ℕ → ℕ → ℕ → Outcome ℕ
  compare_super_class left_super right_super count =
      are_classnames_equal left_super right_super >>= λ same. ok (differ_unless same count)

  -- `compareMainClassname`; `getMainClassname` is the name at `thisClass`.
  unfoldable pub compare_main_classname : Bool → ℕ → ℕ → ℕ → Outcome ℕ
  compare_main_classname ignore_classname left_this right_this count =
      are_classnames_equal left_this right_this >>= λ same.
      ok (if ignore_classname then count else differ_unless same count)

  -- `compareDescriptors`
  unfoldable pub compare_descriptors : ℕ → ℕ → ℕ → Outcome (Bool × ℕ)
  compare_descriptors left_index right_index count = get_string left left_index >>= λ l.
      get_string right right_index >>= λ r. ok (equal l r, differ_unless (equal l r) count)

-- `compareAccessFlags`
unfoldable pub compare_access_flags : ℕ → ℕ → ℕ → Bool × ℕ
compare_access_flags left_flags right_flags count =
    (left_flags == right_flags, differ_unless (left_flags == right_flags) count)

-- A round of the first loop of `compareMainClassInterfaces`.
unfoldable pub match_interface : Bytes → Option ℕ → NameMap ℕ → ℕ → NameMap ℕ × ℕ
match_interface name none rights count = (rights, add_differences 1 count)
match_interface name (some index) rights count = (erase name rights, count)

unfoldable pub match_interfaces : NameMap ℕ → NameMap ℕ → ℕ → NameMap ℕ × ℕ
match_interfaces [] rights count = (rights, count)
match_interfaces ((name, index) ∷ lefts) rights count =
    let (rights', count') = match_interface name (find name rights) rights count in
    match_interfaces lefts rights' count'

-- The second loop: one difference for each name that is left on the right.
unfoldable pub count_rest : {V : Type 0} → NameMap V × ℕ → ℕ
count_rest (rights, count) = add_differences (length rights) count

-- `compareMainClassInterfaces`
unfoldable pub compare_interfaces : ConstantPool → ConstantPool → List ℕ → List ℕ → ℕ → Outcome ℕ
compare_interfaces left right left_interfaces right_interfaces count =
    by_name (get_class_info_name left) [] left_interfaces >>= λ lefts.
    by_name (get_class_info_name right) [] right_interfaces >>= λ rights.
    ok (count_rest (match_interfaces lefts rights count))

-- `areEqual`: the lengths are those of the contents.
unfoldable pub same_info : AttributeInfo → AttributeInfo → Bool
same_info l r = length l.info == length r.info && equal l.info r.info

-- A round of the first loop of `compareAttributes`, on an attribute that is not ignored. One that is
-- missing on the right is reported, and not counted.
unfoldable pub match_attribute :
    Bytes
    → AttributeInfo
    → Option AttributeInfo
    → NameMap AttributeInfo
    → ℕ
    → NameMap AttributeInfo × ℕ
match_attribute name l none rights differences = (rights, differences)
match_attribute name l (some r) rights differences =
    (erase name rights, if same_info l r then differences else differences + 1)

module _ (ignored : List Bytes) where
  unfoldable pub match_attributes :
      NameMap AttributeInfo → NameMap AttributeInfo → ℕ → NameMap AttributeInfo × ℕ
  match_attributes [] rights differences = (rights, differences)
  match_attributes ((name, l) ∷ lefts) rights differences =
      let (rights', differences') =
        if is_among name ignored
        then (rights, differences)
        else match_attribute name l (find name rights) rights differences in
      match_attributes lefts rights' differences'

  -- The second loop.
  unfoldable pub count_missing : NameMap AttributeInfo → ℕ → ℕ
  count_missing [] differences = differences
  count_missing ((name, r) ∷ rights) differences =
      count_missing rights (if is_among name ignored then differences else differences + 1)

  unfoldable pub attribute_differences : NameMap AttributeInfo → NameMap AttributeInfo → ℕ
  attribute_differences lefts rights =
      let (rest, differences) = match_attributes lefts rights 0 in count_missing rest differences

  -- `compareAttributes`; at most 2^17 differences, so the local counter does not wrap around.
  unfoldable pub compare_attributes :
      ConstantPool → ConstantPool → List AttributeInfo → List AttributeInfo → ℕ → Outcome (Bool × ℕ)
  compare_attributes left right left_attributes right_attributes count =
      by_name (λ a. get_string left a.name_index) [] left_attributes >>= λ lefts.
      by_name (λ a. get_string right a.name_index) [] right_attributes >>= λ rights.
      let differences = attribute_differences lefts rights in
      ok (differences == 0, add_differences differences count)

-- `compareMainClass`
unfoldable pub compare_main_class : Options → ClassFile → ClassFile → ℕ → Outcome ℕ
compare_main_class o l r count =
    let left = l.constant_pool in
    let right = r.constant_pool in
    let left_main = l.main_class_info in
    let right_main = r.main_class_info in
    compare_main_classname left right o.ignore_classname left_main.this_class right_main.this_class
      count
    >>= λ count.
        compare_super_class left right left_main.super_class right_main.super_class count
        >>= λ count.
            let (same, count') =
              compare_access_flags left_main.access_flags right_main.access_flags count in
            compare_interfaces left right l.interfaces r.interfaces count' >>= λ count.
            compare_attributes o.ignored_attributes left right l.attributes r.attributes count
            >>= λ (same, count). ok count
