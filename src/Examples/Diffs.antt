-- ===== src/Examples/Diffs.antt =====
-- The theorems on the comparison of class files, at concrete inputs.
use tarracsh.Prelude.{◌≡◌, ◌+◌, ◌++◌, none, refl, true, false, [], ◌∷◌, codes, arith}
use tarracsh.Outcome.{ok, fault, ◌>>=◌}
use tarracsh.ClassFile.Pool.{utf8_info, class_info}
use tarracsh.ClassFile.Entries.{
  get_entry, utf8_at, class_at, get_classname, get_class_info_name, get_string,
}
use tarracsh.ClassFile.Parser.{AttributeInfo, ClassFile, MemberInfo}
use tarracsh.ClassFile.Encode.{Written, WrittenFits, MemberFits, write_class, parsed_class}
use tarracsh.AccessModifiers.{is_public}
use tarracsh.Diff.Names.{NameMap, is_among, find, erase}
use tarracsh.Diff.Compare.{
  same_info, Options, compare_interfaces, attribute_differences, match_attributes, match_attribute,
  count_missing,
}
use tarracsh.Diff.Members.{is_compared, compared}
use tarracsh.Diff.Application
use tarracsh.Diff.Application.{compare, start}
use tarracsh.Diff.Readable.{Readable, MemberReadable}
use tarracsh.Diff.SelfMembers.{compare-self_freed, freed_result}
use tarracsh.Diff.SameFile.{start-write_class}
use tarracsh.Diff.Interfaces.{compare_interfaces_comm}
use tarracsh.Diff.OneSide.{attribute_differences_missing}

-- A class with an interface, a field, two overloads and an attribute.
abbrev note : AttributeInfo
note = record { name_index = 3; info = 7 ∷ 8 ∷ [] }

abbrev item : MemberInfo
item = record { access_flags = 1; name_index = 3; descriptor_index = 4; attributes = note ∷ [] }

abbrev other_item : MemberInfo
other_item = record { access_flags = 1; name_index = 3; descriptor_index = 1; attributes = [] }

abbrev compared_class : Written
compared_class = record {
  constants =
      utf8_info (codes "A") ∷ class_info 1 ∷ utf8_info (codes "x") ∷ utf8_info (codes "I") ∷ [];
  main_class_info = record { access_flags = 33; this_class = 2; super_class = 0 };
  interfaces = 2 ∷ [];
  fields = item ∷ [];
  methods = item ∷ other_item ∷ [];
  attributes = note ∷ [];
}

item-MemberFits : MemberFits item
item-MemberFits = record {
  access_flags = omega arith;
  name_index = omega arith;
  descriptor_index = omega arith;
  count = omega arith;
  attributes = ((omega arith, omega arith), tt);
}

other_item-MemberFits : MemberFits other_item
other_item-MemberFits = record {
  access_flags = omega arith;
  name_index = omega arith;
  descriptor_index = omega arith;
  count = omega arith;
  attributes = tt;
}

compared_class-WrittenFits : WrittenFits compared_class
compared_class-WrittenFits = record {
  pool = omega arith;
  constants = (omega arith, (omega arith, (omega arith, (omega arith, tt))));
  access_flags = omega arith;
  this_class = omega arith;
  super_class = omega arith;
  interface_count = omega arith;
  interfaces = (omega arith, tt);
  field_count = omega arith;
  fields = (item-MemberFits, tt);
  method_count = omega arith;
  methods = (item-MemberFits, (other_item-MemberFits, tt));
  attribute_count = omega arith;
  attributes = ((omega arith, omega arith), tt);
}

abbrev parsed : ClassFile
parsed = parsed_class compared_class

item-MemberReadable : MemberReadable parsed.constant_pool item
unfolding get_string utf8_at get_entry
item-MemberReadable = record {
  name = (codes "x", refl);
  descriptor = (codes "I", refl);
  attributes = ((codes "x", refl), tt);
}

other_item-MemberReadable : MemberReadable parsed.constant_pool other_item
unfolding get_string utf8_at get_entry
other_item-MemberReadable = record {
  name = (codes "x", refl);
  descriptor = (codes "A", refl);
  attributes = tt;
}

parsed-Readable : Readable parsed
unfolding get_class_info_name class_at get_classname get_string utf8_at get_entry
parsed-Readable = record {
  this_class = (codes "A", refl);
  super_class = ([], refl);
  interfaces = ((codes "A", refl), tt);
  attributes = ((codes "x", refl), tt);
  fields = (item-MemberReadable, tt);
  methods = (item-MemberReadable, (other_item-MemberReadable, tt));
}

abbrev options : Options
options = record {
  ignore_classname = false;
  public_only = true;
  ignored_attributes = codes "Code" ∷ [];
}

start-write_class_example :
    (start fault options (write_class 0 52 compared_class) (write_class 0 65 compared_class) ≡ (
      freed_result (compared options parsed.methods) 0 >>= λ differences.
      ok (Application.compared differences)))
    × (start (ok true) options (write_class 0 52 compared_class) (write_class 0 65 compared_class)
        ≡ ok (Application.compared 0))
start-write_class_example =
    start-write_class true options 0 52 0 65 compared_class (omega arith) (omega arith)
      (omega arith) (omega arith) compared_class-WrittenFits parsed-Readable (omega arith)
      (omega arith)

both_compared : compared options parsed.methods ≡ item ∷ other_item ∷ []
unfolding compared is_compared is_public
both_compared = refl

compare-self_freed_example : compare fault options parsed parsed ≡ fault
compare-self_freed_example =
    compare-self_freed options parsed item (other_item ∷ []) parsed-Readable both_compared

no_super : get_class_info_name parsed.constant_pool 0 ≡ ok []
unfolding get_class_info_name
no_super = refl

compare_interfaces_comm_example :
    compare_interfaces parsed.constant_pool parsed.constant_pool (2 ∷ []) (0 ∷ []) 5
    ≡ compare_interfaces parsed.constant_pool parsed.constant_pool (0 ∷ []) (2 ∷ []) 5
compare_interfaces_comm_example =
    compare_interfaces_comm parsed.constant_pool parsed.constant_pool (2 ∷ []) (0 ∷ []) 5
      parsed-Readable.interfaces (([], no_super), tt)

x_compared : is_among (codes "x") (codes "Code" ∷ []) ≡ false
unfolding is_among
x_compared = refl

-- An attribute that both sides have, and one more on either side.
abbrev lefts : NameMap AttributeInfo
lefts = (codes "shared", note) ∷ []

abbrev rights : NameMap AttributeInfo
rights = (codes "own", note) ∷ (codes "shared", note) ∷ []

x_left : find (codes "x") lefts ≡ none
unfolding find
x_left = refl

x_right : find (codes "x") rights ≡ none
unfolding find
x_right = refl

attribute_differences_missing_example :
    (attribute_differences (codes "Code" ∷ []) (lefts ++ ((codes "x", note) ∷ [])) rights
      ≡ attribute_differences (codes "Code" ∷ []) lefts rights)
    × (attribute_differences (codes "Code" ∷ []) lefts (rights ++ ((codes "x", note) ∷ []))
        ≡ attribute_differences (codes "Code" ∷ []) lefts rights + 1)
attribute_differences_missing_example =
    attribute_differences_missing (codes "Code" ∷ []) (codes "x") note lefts rights x_compared
      x_left x_right

-- What the two maps come to: one difference.
differences_own : attribute_differences (codes "Code" ∷ []) lefts rights ≡ 1
unfolding attribute_differences match_attributes match_attribute count_missing is_among find erase
    same_info
differences_own = refl
