-- ===== src/Examples/ClassFiles.antt =====
-- The theorems on the class-file parser, at concrete inputs.
use tarracsh.Prelude.{
  none, ◌≡◌, ◌++◌, ◌-◌, [], ◌∷◌, true, codes, length, replicate, arith, some, ◌⊎◌, List, Option, ℕ,
}
use tarracsh.Outcome
use tarracsh.Outcome.{ok, threw, fault, out_of_fuel}
use tarracsh.ClassFile.Reader.{memory, file, Reader, open_reader}
use tarracsh.ClassFile.Pool.{utf8_info, class_info, long_info}
use tarracsh.ClassFile.Parser.{ClassFile, MemberInfo, read_attribute, parse}
use tarracsh.ClassFile.Encode.{Written, WrittenFits, MemberFits, write_class, parsed_class}
use tarracsh.ClassFile.Reads.{reader}
use tarracsh.ClassFile.RoundTrip.{parse-write_class}
use tarracsh.ClassFile.Returns.{parse-memory_returns}
use tarracsh.ClassFile.Indexes.{visit_indexes, entries_at, visit_indexes-entries_at}
use tarracsh.ClassFile.Pool.{ConstantPool}
use tarracsh.ClassFile.Truncated.{cut_off, read_attribute-cut_off}

-- A class with a long in its pool, an interface, a field, a method and an attribute.
abbrev member : MemberInfo
member = record {
  access_flags = 1;
  name_index = 1;
  descriptor_index = 1;
  attributes = record { name_index = 1; info = 7 ∷ 8 ∷ [] } ∷ [];
}

member_fits : MemberFits member
member_fits = record {
  access_flags = omega arith;
  name_index = omega arith;
  descriptor_index = omega arith;
  count = omega arith;
  attributes = ((omega arith, omega arith), tt);
}

abbrev small_class : Written
small_class = record {
  constants = utf8_info (codes "A") ∷ class_info 1 ∷ long_info 5 4294967295 ∷ [];
  main_class_info = record { access_flags = 33; this_class = 2; super_class = 0 };
  interfaces = 2 ∷ [];
  fields = member ∷ [];
  methods = member ∷ [];
  attributes = [];
}

small_class_fits : WrittenFits small_class
small_class_fits = record {
  pool = omega arith;
  constants = (omega arith, (omega arith, ((omega arith, omega arith), tt)));
  access_flags = omega arith;
  this_class = omega arith;
  super_class = omega arith;
  interface_count = omega arith;
  interfaces = (omega arith, tt);
  field_count = omega arith;
  fields = (member_fits, tt);
  method_count = omega arith;
  methods = (member_fits, tt);
  attribute_count = omega arith;
  attributes = tt;
}

parse-write_class_example :
    Outcome.◌>>=◌ (open_reader file (write_class 0 52 small_class)) parse
    ≡ ok (some (parsed_class small_class))
parse-write_class_example =
    parse-write_class file 0 52 small_class (omega arith) (omega arith) small_class_fits
      (omega arith)

abbrev cut_header : List ℕ
cut_header = 0xca ∷ 0xfe ∷ 0xba ∷ 0xbe ∷ 0 ∷ 0 ∷ 0 ∷ 52 ∷ 0 ∷ []

parse-memory_returns_example :
    (open_reader memory cut_header ≡ threw)
    ⊎ ((r : Reader) × ((open_reader memory cut_header ≡ ok r)
          × ((o : Option ClassFile) × (parse r ≡ ok o))))
parse-memory_returns_example = parse-memory_returns cut_header

abbrev two_left : List ℕ
two_left = 5 ∷ 6 ∷ []

read_attribute-cut_off_example :
    ((r : Reader) × (read_attribute (reader file 20 true 8 2 (cut_off 1 9 two_left))
        ≡ ok (record { name_index = 1; info = two_left ++ replicate (9 - length two_left) 0 }, r)))
    × (read_attribute (reader memory 20 true 8 2 (cut_off 1 9 two_left)) ≡ threw)
read_attribute-cut_off_example =
    read_attribute-cut_off 1 9 two_left 20 true 8 2 (omega arith) (omega arith) (omega arith)
      (omega arith) (omega arith)

-- What follows the first entry: a long with its second slot, and a class.
abbrev slots_behind : ConstantPool
slots_behind = some (long_info 0 5) ∷ none ∷ some (class_info 1) ∷ []

visit_indexes-entries_at_example :
    visit_indexes 5 (none ∷ some (utf8_info (codes "A")) ∷ slots_behind) 1
    ≡ ok (entries_at 0 (none ∷ some (utf8_info (codes "A")) ∷ slots_behind))
visit_indexes-entries_at_example =
    visit_indexes-entries_at (utf8_info (codes "A")) slots_behind (omega arith)
