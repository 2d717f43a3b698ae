-- ===== src/Diff/SameFile.antt =====
-- `start` of src/interfaces/cfdiff/ClassfileDiffApp.cpp on two files that hold one class.
use tarracsh.Prelude.{ℕ, ◌^◌, ◌<◌, ◌≡◌, refl, Bool, length, some}
use tarracsh.Outcome.{ok, fault, ◌>>=◌, >>=-ok}
use tarracsh.ClassFile.Reader.{file, open_reader}
use tarracsh.ClassFile.Parser.{parse}
use tarracsh.ClassFile.Encode.{Word16, Written, WrittenFits, write_class, parsed_class}
use tarracsh.ClassFile.RoundTrip.{parse-write_class}
use tarracsh.Diff.Compare.{Options}
use tarracsh.Diff.Application.{compared, after_left, after_right, start}
use tarracsh.Diff.Members
use tarracsh.Diff.Readable.{Readable}
use tarracsh.Diff.SelfMembers.{compare_self, freed_result, compare_self_freed}

-- Of two files that hold a class as the specification lays it out, each with versions of its own,
-- whatever is ignored, if the class's numbers fit, its names can be looked up, and the files are
-- shorter than 4 GB: the comparison reports no differences where no method is compared; where one is,
-- it reads a freed vector, which is undefined, and whatever is read there, reports no differences.
pub start-write_class :
    (empty : Bool) (o : Options) (minor major minor' major' : ℕ) (w : Written)
    → Word16 minor
    → Word16 major
    → Word16 minor'
    → Word16 major'
    → WrittenFits w
    → Readable (parsed_class w)
    → length (write_class minor major w) < 2 ^ 32
    → length (write_class minor' major' w) < 2 ^ 32
    → (start fault o (write_class minor major w) (write_class minor' major' w) ≡ (
        freed_result (Members.compared o (parsed_class w).methods) 0 >>= λ count.
        ok (compared count)))
      × (start (ok empty) o (write_class minor major w) (write_class minor' major' w)
          ≡ ok (compared 0))
unfolding start after_left after_right
start-write_class empty o minor major minor' major' w a b a' b' fits readable small small' =
    let (left, opened, parsed) =
      >>=-ok (open_reader file (write_class minor major w)) parse (some (parsed_class w))
        (parse-write_class file minor major w a b fits small) in
    let (right, opened', parsed') =
      >>=-ok (open_reader file (write_class minor' major' w)) parse (some (parsed_class w))
        (parse-write_class file minor' major' w a' b' fits small') in
    (
      rw
          (
            opened,
            opened',
            parsed,
            parsed',
            compare_self_freed o (parsed_class w) readable
                (Members.compared o (parsed_class w).methods) refl,
          )
          refl,
      rw (opened, opened', parsed, parsed', compare_self empty o (parsed_class w) readable) refl,
    )
