-- ===== src/Diff/Application.antt =====
-- src/interfaces/cfdiff/ClassfileDiffApp.cpp: `compare` and `start`.
use tarracsh.Prelude.{ℕ, Bool, true, false, Option, none, some, ◌==◌}
use tarracsh.Outcome.{Outcome, ok, ◌>>=◌}
use tarracsh.ClassFile.Reader.{Reader, file, open_reader}
use tarracsh.ClassFile.Pool.{Bytes}
use tarracsh.ClassFile.Parser.{ClassFile, parse}
use tarracsh.Diff.Compare.{Options, compare_main_class}
use tarracsh.Diff.Members.{compare_members}

-- `compare`, of a new application, whose `_differenceCount` is 0; `stale` is what reading the freed
-- vector of `compareMethods` gives.
unfoldable pub compare : Outcome Bool → Options → ClassFile → ClassFile → Outcome ℕ
compare stale o l r = compare_main_class o l r 0 >>= compare_members stale o l r

-- What `start` reports after the command line: the number of differences, or for which of the files
-- it writes that it failed to parse.
pub data Report : Type 0 where
  compared : ℕ → Report
  not_parsed : Bool → Bool → Report

abbrev pub exit_code : Report → ℕ
exit_code (compared count) = 0
exit_code (not_parsed left right) = 1

-- `outputResult` writes that there are no differences.
abbrev pub shows_no_differences : Report → Bool
shows_no_differences (compared count) = count == 0
shows_no_differences (not_parsed left right) = false

-- `_leftParser->parse() && _rightParser->parse()`: the right file is parsed after the left one only,
-- and a parser that was not run has not succeeded.
unfoldable pub after_right : Outcome Bool → Options → ClassFile → Option ClassFile → Outcome Report
after_right stale o l none = ok (not_parsed false true)
after_right stale o l (some r) = compare stale o l r >>= λ count. ok (compared count)

unfoldable pub after_left : Outcome Bool → Options → Reader → Option ClassFile → Outcome Report
after_left stale o right none = ok (not_parsed true true)
after_left stale o right (some l) = parse right >>= after_right stale o l

-- Both files are opened, and their headers read, before the first is parsed.
unfoldable pub start : Outcome Bool → Options → Bytes → Bytes → Outcome Report
start stale o left_file right_file = open_reader file left_file >>= λ left.
    open_reader file right_file >>= λ right. parse left >>= after_left stale o right
