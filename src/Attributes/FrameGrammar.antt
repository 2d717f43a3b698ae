-- ===== src/Attributes/FrameGrammar.antt =====
-- The layout of stack map frames by the Java virtual machine specification (4.7.4), as a writer.
use tarracsh.Prelude.{
  suc, ◌==◌, if◌then◌else◌, ℕ, ◌+◌, ◌-◌, ◌≤◌, ◌<◌, List, [], ◌∷◌, ◌++◌, length, All,
}
use tarracsh.ClassFile.Pool.{Bytes}
use tarracsh.ClassFile.Encode.{u2_bytes, Word16, write_all}
use tarracsh.Attributes.Frames.{
  FrameKind, same, same_locals, same_locals_extended, chop, same_extended, append, full, unknown,
  StackMapCounters,
}

-- verification_type_info: an item of one byte, an object of a class, or an uninitialized object.
pub data VerificationType : Type 0 where
  item : ℕ → VerificationType
  object : ℕ → VerificationType
  uninitialized : ℕ → VerificationType

abbrev pub write_type : VerificationType → Bytes
write_type (item tag) = tag ∷ []
write_type (object index) = 7 ∷ u2_bytes index
write_type (uninitialized offset) = 8 ∷ u2_bytes offset

abbrev pub TypeFits : VerificationType → Type 0
TypeFits (item tag) = tag < 7
TypeFits (object index) = Word16 index
TypeFits (uninitialized offset) = Word16 offset

-- stack_map_frame; `chop_frame` has the number of locals that are absent.
pub data Frame : Type 0 where
  same_frame : ℕ → Frame
  same_locals_1_stack_item_frame : ℕ → VerificationType → Frame
  same_locals_1_stack_item_frame_extended : ℕ → VerificationType → Frame
  chop_frame : ℕ → ℕ → Frame
  same_frame_extended : ℕ → Frame
  append_frame : ℕ → List VerificationType → Frame
  full_frame : ℕ → List VerificationType → List VerificationType → Frame

abbrev pub write_frame : Frame → Bytes
write_frame (same_frame offset) = offset ∷ []
write_frame (same_locals_1_stack_item_frame offset t) = (64 + offset) ∷ write_type t
write_frame (same_locals_1_stack_item_frame_extended offset t) =
    247 ∷ (u2_bytes offset ++ write_type t)
write_frame (chop_frame absent offset) = (251 - absent) ∷ u2_bytes offset
write_frame (same_frame_extended offset) = 251 ∷ u2_bytes offset
write_frame (append_frame offset locals) =
    (251 + length locals) ∷ (u2_bytes offset ++ write_all write_type locals)
write_frame (full_frame offset locals stack) =
    255
    ∷ (u2_bytes offset
        ++ (u2_bytes (length locals)
            ++ (write_all write_type locals
                ++ (u2_bytes (length stack) ++ write_all write_type stack))))

-- The ranges of the specification.
abbrev pub FrameFits : Frame → Type 0
FrameFits (same_frame offset) = offset < 64
FrameFits (same_locals_1_stack_item_frame offset t) = (offset < 64) × TypeFits t
FrameFits (same_locals_1_stack_item_frame_extended offset t) = Word16 offset × TypeFits t
FrameFits (chop_frame absent offset) = (1 ≤ absent) × (absent ≤ 3) × Word16 offset
FrameFits (same_frame_extended offset) = Word16 offset
FrameFits (append_frame offset locals) =
    (1 ≤ length locals) × (length locals ≤ 3) × Word16 offset × All TypeFits locals
FrameFits (full_frame offset locals stack) =
    Word16 offset
    × Word16 (length locals)
    × All TypeFits locals
    × Word16 (length stack)
    × All TypeFits stack

abbrev pub kind_of : Frame → FrameKind
kind_of (same_frame offset) = same
kind_of (same_locals_1_stack_item_frame offset t) = same_locals
kind_of (same_locals_1_stack_item_frame_extended offset t) = same_locals_extended
kind_of (chop_frame absent offset) = chop
kind_of (same_frame_extended offset) = same_extended
kind_of (append_frame offset locals) = append
kind_of (full_frame offset locals stack) = full

-- How many frames of a kind there are.
abbrev kind_number : FrameKind → ℕ
kind_number same = 0
kind_number same_locals = 1
kind_number same_locals_extended = 2
kind_number chop = 3
kind_number same_extended = 4
kind_number append = 5
kind_number full = 6
kind_number unknown = 7

abbrev pub number_of : FrameKind → List Frame → ℕ
number_of k [] = 0
number_of k (f ∷ fs) =
    let rest = number_of k fs in if kind_number k == kind_number (kind_of f) then suc rest else rest

-- The numbers of all kinds; the specification has no frames of another kind.
abbrev pub numbers_of : List Frame → StackMapCounters
numbers_of fs = record {
  same = number_of same fs;
  same_locals = number_of same_locals fs;
  same_locals_extended = number_of same_locals_extended fs;
  chop = number_of chop fs;
  same_extended = number_of same_extended fs;
  append = number_of append fs;
  full = number_of full fs;
  unknown = 0;
}
