-- ===== src/Attributes/Frames.antt =====
-- `toStringStackMapTable` of src/domain/classfile/AttributesManager.h.
use tarracsh.Prelude.{
  ℕ, zero, suc, ◌+◌, ◌-◌, ◌&&◌, ◌||◌, ◌==◌, ltb, leb, List, [], ◌∷◌, ◌++◌, codes, if◌then◌else◌,
}
use tarracsh.ClassFile.Pool.{Bytes}
use tarracsh.Annotations.Reader.{Decode, ◌>>=◌, pure, read_u1, read_u2}
use tarracsh.Attributes.Texts.{Formats, join}

-- The branches of the loop, by `frameType`.
pub data FrameKind : Type 0 where
  same same_locals same_locals_extended chop same_extended append full unknown : FrameKind

unfoldable pub frame_kind : ℕ → FrameKind
frame_kind frame_type =
    if leb frame_type 63
    then same
    else if leb frame_type 127
    then same_locals
    else if frame_type == 247
    then same_locals_extended
    else if leb 248 frame_type && leb frame_type 250
    then chop
    else if frame_type == 251
    then same_extended
    else if leb 252 frame_type && leb frame_type 254
    then append
    else if frame_type == 255
    then full
    else unknown

-- `skipVerificationType`: JVM_ITEM_Object and JVM_ITEM_Uninitialized have two bytes more.
unfoldable pub skip_verification_type : Decode (Unit {0})
skip_verification_type =
    read_u1 >>= λ tag. if tag == 7 || tag == 8 then (read_u2 >>= λ index. pure tt) else pure tt

unfoldable pub skip_verification_types : ℕ → Decode (Unit {0})
skip_verification_types zero = pure tt
skip_verification_types (suc n) = skip_verification_type >>= λ done. skip_verification_types n

-- What a branch reads.
unfoldable pub skip_frame : ℕ → FrameKind → Decode (Unit {0})
skip_frame frame_type same = pure tt
skip_frame frame_type same_locals = skip_verification_type
skip_frame frame_type same_locals_extended = read_u2 >>= λ offset. skip_verification_type
skip_frame frame_type chop = read_u2 >>= λ offset. pure tt
skip_frame frame_type same_extended = read_u2 >>= λ offset. pure tt
skip_frame frame_type append = read_u2 >>= λ offset. skip_verification_types (frame_type - 251)
skip_frame frame_type full = read_u2 >>= λ offset. read_u2 >>= λ locals.
    skip_verification_types locals >>= λ done.
    read_u2 >>= λ stack_items. skip_verification_types stack_items
skip_frame frame_type unknown = pure tt

-- `StackMapCounters`; with at most 2^16 frames none wraps around.
pub record StackMapCounters : Type 0 where
  pub same : ℕ
  pub same_locals : ℕ
  pub same_locals_extended : ℕ
  pub chop : ℕ
  pub same_extended : ℕ
  pub append : ℕ
  pub full : ℕ
  pub unknown : ℕ

abbrev pub no_frames : StackMapCounters
no_frames = record {
  same = 0;
  same_locals = 0;
  same_locals_extended = 0;
  chop = 0;
  same_extended = 0;
  append = 0;
  full = 0;
  unknown = 0;
}

unfoldable pub count_frame : FrameKind → StackMapCounters → StackMapCounters
count_frame same c = record c { same = c.same + 1 }
count_frame same_locals c = record c { same_locals = c.same_locals + 1 }
count_frame same_locals_extended c = record c { same_locals_extended = c.same_locals_extended + 1 }
count_frame chop c = record c { chop = c.chop + 1 }
count_frame same_extended c = record c { same_extended = c.same_extended + 1 }
count_frame append c = record c { append = c.append + 1 }
count_frame full c = record c { full = c.full + 1 }
count_frame unknown c = record c { unknown = c.unknown + 1 }

-- The loop over the entries.
unfoldable pub read_frames : ℕ → StackMapCounters → Decode StackMapCounters
read_frames zero counters = pure counters
read_frames (suc n) counters = read_u1 >>= λ frame_type.
    skip_frame frame_type (frame_kind frame_type) >>= λ done.
    read_frames n (count_frame (frame_kind frame_type) counters)

module _ (formats : Formats) where
  -- A round of the loop over `summary`.
  unfoldable pub summary_part : Bytes → ℕ → List Bytes → List Bytes
  summary_part label count parts =
      if ltb 0 count then (label ++ b'=' ∷ formats.number count) ∷ parts else parts

  unfoldable pub summary_parts : StackMapCounters → List Bytes
  summary_parts c = summary_part (codes "same") c.same (
      summary_part (codes "same_locals") c.same_locals (
        summary_part (codes "same_locals_ext") c.same_locals_extended (
          summary_part (codes "chop") c.chop (
            summary_part (codes "same_ext") c.same_extended (
              summary_part (codes "append") c.append (
                summary_part (codes "full") c.full
                  (summary_part (codes "unknown") c.unknown [])))))))

  abbrev pub frames_text : ℕ → List Bytes → Bytes
  frames_text entry_count [] = codes " frames=" ++ formats.number entry_count
  frames_text entry_count (part ∷ parts) =
      codes " frames="
      ++ (formats.number entry_count
          ++ (codes ", [" ++ (join (codes ", ") (part ∷ parts) ++ codes "]")))

  unfoldable pub stack_map_text : ℕ → StackMapCounters → Bytes
  stack_map_text entry_count counters =
      if entry_count == 0
      then codes " (no frames)"
      else frames_text entry_count (summary_parts counters)

  -- `toStringStackMapTable`
  unfoldable pub stack_map_table_to_string : Decode Bytes
  stack_map_table_to_string = read_u2 >>= λ entry_count.
      read_frames entry_count no_frames >>= λ counters.
      pure (codes "Attr - StackMapTable" ++ stack_map_text entry_count counters)
