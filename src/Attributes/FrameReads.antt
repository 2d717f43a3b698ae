-- ===== src/Attributes/FrameReads.antt =====
-- Reading stack map frames with src/domain/classfile/AttributesManager.h.
use tarracsh.Prelude.{
  suc, ap, subst, ◌∙◌, ℕ, ◌+◌, ◌-◌, ◌<◌, ◌≡◌, refl, ◌||◌, ◌==◌, false, List, [], ◌∷◌, ◌++◌, length,
  All, codes, arith,
}
use tarracsh.Outcome.{ok}
use tarracsh.ClassFile.Pool.{Bytes}
use tarracsh.ClassFile.Encode.{u2_bytes, Word16, write_all}
use tarracsh.Annotations.Reader.{read_u1, read_u2}
use tarracsh.Annotations.RoundTrip.{
  at, Reads, Reads-pure, Reads-bind, Reads-last, read_u1-Reads, read_u2-Reads,
}
use tarracsh.Attributes.Texts.{Formats}
use tarracsh.Attributes.Frames.{
  same, same_locals, same_locals_extended, chop, same_extended, append, full, frame_kind,
  skip_verification_type, skip_verification_types, skip_frame, StackMapCounters, no_frames,
  count_frame, read_frames, stack_map_text, stack_map_table_to_string,
}
use tarracsh.Attributes.FrameGrammar.{
  VerificationType, item, object, uninitialized, write_type, TypeFits, Frame, same_frame,
  same_locals_1_stack_item_frame, same_locals_1_stack_item_frame_extended, chop_frame,
  same_frame_extended, append_frame, full_frame, write_frame, FrameFits, kind_of, number_of,
  numbers_of,
}

item_test : (tag : ℕ) → tag < 7 → (tag == 7 || tag == 8) ≡ false
item_test tag h = ground (arith, h)

type-Reads : (t : VerificationType) → TypeFits t → Reads skip_verification_type (write_type t) tt
unfolding skip_verification_type
type-Reads (item tag) h =
    Reads-bind read_u1 _ (tag ∷ []) [] tag tt (read_u1-Reads tag)
      (rw (item_test tag h) (Reads-pure tt))
type-Reads (object index) h =
    Reads-bind read_u1 _ (7 ∷ []) (u2_bytes index) 7 tt (read_u1-Reads 7)
      (Reads-last read_u2 (λ i. tt) (u2_bytes index) index (read_u2-Reads index h))
type-Reads (uninitialized offset) h =
    Reads-bind read_u1 _ (8 ∷ []) (u2_bytes offset) 8 tt (read_u1-Reads 8)
      (Reads-last read_u2 (λ i. tt) (u2_bytes offset) offset (read_u2-Reads offset h))

types-Reads :
    (ts : List VerificationType)
    → All TypeFits ts
    → Reads (skip_verification_types (length ts)) (write_all write_type ts) tt
unfolding skip_verification_types
types-Reads [] h = Reads-pure tt
types-Reads (t ∷ ts) (p, h) =
    Reads-bind skip_verification_type _ (write_type t) (write_all write_type ts) tt tt
      (type-Reads t p) (types-Reads ts h)

-- The first byte of a frame, and what follows it.
abbrev frame_type_of : Frame → ℕ
frame_type_of (same_frame offset) = offset
frame_type_of (same_locals_1_stack_item_frame offset t) = 64 + offset
frame_type_of (same_locals_1_stack_item_frame_extended offset t) = 247
frame_type_of (chop_frame absent offset) = 251 - absent
frame_type_of (same_frame_extended offset) = 251
frame_type_of (append_frame offset locals) = 251 + length locals
frame_type_of (full_frame offset locals stack) = 255

abbrev body_of : Frame → Bytes
body_of (same_frame offset) = []
body_of (same_locals_1_stack_item_frame offset t) = write_type t
body_of (same_locals_1_stack_item_frame_extended offset t) = u2_bytes offset ++ write_type t
body_of (chop_frame absent offset) = u2_bytes offset
body_of (same_frame_extended offset) = u2_bytes offset
body_of (append_frame offset locals) = u2_bytes offset ++ write_all write_type locals
body_of (full_frame offset locals stack) =
    u2_bytes offset
    ++ (u2_bytes (length locals)
        ++ (write_all write_type locals ++ (u2_bytes (length stack) ++ write_all write_type stack)))

frame_split : (f : Frame) → write_frame f ≡ frame_type_of f ∷ body_of f
frame_split (same_frame offset) = refl
frame_split (same_locals_1_stack_item_frame offset t) = refl
frame_split (same_locals_1_stack_item_frame_extended offset t) = refl
frame_split (chop_frame absent offset) = refl
frame_split (same_frame_extended offset) = refl
frame_split (append_frame offset locals) = refl
frame_split (full_frame offset locals stack) = refl

frame_kind-kind_of : (f : Frame) → FrameFits f → frame_kind (frame_type_of f) ≡ kind_of f
unfolding frame_kind
frame_kind-kind_of (same_frame offset) h = ground (arith, h)
frame_kind-kind_of (same_locals_1_stack_item_frame offset t) h = ground (arith, h)
frame_kind-kind_of (same_locals_1_stack_item_frame_extended offset t) h = refl
frame_kind-kind_of (chop_frame absent offset) h = ground (arith, h)
frame_kind-kind_of (same_frame_extended offset) h = refl
frame_kind-kind_of (append_frame offset locals) h = ground (arith, h)
frame_kind-kind_of (full_frame offset locals stack) h = refl

count_lem : (n : ℕ) → 251 + n - 251 ≡ n
count_lem n = omega arith

body-Reads :
    (f : Frame) → FrameFits f → Reads (skip_frame (frame_type_of f) (kind_of f)) (body_of f) tt
unfolding skip_frame
body-Reads (same_frame offset) h = Reads-pure tt
body-Reads (same_locals_1_stack_item_frame offset t) (a, h) = type-Reads t h
body-Reads (same_locals_1_stack_item_frame_extended offset t) (a, h) =
    Reads-bind read_u2 _ (u2_bytes offset) (write_type t) offset tt (read_u2-Reads offset a)
      (type-Reads t h)
body-Reads (chop_frame absent offset) (a, b, h) =
    Reads-last read_u2 (λ i. tt) (u2_bytes offset) offset (read_u2-Reads offset h)
body-Reads (same_frame_extended offset) h =
    Reads-last read_u2 (λ i. tt) (u2_bytes offset) offset (read_u2-Reads offset h)
body-Reads (append_frame offset locals) (a, b, c, h) =
    Reads-bind read_u2 _ (u2_bytes offset) (write_all write_type locals) offset tt
      (read_u2-Reads offset c) (rw (count_lem (length locals)) (types-Reads locals h))
body-Reads (full_frame offset locals stack) (a, b, h, c, k) =
    let behind = u2_bytes (length stack) ++ write_all write_type stack in
    Reads-bind read_u2 _ (u2_bytes offset)
      (u2_bytes (length locals) ++ (write_all write_type locals ++ behind)) offset tt
      (read_u2-Reads offset a)
      (Reads-bind read_u2 _ (u2_bytes (length locals)) (write_all write_type locals ++ behind)
        (length locals) tt (read_u2-Reads (length locals) b)
        (Reads-bind (skip_verification_types (length locals)) _ (write_all write_type locals) behind
          tt tt (types-Reads locals h)
          (Reads-bind read_u2 _ (u2_bytes (length stack)) (write_all write_type stack)
            (length stack) tt (read_u2-Reads (length stack) c) (types-Reads stack k))))

-- The loop's counters after all frames.
abbrev tally : List Frame → StackMapCounters → StackMapCounters
tally [] counters = counters
tally (f ∷ fs) counters = tally fs (count_frame (kind_of f) counters)

abbrev added : List Frame → StackMapCounters → StackMapCounters
added fs c = record {
  same = c.same + number_of same fs;
  same_locals = c.same_locals + number_of same_locals fs;
  same_locals_extended = c.same_locals_extended + number_of same_locals_extended fs;
  chop = c.chop + number_of chop fs;
  same_extended = c.same_extended + number_of same_extended fs;
  append = c.append + number_of append fs;
  full = c.full + number_of full fs;
  unknown = c.unknown;
}

one_more : (n k : ℕ) → n + 1 + k ≡ n + suc k
one_more n k = omega arith

added-count_frame :
    (f : Frame) (fs : List Frame) (c : StackMapCounters)
    → added fs (count_frame (kind_of f) c) ≡ added (f ∷ fs) c
unfolding count_frame
added-count_frame (same_frame o) fs c =
    ap (λ n. record (added fs c) { same = n }) (one_more c.same (number_of same fs))
added-count_frame (same_locals_1_stack_item_frame o t) fs c =
    ap (λ n. record (added fs c) { same_locals = n })
      (one_more c.same_locals (number_of same_locals fs))
added-count_frame (same_locals_1_stack_item_frame_extended o t) fs c =
    ap (λ n. record (added fs c) { same_locals_extended = n })
      (one_more c.same_locals_extended (number_of same_locals_extended fs))
added-count_frame (chop_frame a o) fs c =
    ap (λ n. record (added fs c) { chop = n }) (one_more c.chop (number_of chop fs))
added-count_frame (same_frame_extended o) fs c =
    ap (λ n. record (added fs c) { same_extended = n })
      (one_more c.same_extended (number_of same_extended fs))
added-count_frame (append_frame o ls) fs c =
    ap (λ n. record (added fs c) { append = n }) (one_more c.append (number_of append fs))
added-count_frame (full_frame o ls st) fs c =
    ap (λ n. record (added fs c) { full = n }) (one_more c.full (number_of full fs))

plus_zero : (n : ℕ) → n + 0 ≡ n
plus_zero n = omega arith

tally-added : (fs : List Frame) (c : StackMapCounters) → tally fs c ≡ added fs c
tally-added [] c =
    rw
      (
        plus_zero c.same,
        plus_zero c.same_locals,
        plus_zero c.same_locals_extended,
        plus_zero c.chop,
        plus_zero c.same_extended,
        plus_zero c.append,
        plus_zero c.full,
      )
      refl
tally-added (f ∷ fs) c = tally-added fs (count_frame (kind_of f) c) ∙ added-count_frame f fs c

zero_plus : (n : ℕ) → 0 + n ≡ n
zero_plus n = omega arith

added-no_frames : (fs : List Frame) → added fs no_frames ≡ numbers_of fs
added-no_frames fs =
    rw
      (
        zero_plus (number_of same fs),
        zero_plus (number_of same_locals fs),
        zero_plus (number_of same_locals_extended fs),
        zero_plus (number_of chop fs),
        zero_plus (number_of same_extended fs),
        zero_plus (number_of append fs),
        zero_plus (number_of full fs),
      )
      refl

frames-Reads :
    (fs : List Frame) (counters : StackMapCounters)
    → All FrameFits fs
    → Reads (read_frames (length fs) counters) (write_all write_frame fs) (tally fs counters)
unfolding read_frames
frames-Reads [] counters h = Reads-pure counters
frames-Reads (f ∷ fs) counters (p, h) = rw (frame_split f) (
    Reads-bind read_u1 _ (frame_type_of f ∷ []) (body_of f ++ write_all write_frame fs)
      (frame_type_of f) (tally (f ∷ fs) counters) (read_u1-Reads (frame_type_of f))
      (rw (frame_kind-kind_of f p) (
        Reads-bind (skip_frame (frame_type_of f) (kind_of f)) _ (body_of f)
          (write_all write_frame fs) tt (tally (f ∷ fs) counters) (body-Reads f p)
          (frames-Reads fs (count_frame (kind_of f) counters) h))))

-- Stack map frames as the specification lays them out are skipped one by one to their end, whatever
-- follows, and the text reports how many there are of each kind.
pub stack_map_table_to_string-write :
    (formats : Formats) (fs : List Frame) (k : Bytes)
    → Word16 (length fs)
    → All FrameFits fs
    → stack_map_table_to_string formats
        (at (u2_bytes (length fs) ++ (write_all write_frame fs ++ k)))
      ≡ ok
          (codes "Attr - StackMapTable" ++ stack_map_text formats (length fs) (numbers_of fs), at k)
unfolding stack_map_table_to_string
stack_map_table_to_string-write formats fs k c h =
    (Reads-bind read_u2 _ (u2_bytes (length fs)) (write_all write_frame fs) (length fs) _
        (read_u2-Reads (length fs) c)
        (Reads-last (read_frames (length fs) no_frames)
          (λ counters. codes "Attr - StackMapTable" ++ stack_map_text formats (length fs) counters)
          (write_all write_frame fs) (numbers_of fs)
          (subst (Reads (read_frames (length fs) no_frames) (write_all write_frame fs))
            (tally-added fs no_frames ∙ added-no_frames fs) (frames-Reads fs no_frames h)))).run
      k
