-- ===== src/Examples/AttributeTexts.antt =====
-- The theorems on the texts of attributes, at concrete inputs.
use tarracsh.Prelude.{
  replicate, suc, zero, ℕ, All, ◌≡◌, ◌↔◌, ◌+◌, refl, none, some, List, [], ◌∷◌, ◌++◌, length, codes,
  arith,
}
use tarracsh.Outcome.{ok, fault}
use tarracsh.ClassFile.Pool.{Bytes, ConstantPool, utf8_info, class_info}
use tarracsh.ClassFile.Entries.{get_entry, utf8_at, get_string}
use tarracsh.ClassFile.Encode.{u2_bytes, write_all}
use tarracsh.Annotations.RoundTrip.{at}
use tarracsh.ClassFile.EntryText.{get_type_string-emit}
use tarracsh.Descriptor.Grammar
use tarracsh.Descriptor.Grammar.{FieldDescriptor, int}
use tarracsh.Attributes.Texts.{Formats, listed, join, join_more}
use tarracsh.Attributes.Constants.{format_class_name, constant_pool_index_to_string}
use tarracsh.Attributes.Frames.{
  summary_part, summary_parts, stack_map_text, stack_map_table_to_string,
}
use tarracsh.Attributes.FrameGrammar.{
  item, object, Frame, same_frame, same_locals_1_stack_item_frame, chop_frame, append_frame,
  full_frame, write_frame, FrameFits, same_locals_1_stack_item_frame_extended, same_frame_extended,
  uninitialized,
}
use tarracsh.Attributes.FrameReads.{stack_map_table_to_string-write}
use tarracsh.Attributes.Members.{code_to_string, component_text, record_to_string}
use tarracsh.Attributes.Grammar.{WrittenCode, write_code, Component, write_component}
use tarracsh.Attributes.Reads.{code_to_string-write}
use tarracsh.Attributes.RecordReads.{record_to_string-write}
use tarracsh.Attributes.Manager.{code_tag, get_tag}
use tarracsh.Attributes.Tags.{specified_name, get_tag-specified_name_iff}
use tarracsh.Attributes.Escapes.{escape_utf8_injective}
use tarracsh.Attributes.ClassArguments.{constant_pool_index_to_string-class}

-- Numbers of one digit.
abbrev digit_formats : Formats
digit_formats = record {
  number = λ n. (b'0' + n) ∷ [];
  int_text = λ n. (b'0' + n) ∷ [];
  long_text = λ n. (b'0' + n) ∷ [];
  float_text = λ n. (b'0' + n) ∷ [];
  double_text = λ n. (b'0' + n) ∷ [];
}

abbrev text_pool : ConstantPool
text_pool =
    none ∷ some (utf8_info (codes "A")) ∷ some (class_info 1) ∷ some (utf8_info (codes "I")) ∷ []

-- A frame of the first kind, two of the second, and so on.
abbrev full_frames : List Frame
full_frames = replicate 7 (full_frame 6 (item 1 ∷ []) (object 2 ∷ []))

abbrev from_append : List Frame
from_append = replicate 6 (append_frame 5 (item 1 ∷ object 2 ∷ [])) ++ full_frames

abbrev from_same_extended : List Frame
from_same_extended = replicate 5 (same_frame_extended 301) ++ from_append

abbrev from_chop : List Frame
from_chop = replicate 4 (chop_frame 2 300) ++ from_same_extended

abbrev from_extended : List Frame
from_extended =
    replicate 3 (same_locals_1_stack_item_frame_extended 500 (uninitialized 9)) ++ from_chop

abbrev frames : List Frame
frames = same_frame 3 ∷ (replicate 2 (same_locals_1_stack_item_frame 4 (object 2)) ++ from_extended)

replicate-All :
    (n : ℕ) (f : Frame) (rest : List Frame)
    → FrameFits f
    → All FrameFits rest
    → All FrameFits (replicate n f ++ rest)
replicate-All zero f rest h k = k
replicate-All (suc n) f rest h k = (h, replicate-All n f rest h k)

full_frames-All : All FrameFits full_frames
full_frames-All =
    replicate-All 7 (full_frame 6 (item 1 ∷ []) (object 2 ∷ [])) []
      (omega arith, omega arith, (omega arith, tt), omega arith, (omega arith, tt)) tt

frames-All : All FrameFits frames
frames-All = (
  omega arith,
  replicate-All 2 (same_locals_1_stack_item_frame 4 (object 2)) from_extended
      (omega arith, omega arith)
      (replicate-All 3 (same_locals_1_stack_item_frame_extended 500 (uninitialized 9)) from_chop
        (omega arith, omega arith)
        (replicate-All 4 (chop_frame 2 300) from_same_extended
          (omega arith, omega arith, omega arith)
          (replicate-All 5 (same_frame_extended 301) from_append (omega arith) (
            replicate-All 6 (append_frame 5 (item 1 ∷ object 2 ∷ [])) full_frames
              (omega arith, omega arith, omega arith, (omega arith, (omega arith, tt)))
              full_frames-All)))),
)

-- A digit of 28 is an L.
stack_map_table_to_string-write_example :
    stack_map_table_to_string digit_formats
      (at (u2_bytes (length frames) ++ (write_all write_frame frames ++ (9 ∷ []))))
    ≡ ok (
      codes
          "Attr - StackMapTable frames=L, [same=1, same_locals=2, same_locals_ext=3, chop=4, same_ext=5, append=6, full=7]",
      at (9 ∷ []),
    )
unfolding stack_map_text summary_parts summary_part join join_more
stack_map_table_to_string-write_example =
    stack_map_table_to_string-write digit_formats frames (9 ∷ []) (omega arith) frames-All

abbrev small_code : WrittenCode
small_code = record {
  max_stack = 2;
  max_locals = 1;
  code = 42 ∷ 183 ∷ 0 ∷ 1 ∷ 177 ∷ [];
  exception_table = record { start_pc = 0; end_pc = 4; handler_pc = 4; catch_type = 2 } ∷ [];
}

code_to_string-write_example :
    code_to_string digit_formats 0 text_pool
      (write_code small_code)
      (at (write_code small_code ++ (0 ∷ 0 ∷ [])))
    ≡ ok (
      codes "Attr - Code maxStack=2, maxLocals=1, codeLength=5, exceptionTableLength=1",
      at (0 ∷ 0 ∷ []),
    )
code_to_string-write_example =
    code_to_string-write digit_formats 0 text_pool (write_code small_code) small_code (0 ∷ 0 ∷ [])
      (omega arith)
      (record {
        max_stack = omega arith;
        max_locals = omega arith;
        code = omega arith;
        count = omega arith;
        exceptions = ((omega arith, omega arith, omega arith, omega arith), tt);
      })

abbrev part : Component
part = record {
  name_index = 1;
  descriptor_index = 3;
  attributes = record { name_index = 1; info = 7 ∷ 8 ∷ 9 ∷ [] } ∷ [];
}

abbrev int_type : FieldDescriptor
int_type = record { dims = 0; component = Grammar.primitive int }

int_entry : utf8_at text_pool 3 ≡ ok (codes "I")
unfolding utf8_at get_entry
int_entry = refl

part_text : component_text digit_formats 9 text_pool 1 3 ≡ ok (codes "A:int")
unfolding component_text get_string utf8_at get_entry
part_text = rw (get_type_string-emit 9 text_pool 3 int_type int_entry (omega arith)) refl

record_to_string-write_example :
    record_to_string digit_formats 9 text_pool (write_component part) (
      at (
        u2_bytes 1
        ++ (write_all (λ (c : Component × Bytes). write_component c.0) ((part, codes "A:int") ∷ [])
            ++ [])))
    ≡ ok (
      codes "Attr - Record"
          ++ listed
              (codes " (no components)")
              (codes " components=" ++ digit_formats.number 1)
              (codes ", ")
              (codes "A:int" ∷ []),
      at [],
    )
record_to_string-write_example =
    record_to_string-write digit_formats 9 text_pool (write_component part)
      ((part, codes "A:int") ∷ []) [] (omega arith) (omega arith)
      (
        (
          record {
            name_index = omega arith;
            descriptor_index = omega arith;
            count = omega arith;
            attributes = ((omega arith, omega arith), tt);
          },
          part_text,
        ),
        tt,
      )

get_tag-specified_name_iff_example :
    (get_tag (codes "Code") ≡ code_tag) ↔ (codes "Code" ≡ specified_name code_tag)
get_tag-specified_name_iff_example = get_tag-specified_name_iff code_tag (codes "Code") cc

escape_utf8_injective_example : codes "a" ≡ codes "a"
escape_utf8_injective_example =
    escape_utf8_injective (codes "a") (codes "a") (omega arith, tt) (omega arith, tt) refl

class_entry : get_entry text_pool 2 ≡ ok (class_info 1)
unfolding get_entry
class_entry = refl

name_entry : get_entry text_pool 1 ≡ ok (utf8_info (codes "A"))
unfolding get_entry
name_entry = refl

constant_pool_index_to_string-class_example :
    (constant_pool_index_to_string digit_formats 0 text_pool 2 ≡ fault)
    × (format_class_name digit_formats 0 text_pool 2 ≡ ok (codes "A"))
constant_pool_index_to_string-class_example =
    constant_pool_index_to_string-class digit_formats 0 text_pool 2 1 b'A' [] (omega arith)
      (omega arith) class_entry name_entry
