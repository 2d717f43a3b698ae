-- ===== src/Attributes/RecordReads.antt =====
-- Reading Record attributes with src/domain/classfile/AttributesManager.h.
use tarracsh.Prelude.{ℕ, ◌≡◌, refl, List, [], ◌++◌, map, length, append-nil, All, codes, arith}
use tarracsh.Outcome.{Outcome, ok}
use tarracsh.ClassFile.Pool.{Bytes, ConstantPool}
use tarracsh.ClassFile.Parser.{AttributeInfo}
use tarracsh.ClassFile.Encode.{u2_bytes, u4_bytes, Word16, write_all, write_attribute}
use tarracsh.Annotations.Reader.{lift, read_u2, read_u4, times}
use tarracsh.Annotations.RoundTrip.{at, Reads, Reads-bind, Reads-last, read_u2-Reads}
use tarracsh.Attributes.Texts.{Formats, listed}
use tarracsh.Attributes.Members.{skip_attribute, component_text, read_component, record_to_string}
use tarracsh.Attributes.Grammar.{
  IntLength, Component, write_component, AttributePassed, ComponentFits,
}
use tarracsh.Attributes.Steps.{read_u4-Reads, jump-Reads, times_shown}

skip_attribute-Reads :
    (whole : Bytes) (a : AttributeInfo)
    → IntLength whole
    → AttributePassed a
    → Reads (skip_attribute whole) (write_attribute a) tt
unfolding skip_attribute
skip_attribute-Reads whole a w (n, h) =
    Reads-bind read_u2 _ (u2_bytes a.name_index) (u4_bytes (length a.info) ++ a.info) a.name_index
      tt (read_u2-Reads a.name_index n)
      (Reads-bind read_u4 _ (u4_bytes (length a.info)) a.info (length a.info) tt
        (read_u4-Reads (length a.info) (omega (arith, h))) (jump-Reads whole a.info w h))

-- A component with the text that the pool gives for it.
abbrev pub Shown : Formats → ℕ → ConstantPool → Component × Bytes → Type 0
Shown formats fuel pool (c, text) =
    ComponentFits c × (component_text formats fuel pool c.name_index c.descriptor_index ≡ ok text)

lift-Reads : {A : Type 0} (o : Outcome A) (a : A) → o ≡ ok a → Reads (lift o) [] a
lift-Reads o a e = record { run = λ k. rw e refl }

component-Reads :
    (formats : Formats) (fuel : ℕ) (pool : ConstantPool) (whole : Bytes) (c : Component × Bytes)
    → IntLength whole
    → Shown formats fuel pool c
    → Reads (read_component formats fuel pool whole) (write_component c.0) c.1
unfolding read_component
component-Reads formats fuel pool whole (c, text) w (h, shown) =
    let behind = u2_bytes (length c.attributes) ++ write_all write_attribute c.attributes in
    Reads-bind read_u2 _ (u2_bytes c.name_index) (u2_bytes c.descriptor_index ++ behind)
      c.name_index text (read_u2-Reads c.name_index h.name_index)
      (Reads-bind read_u2 _ (u2_bytes c.descriptor_index) behind c.descriptor_index text
        (read_u2-Reads c.descriptor_index h.descriptor_index)
        (Reads-bind read_u2 _ (u2_bytes (length c.attributes))
          (write_all write_attribute c.attributes) (length c.attributes) text
          (read_u2-Reads (length c.attributes) h.count)
          (rw (← append-nil (write_all write_attribute c.attributes)) (
            Reads-bind (times (length c.attributes) (skip_attribute whole)) _
              (write_all write_attribute c.attributes) [] (map (λ a. tt) c.attributes) text
              (times_shown (skip_attribute whole) write_attribute (λ a. tt) AttributePassed
                (λ a p. skip_attribute-Reads whole a w p) c.attributes h.attributes)
              (lift-Reads (component_text formats fuel pool c.name_index c.descriptor_index) text
                shown)))))

-- The components of a record, laid out as the specification has it in an attribute shorter than 2 GB,
-- are read to their end, whatever follows: the attributes of each are passed over, and the text lists
-- the texts that the pool gives for the components.
pub record_to_string-write :
    (formats : Formats) (fuel : ℕ) (pool : ConstantPool) (whole : Bytes)
    (cs : List (Component × Bytes)) (k : Bytes)
    → IntLength whole
    → Word16 (length cs)
    → All (Shown formats fuel pool) cs
    → record_to_string formats fuel pool whole
        (at (u2_bytes (length cs) ++ (write_all (λ c. write_component c.0) cs ++ k)))
      ≡ ok (
        codes "Attr - Record"
            ++ listed
                (codes " (no components)")
                (codes " components=" ++ formats.number (length cs))
                (codes ", ")
                (map (λ c. c.1) cs),
        at k,
      )
unfolding record_to_string
record_to_string-write formats fuel pool whole cs k w n h =
    (Reads-bind read_u2 _ (u2_bytes (length cs)) (write_all (λ c. write_component c.0) cs)
        (length cs) _ (read_u2-Reads (length cs) n)
        (Reads-last (times (length cs) (read_component formats fuel pool whole))
          (λ parts.
            codes "Attr - Record"
            ++ listed (codes " (no components)")
                (codes " components=" ++ formats.number (length cs)) (codes ", ") parts)
          (write_all (λ c. write_component c.0) cs) (map (λ c. c.1) cs)
          (times_shown (read_component formats fuel pool whole) (λ c. write_component c.0)
            (λ c. c.1) (Shown formats fuel pool)
            (λ c p. component-Reads formats fuel pool whole c w p) cs h))).run
      k
