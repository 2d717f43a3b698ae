-- ===== src/Attributes/Reads.antt =====
-- Reading Code and LineNumberTable attributes with src/domain/classfile/AttributesManager.h.
use tarracsh.Prelude.{ℕ, ◌≡◌, List, ◌++◌, map, length, All, codes, arith}
use tarracsh.Outcome.{ok}
use tarracsh.ClassFile.Pool.{Bytes, ConstantPool}
use tarracsh.ClassFile.Encode.{u2_bytes, u4_bytes, Word16, write_all}
use tarracsh.Annotations.Reader.{◌>>=◌, pure, read_u2, read_u4, times}
use tarracsh.Annotations.RoundTrip.{at, Reads, Reads-bind, Reads-last, read_u2-Reads, times-Reads}
use tarracsh.Attributes.Texts.{Formats}
use tarracsh.Attributes.Tables.{
  LineNumber, read_line_number, line_number_text, counted_text, line_number_table_to_string,
}
use tarracsh.Attributes.Members.{
  jump, ExceptionTable, read_exception, Code, read_code, code_text, code_to_string,
}
use tarracsh.Attributes.Grammar.{
  write_exception, ExceptionFits, WrittenCode, write_code, IntLength, CodeFits, write_line_number,
  LineNumberFits,
}
use tarracsh.Attributes.Steps.{read_u4-Reads, jump-Reads, times_shown}

exception-Reads :
    (e : ExceptionTable) → ExceptionFits e → Reads read_exception (write_exception e) e
unfolding read_exception
exception-Reads e (a, b, c, d) =
    Reads-bind read_u2 _ (u2_bytes e.start_pc)
      (u2_bytes e.end_pc ++ (u2_bytes e.handler_pc ++ u2_bytes e.catch_type)) e.start_pc e
      (read_u2-Reads e.start_pc a)
      (Reads-bind read_u2 _ (u2_bytes e.end_pc) (u2_bytes e.handler_pc ++ u2_bytes e.catch_type)
        e.end_pc e (read_u2-Reads e.end_pc b)
        (Reads-bind read_u2 _ (u2_bytes e.handler_pc) (u2_bytes e.catch_type) e.handler_pc e
          (read_u2-Reads e.handler_pc c)
          (Reads-last read_u2
            (λ n. record {
              start_pc = e.start_pc;
              end_pc = e.end_pc;
              handler_pc = e.handler_pc;
              catch_type = n;
            })
            (u2_bytes e.catch_type) e.catch_type (read_u2-Reads e.catch_type d))))

-- What the text is made of.
abbrev pub read_back : WrittenCode → Code
read_back c = record {
  max_stack = c.max_stack;
  max_locals = c.max_locals;
  code_length = length c.code;
  exception_table = c.exception_table;
}

code-Reads :
    (whole : Bytes) (c : WrittenCode)
    → IntLength whole
    → CodeFits c
    → Reads (read_code whole) (write_code c) (read_back c)
unfolding read_code
code-Reads whole c w h =
    let table =
      u2_bytes (length c.exception_table) ++ write_all write_exception c.exception_table in
    Reads-bind read_u2 _ (u2_bytes c.max_stack)
      (u2_bytes c.max_locals ++ (u4_bytes (length c.code) ++ (c.code ++ table))) c.max_stack
      (read_back c) (read_u2-Reads c.max_stack h.max_stack)
      (Reads-bind read_u2 _ (u2_bytes c.max_locals) (u4_bytes (length c.code) ++ (c.code ++ table))
        c.max_locals (read_back c) (read_u2-Reads c.max_locals h.max_locals)
        (Reads-bind read_u4 _ (u4_bytes (length c.code)) (c.code ++ table) (length c.code)
          (read_back c) (read_u4-Reads (length c.code) (omega (arith, h.code)))
          (Reads-bind (jump whole (length c.code)) _ c.code table tt (read_back c)
            (jump-Reads whole c.code w h.code)
            (Reads-bind read_u2 _ (u2_bytes (length c.exception_table))
              (write_all write_exception c.exception_table) (length c.exception_table) (read_back c)
              (read_u2-Reads (length c.exception_table) h.count)
              (Reads-last (times (length c.exception_table) read_exception)
                (λ table. record (read_back c) { exception_table = table })
                (write_all write_exception c.exception_table) c.exception_table
                (times-Reads read_exception write_exception ExceptionFits exception-Reads
                  c.exception_table h.exceptions))))))

-- The code of a method and the exceptions it handles, laid out as the specification has it in an
-- attribute shorter than 2 GB, are passed over, whatever follows, and the text reports the
-- sizes of the stack, the locals, the code and the table of exceptions.
pub code_to_string-write :
    (formats : Formats) (fuel : ℕ) (pool : ConstantPool) (whole : Bytes) (c : WrittenCode)
    (k : Bytes)
    → IntLength whole
    → CodeFits c
    → code_to_string formats fuel pool whole (at (write_code c ++ k))
      ≡ ok (
        codes "Attr - Code maxStack="
            ++ (formats.number c.max_stack
                ++ (codes ", maxLocals="
                    ++ (formats.number c.max_locals
                        ++ (codes ", codeLength="
                            ++ (formats.number (length c.code)
                                ++ (codes ", exceptionTableLength="
                                    ++ formats.number (length c.exception_table))))))),
        at k,
      )
unfolding code_to_string code_text
code_to_string-write formats fuel pool whole c k w h =
    (Reads-last (read_code whole) (λ d. codes "Attr - Code" ++ code_text formats fuel pool d)
        (write_code c) (read_back c) (code-Reads whole c w h)).run
      k

line_number-Reads :
    (formats : Formats) (fuel : ℕ) (pool : ConstantPool) (l : LineNumber)
    → LineNumberFits l
    → Reads
        (read_line_number >>= λ m. pure (line_number_text formats fuel pool m))
        (write_line_number l)
        (line_number_text formats fuel pool l)
unfolding read_line_number
line_number-Reads formats fuel pool l (a, b) =
    Reads-last read_line_number (line_number_text formats fuel pool) (write_line_number l) l (
      Reads-bind read_u2 _ (u2_bytes l.start_pc) (u2_bytes l.line_number) l.start_pc l
        (read_u2-Reads l.start_pc a)
        (Reads-last read_u2 (λ n. record { start_pc = l.start_pc; line_number = n })
          (u2_bytes l.line_number) l.line_number (read_u2-Reads l.line_number b)))

-- A table of line numbers, laid out as the specification has it, is shown entry by entry.
pub line_number_table_to_string-write :
    (formats : Formats) (fuel : ℕ) (pool : ConstantPool) (ls : List LineNumber) (k : Bytes)
    → Word16 (length ls)
    → All LineNumberFits ls
    → line_number_table_to_string formats fuel pool
        (at (u2_bytes (length ls) ++ (write_all write_line_number ls ++ k)))
      ≡ ok (
        codes "Attr - LineNumberTable"
            ++ counted_text formats fuel pool
                (codes " (empty)")
                (length ls)
                (map (line_number_text formats fuel pool) ls),
        at k,
      )
unfolding line_number_table_to_string
line_number_table_to_string-write formats fuel pool ls k n h =
    (Reads-bind read_u2 _ (u2_bytes (length ls)) (write_all write_line_number ls) (length ls) _
        (read_u2-Reads (length ls) n)
        (Reads-last
          (times (length ls)
            (read_line_number >>= λ m. pure (line_number_text formats fuel pool m)))
          (λ parts.
            codes "Attr - LineNumberTable"
            ++ counted_text formats fuel pool (codes " (empty)") (length ls) parts)
          (write_all write_line_number ls) (map (line_number_text formats fuel pool) ls)
          (times_shown (read_line_number >>= λ m. pure (line_number_text formats fuel pool m))
            write_line_number (line_number_text formats fuel pool) LineNumberFits
            (line_number-Reads formats fuel pool) ls h))).run
      k
