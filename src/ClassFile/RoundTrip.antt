-- ===== src/ClassFile/RoundTrip.antt =====
-- Opening and parsing the file that a writer lays out.
use tarracsh.Prelude.{
  ℕ, ◌+◌, ◌^◌, ◌≤◌, ◌<◌, ◌≡◌, refl, true, [], ◌∷◌, ◌++◌, length, arith, ltb-ge, some, append-nil,
}
use tarracsh.Outcome
use tarracsh.Outcome.{Outcome, ok}
use tarracsh.ClassFile.Reader.{
  Source, memory, file, ◌>>=◌, pure, read_bytes, read_raw, read_u2, fresh, open_reader, read_header,
}
use tarracsh.ClassFile.Pool.{Bytes}
use tarracsh.ClassFile.Parser.{parse}
use tarracsh.ClassFile.Encode.{
  u2_bytes, Word16, Written, WrittenFits, write_body, write_header, write_class, parsed_class,
}
use tarracsh.ClassFile.Reads.{reader, Reads, Reads-bind, Reads-map, Reads-u2}
use tarracsh.ClassFile.BodyReads.{Reads-body}

abbrev magic : Bytes
magic = 0xca ∷ 0xfe ∷ 0xba ∷ 0xbe ∷ []

magic_step :
    (source : Source) (k : Bytes)
    → read_raw 4 (fresh source (magic ++ k))
      ≡ ok (
        magic,
        record (fresh source (magic ++ k)) { rest = k; bytes_read = 4; last_read_count = 4 },
      )
unfolding read_raw read_bytes
magic_step memory k = rw (ltb-ge (length (magic ++ k)) 4 (omega arith))
magic_step file k = rw (ltb-ge (length (magic ++ k)) 4 (omega arith))

Reads-versions :
    (minor major : ℕ)
    → Word16 minor
    → Word16 major
    → Reads (read_u2 >>= λ a. read_u2 >>= λ b. pure tt) (u2_bytes minor ++ u2_bytes major) tt
Reads-versions minor major a b =
    Reads-bind read_u2 _ (u2_bytes minor) (u2_bytes major) minor tt (Reads-u2 minor a)
      (Reads-map read_u2 (λ x. tt) (u2_bytes major) major (Reads-u2 major b))

-- The header is read, and the reader stands behind it.
header_step :
    (source : Source) (minor major : ℕ) (k : Bytes)
    → Word16 minor
    → Word16 major
    → length (write_header minor major ++ k) < 2 ^ 32
    → (n : ℕ) × (last : ℕ) × (read_header (fresh source (write_header minor major ++ k))
        ≡ ok (tt, reader source (length (write_header minor major ++ k)) true n last k))
      × (n + length k ≤ length (write_header minor major ++ k))
unfolding read_header
header_step source minor major k a b small =
    let versions = u2_bytes minor ++ u2_bytes major in
    let size = length (write_header minor major ++ k) in
    let (n, last, e, f) =
      (Reads-versions minor major a b).run source size true 4 4 k (omega arith) small in
    (n, last, rw (magic_step source (versions ++ k), e), f)

open_step :
    (source : Source) (b : ℕ) (bytes : Bytes)
    → open_reader source (b ∷ bytes)
      ≡ Outcome.◌>>=◌ (read_header (fresh source (b ∷ bytes))) (λ (u, r). ok r)
unfolding open_reader
open_step memory b bytes = refl
open_step file b bytes = refl

-- Of a class whose numbers fit their fields, laid out as the specification has it, from a file or
-- from memory: opening a reader and parsing succeeds and gives the class's constant pool, main
-- class info, interfaces, fields, methods and attributes, if the file is shorter than 4 GB.
pub parse-write_class :
    (source : Source) (minor major : ℕ) (w : Written)
    → Word16 minor
    → Word16 major
    → WrittenFits w
    → length (write_class minor major w) < 2 ^ 32
    → Outcome.◌>>=◌ (open_reader source (write_class minor major w)) parse
      ≡ ok (some (parsed_class w))
unfolding parse
parse-write_class source minor major w a b fits small =
    let size = length (write_class minor major w) in
    let (n, last, e, f) = header_step source minor major (write_body w) a b small in
    let (n₁, last₁, e₁, f₁) =
      (Reads-body w fits).run source size true n last [] (rw append-nil f) small in
    let whole = rw append-nil at e₁ in rw (open_step source, e, whole)
