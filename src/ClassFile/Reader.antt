-- ===== src/ClassFile/Reader.antt =====
-- src/domain/classfile/reader: ClassFileReader with its two kinds, MemoryReader and FileReader. The
-- host is little-endian, as the code's `readHeader` takes it to be.
use tarracsh.Prelude.{
  ℕ, ◌+◌, ◌-◌, ◌*◌, ◌/◌, ◌%◌, ◌^◌, Bool, true, false, ◌||◌, List, [], ◌∷◌, ◌++◌, ◌==◌, ltb,
  if◌then◌else◌, length, take, drop, replicate,
}
use tarracsh.Outcome
use tarracsh.Outcome.{Outcome, ok, threw, fault, out_of_fuel}

pub data Source : Type 0 where
  memory file : Source

-- `rest` is what lies beyond `_position` in the buffer, or beyond the stream's position in the file.
pub record Reader : Type 0 where
  pub source : Source
  pub rest : List ℕ
  pub size : ℕ
  pub bytes_read : ℕ
  pub last_read_count : ℕ
  pub is_big_endian : Bool
  pub is_valid_header : Bool

abbrev pub Parse : Type 0 → Type 0
Parse A = Reader → Outcome (A × Reader)

infixl 5 ◌>>=◌
abbrev pub ◌>>=◌ : {A B : Type 0} → Parse A → (A → Parse B) → Parse B
◌>>=◌ p k r = Outcome.◌>>=◌ (p r) (λ (a, r'). k a r')

abbrev pub pure : {A : Type 0} → A → Parse A
pure a r = ok (a, r)

abbrev pub raise : {A : Type 0} → Parse A
raise r = threw

abbrev pub advance : ℕ → Reader → Reader
advance n r = record r { rest = drop n r.rest; last_read_count = n }

-- `readBytes`: the bytes that it puts at the front of the buffer. A MemoryReader throws if they are
-- not all there; a FileReader's stream delivers what is there, and `gcount()` counts it.
unfoldable pub read_bytes : ℕ → Parse (List ℕ)
read_bytes count r = elim r.source [
  | memory ↦ if ltb (length r.rest) count then threw else ok (take count r.rest, advance count r)
  | file ↦
      let there = take count r.rest in
      ok (there, record r { rest = drop count r.rest; last_read_count = length there })
]

-- `readRaw(buffer, count)`; `_bytesRead` is an unsigned int.
unfoldable pub read_raw : ℕ → Parse (List ℕ)
unfolding read_bytes
read_raw count r =
    if ltb r.size ((r.bytes_read + count) % 2 ^ 32)
    then threw
    else (read_bytes count >>= λ bytes r'.
          ok (bytes, record r' { bytes_read = (r'.bytes_read + count) % 2 ^ 32 }))
        r

-- A buffer of `count` zeros, with the bytes read put over its front.
abbrev pub over_zeros : ℕ → List ℕ → List ℕ
over_zeros count bytes = bytes ++ replicate (count - length bytes) 0

-- The number that the bytes in memory stand for, lowest first.
abbrev pub little : List ℕ → ℕ
little [] = 0
little (b ∷ bs) = b + 256 * little bs

-- `value >> 8 | value << 8`, cut to 16 bits; the operands of `|` have no bit in common.
abbrev pub swap_short : ℕ → ℕ
swap_short v = v / 256 + v * 256 % 2 ^ 16

-- The four bytes of a 32-bit number, moved as the code's masks and shifts move them.
abbrev pub swap_long : ℕ → ℕ
swap_long v =
    v / 2 ^ 24
    + v * 2 ^ 8 % 2 ^ 32 / 2 ^ 16 % 2 ^ 8 * 2 ^ 16
    + v / 2 ^ 8 / 2 ^ 8 % 2 ^ 8 * 2 ^ 8
    + v * 2 ^ 24 % 2 ^ 32

-- `read(u2&)` into a variable that holds 0.
unfoldable pub read_zeroed_u2 : Parse ℕ
unfolding read_raw
read_zeroed_u2 = do
  bytes ← read_raw 2
  λ r. let v = little (over_zeros 2 bytes) in ok (if r.is_big_endian then v else swap_short v, r)

-- `read(u4&)` into a variable that holds 0.
unfoldable pub read_zeroed_u4 : Parse ℕ
unfolding read_raw
read_zeroed_u4 = do
  bytes ← read_raw 4
  λ r. let v = little (over_zeros 4 bytes) in ok (if r.is_big_endian then v else swap_long v, r)

-- `readU1`, `readU2` and `readU4` read into a variable with no value: what is not read of it is
-- indeterminate.
unfoldable pub read_u1 : Parse ℕ
unfolding read_raw
read_u1 = do bytes ← read_raw 1; λ r. if length bytes == 1 then ok (little bytes, r) else fault

unfoldable pub read_u2 : Parse ℕ
unfolding read_raw
read_u2 = do
  bytes ← read_raw 2
  λ r.
      let v = little bytes in
      if length bytes == 2 then ok (if r.is_big_endian then v else swap_short v, r) else fault

unfoldable pub read_u4 : Parse ℕ
unfolding read_raw
read_u4 = do
  bytes ← read_raw 4
  λ r.
      let v = little bytes in
      if length bytes == 4 then ok (if r.is_big_endian then v else swap_long v, r) else fault

abbrev pub magic_number : ℕ
magic_number = 0xcafebabe

-- `readHeader`; the magic number of `_header` is 0 before it is read.
unfoldable pub read_header : Parse (Unit {0})
unfolding read_raw read_u2
read_header = do
  bytes ← read_raw 4
  λ r.
      let magic = little (over_zeros 4 bytes) in
      let big = magic == magic_number in
      let valid = big || magic == swap_long magic_number in
      let r' = record r { is_big_endian = big; is_valid_header = valid } in
      if valid then (read_u2 >>= λ minor. read_u2 >>= λ major. pure tt) r' else ok (tt, r')

-- The constructors. A file's size is the number of its bytes; a MemoryReader throws if it has none.
abbrev pub fresh : Source → List ℕ → Reader
fresh source bytes = record {
  source = source;
  rest = bytes;
  size = length bytes;
  bytes_read = 0;
  last_read_count = 0;
  is_big_endian = true;
  is_valid_header = false;
}

unfoldable pub open_reader : Source → List ℕ → Outcome Reader
unfolding read_header
open_reader memory [] = threw
open_reader source bytes = Outcome.◌>>=◌ (read_header (fresh source bytes)) (λ (u, r). ok r)
