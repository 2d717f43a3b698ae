-- ===== src/ClassFile/Reads.antt =====
-- What it is for a piece of the parser to read a value off the front of the input, and the rules by
-- which pieces are put together.
use tarracsh.Prelude.{
  ℕ, ◌+◌, ◌*◌, ◌%◌, ◌^◌, ◌≤◌, ◌<◌, ◌≡◌, refl, Bool, false, List, [], ◌∷◌, ◌++◌, append_assoc,
  length, length-append, take, drop, All, arith, ltb-ge,
}
use tarracsh.Outcome.{ok}
use tarracsh.ClassFile.Reader.{
  Source, memory, file, Reader, Parse, ◌>>=◌, pure, read_bytes, read_raw, little, swap_short,
  swap_long, read_u1, read_u2, read_u4, read_zeroed_u2, read_zeroed_u4,
}
use tarracsh.ClassFile.Pool.{Bytes}
use tarracsh.ClassFile.Parser.{times}
use tarracsh.ClassFile.Encode.{u2_bytes, u4_bytes, Word16, Word32, write_all}

-- A reader of a class file in the usual byte order, `header` telling whether it is valid.
abbrev pub reader : Source → ℕ → Bool → ℕ → ℕ → Bytes → Reader
reader source size header bytes_read last rest = record {
  source = source;
  rest = rest;
  size = size;
  bytes_read = bytes_read;
  last_read_count = last;
  is_big_endian = false;
  is_valid_header = header;
}

-- From either source and whatever follows, `p` consumes the bytes `bs` and returns `v`. The size
-- accounts for what is read and what is left, and an unsigned int can hold it.
pub record Reads {A : Type 0} (p : Parse A) (bs : Bytes) (v : A) : Type 0 where
  pub run :
      (source : Source) (size : ℕ) (header : Bool) (n last : ℕ) (k : Bytes)
      → n + length (bs ++ k) ≤ size
      → size < 2 ^ 32
      → (n' : ℕ) × (last' : ℕ) × (p (reader source size header n last (bs ++ k))
          ≡ ok (v, reader source size header n' last' k))
        × (n' + length k ≤ size)

pub Reads-pure : {A : Type 0} (a : A) → Reads (pure a) [] a
Reads-pure a = record { run = λ source size header n last k h small. (n, last, refl, h) }

pub Reads-bind :
    {A B : Type 0} (p : Parse A) (q : A → Parse B) (bs cs : Bytes) (a : A) (b : B)
    → Reads p bs a
    → Reads (q a) cs b
    → Reads (p >>= q) (bs ++ cs) b
Reads-bind p q bs cs a b hp hq = record {
  run = λ source size header n last k h small.
      let fit = rw append_assoc at h in
      let (n₁, last₁, e₁, f₁) = hp.run source size header n last (cs ++ k) fit small in
      let (n₂, last₂, e₂, f₂) = hq.run source size header n₁ last₁ k f₁ small in
      (n₂, last₂, rw (append_assoc, e₁, e₂), f₂);
}

-- A piece that reads nothing more.
pub Reads-map :
    {A B : Type 0} (p : Parse A) (f : A → B) (bs : Bytes) (a : A)
    → Reads p bs a
    → Reads (p >>= λ x. pure (f x)) bs (f a)
Reads-map p f bs a hp = record {
  run = λ source size header n last k h small.
      let (n₁, last₁, e₁, f₁) = hp.run source size header n last k h small in
      (n₁, last₁, rw e₁, f₁);
}

take_front : (bs k : Bytes) → take (length bs) (bs ++ k) ≡ bs
take_front [] k = refl
take_front (b ∷ bs) k = rw (take_front bs k)

drop_front : (bs k : Bytes) → drop (length bs) (bs ++ k) ≡ k
drop_front [] k = refl
drop_front (b ∷ bs) k = drop_front bs k

bytes_step :
    (bs : Bytes) (source : Source) (size : ℕ) (header : Bool) (n last : ℕ) (k : Bytes)
    → read_bytes (length bs) (reader source size header n last (bs ++ k))
      ≡ ok (bs, reader source size header n (length bs) k)
unfolding read_bytes
bytes_step bs memory size header n last k =
    let there = ltb-ge (length (bs ++ k)) (length bs) (omega (arith, length-append {0} bs k)) in
    rw (there, take_front bs k, drop_front bs k)
bytes_step bs file size header n last k = rw (take_front bs k, drop_front bs k)

pub Reads-bytes : (bs : Bytes) → Reads (read_bytes (length bs)) bs bs
Reads-bytes bs = record {
  run = λ source size header n last k h small. (
    n,
    length bs,
    bytes_step bs source size header n last k,
    omega (arith, length-append {0} bs k),
  );
}

pub Reads-raw : (bs : Bytes) → Reads (read_raw (length bs)) bs bs
unfolding read_raw
Reads-raw bs = record {
  run = λ source size header n last k h small.
      let whole = length-append {0} bs k in
      let no_wrap : (n + length bs) % 2 ^ 32 ≡ n + length bs = omega (arith, whole) in
      let no_throw = ltb-ge size (n + length bs) (omega (arith, whole)) in
      (
        n + length bs,
        length bs,
        rw (no_wrap, no_throw, bytes_step bs source size header n last k, no_wrap),
        omega (arith, whole),
      );
}

pub swap_short_lem : (n : ℕ) → Word16 n → swap_short (little (u2_bytes n)) ≡ n
swap_short_lem n h = omega arith

pub swap_long_lem : (n : ℕ) → Word32 n → swap_long (little (u4_bytes n)) ≡ n
swap_long_lem n h = omega arith

-- The numbers of a class file are read back.
pub Reads-u1 : (n : ℕ) → Reads read_u1 (n ∷ []) n
unfolding read_u1
Reads-u1 n = record {
  run = λ source size header m last k h small.
      let (n₁, last₁, e₁, f₁) = (Reads-raw (n ∷ [])).run source size header m last k h small in
      let same : n + 256 * 0 ≡ n = omega arith in (n₁, last₁, rw (e₁, same), f₁);
}

pub Reads-u2 : (n : ℕ) → Word16 n → Reads read_u2 (u2_bytes n) n
unfolding read_u2
Reads-u2 n fits = record {
  run = λ source size header m last k h small.
      let (n₁, last₁, e₁, f₁) = (Reads-raw (u2_bytes n)).run source size header m last k h small in
      (n₁, last₁, rw (e₁, swap_short_lem n fits), f₁);
}

pub Reads-u4 : (n : ℕ) → Word32 n → Reads read_u4 (u4_bytes n) n
unfolding read_u4
Reads-u4 n fits = record {
  run = λ source size header m last k h small.
      let (n₁, last₁, e₁, f₁) = (Reads-raw (u4_bytes n)).run source size header m last k h small in
      (n₁, last₁, rw (e₁, swap_long_lem n fits), f₁);
}

pub Reads-zeroed_u2 : (n : ℕ) → Word16 n → Reads read_zeroed_u2 (u2_bytes n) n
unfolding read_zeroed_u2
Reads-zeroed_u2 n fits = record {
  run = λ source size header m last k h small.
      let (n₁, last₁, e₁, f₁) = (Reads-raw (u2_bytes n)).run source size header m last k h small in
      (n₁, last₁, rw (e₁, swap_short_lem n fits), f₁);
}

pub Reads-zeroed_u4 : (n : ℕ) → Word32 n → Reads read_zeroed_u4 (u4_bytes n) n
unfolding read_zeroed_u4
Reads-zeroed_u4 n fits = record {
  run = λ source size header m last k h small.
      let (n₁, last₁, e₁, f₁) = (Reads-raw (u4_bytes n)).run source size header m last k h small in
      (n₁, last₁, rw (e₁, swap_long_lem n fits), f₁);
}

pub Reads-times :
    {A : Type 0} (p : Parse A) (write_one : A → Bytes) (xs : List A)
    → All (λ a. Reads p (write_one a) a) xs
    → Reads (times p (length xs)) (write_all write_one xs) xs
unfolding times
Reads-times p write_one [] h = Reads-pure []
Reads-times p write_one (a ∷ xs) h =
    Reads-bind p _ (write_one a) (write_all write_one xs) a (a ∷ xs) h.0 (
      Reads-map (times p (length xs)) (λ rest. a ∷ rest) (write_all write_one xs) xs
        (Reads-times p write_one xs h.1))
