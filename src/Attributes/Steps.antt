-- ===== src/Attributes/Steps.antt =====
-- The steps of reading attributes with src/domain/classfile/AttributesManager.h that several share.
use tarracsh.Prelude.{
  ℕ, ◌+◌, ◌-◌, ◌<◌, ◌≤◌, ◌^◌, refl, List, [], ◌∷◌, ◌++◌, map, length, length-append, All, arith,
  lt→ltb,
}
use tarracsh.ClassFile.Pool.{Bytes}
use tarracsh.ClassFile.Encode.{u4_bytes, Word32, write_all}
use tarracsh.ClassFile.Reads.{swap_long_lem}
use tarracsh.StringPool.Layout.{drop-length}
use tarracsh.Annotations.Reader.{Decode, read_u4, times}
use tarracsh.Annotations.RoundTrip.{Reads, Reads-pure, Reads-bind, Reads-last}
use tarracsh.Attributes.Members.{jump}
use tarracsh.Attributes.Grammar.{IntLength}

pub read_u4-Reads : (n : ℕ) → Word32 n → Reads read_u4 (u4_bytes n) n
unfolding read_u4
read_u4-Reads n h = record { run = λ k. rw (swap_long_lem n h) refl }

sum_lem : (w r n : ℕ) → w < 2 ^ 31 → n < 2 ^ 31 → n ≤ r → w - r + n < 2 ^ 31
sum_lem w r n h k l = omega arith

-- In an attribute shorter than 2 GB, content is jumped over.
pub jump-Reads :
    (whole info : Bytes)
    → IntLength whole
    → IntLength info
    → Reads (jump whole (length info)) info tt
unfolding jump
jump-Reads whole info h i = record {
  run = λ k.
      rw
        (
          lt→ltb (length info) (2 ^ 31) i,
          lt→ltb (length whole - length (info ++ k) + length info) (2 ^ 31) (
              sum_lem (length whole) (length (info ++ k)) (length info) h i
                (omega (arith, length-append info k))),
          drop-length info k,
        )
        refl;
}

-- A loop whose rounds turn what they read into something else.
pub times_shown :
    {A B : Type 0} (one : Decode B) (write_one : A → Bytes) (show : A → B) (P : A → Type 0)
    → ((a : A) → P a → Reads one (write_one a) (show a))
    → (xs : List A) → All P xs
    → Reads (times (length xs) one) (write_all write_one xs) (map show xs)
unfolding times
times_shown one write_one show P h [] f = Reads-pure []
times_shown one write_one show P h (x ∷ xs) (f, fs) =
    Reads-bind one _ (write_one x) (write_all write_one xs) (show x) (map show (x ∷ xs)) (h x f) (
      Reads-last (times (length xs) one) (λ ys. show x ∷ ys) (write_all write_one xs) (map show xs)
        (times_shown one write_one show P h xs fs))
