-- ===== src/ClassFile/Returns.antt =====
-- On parsing any bytes in memory.
use tarracsh.Prelude.{
  ℕ, ◌≡◌, refl, Bool, true, false, [], ◌∷◌, length, some, none, inl, inr, ◌⊎◌, ◌||◌, if◌then◌else◌,
  ◌==◌, Option,
}
use tarracsh.Outcome.{Outcome, ok, threw, fault, out_of_fuel}
use tarracsh.ClassFile.Reader.{
  memory, Reader, Parse, ◌>>=◌, pure, read_raw, over_zeros, little, swap_long, magic_number,
  read_u2, read_zeroed_u2, fresh, open_reader, read_header,
}
use tarracsh.ClassFile.Pool.{Bytes}
use tarracsh.ClassFile.Parser.{
  MemberInfo, MainClassInfo, ClassFile, read_constants_pool, read_main_class_info, times,
  read_interfaces, read_attributes_section, read_field, read_method, read_fields, read_methods,
  read_attributes, process_file, caught, parse,
}
use tarracsh.ClassFile.Safe.{
  Returned, Safe, Anything, Returned-bind, Safe-bind, Safe-then, Safe-raw, Safe-u2, Safe-zeroed_u2,
  Safe-map,
}
use tarracsh.ClassFile.SafePool.{Safe-pool, Safe-times, Safe-section}

-- A member: three numbers and its attributes.
Safe-member :
    (number : Parse ℕ)
    → Safe Anything number
    → Safe {A = MemberInfo} Anything (
        number >>= λ a. number >>= λ b. number >>= λ c. read_u2 >>= λ n.
        read_attributes_section n >>= λ xs.
        pure (record { access_flags = a; name_index = b; descriptor_index = c; attributes = xs }))
Safe-member number h = Safe-then number _ h (λ a. Safe-then number _ h (λ b.
    Safe-then number _ h (λ c. Safe-then read_u2 _ Safe-u2 (λ n.
      Safe-map {B = MemberInfo} (read_attributes_section n)
        (λ xs. record { access_flags = a; name_index = b; descriptor_index = c; attributes = xs })
        (Safe-section n)))))

Safe-counted : {A : Type 0} (p : Parse A) → Safe Anything p → Safe Anything (read_u2 >>= times p)
Safe-counted p h = Safe-then read_u2 (times p) Safe-u2 (λ n. Safe-times p n h)

Safe-main : Safe Anything read_main_class_info
unfolding read_main_class_info
Safe-main = Safe-then read_u2 _ Safe-u2 (λ a. Safe-then read_u2 _ Safe-u2 (λ b.
    Safe-map {B = MainClassInfo} read_u2
      (λ c. record { access_flags = a; this_class = b; super_class = c }) Safe-u2))

Safe-interfaces : Safe Anything read_interfaces
unfolding read_interfaces
Safe-interfaces = Safe-counted read_zeroed_u2 Safe-zeroed_u2

Safe-fields : Safe Anything read_fields
unfolding read_fields read_field
Safe-fields = Safe-counted read_field (Safe-member read_zeroed_u2 Safe-zeroed_u2)

Safe-methods : Safe Anything read_methods
unfolding read_methods read_method
Safe-methods = Safe-counted read_method (Safe-member read_u2 Safe-u2)

Safe-attributes : Safe Anything read_attributes
unfolding read_attributes
Safe-attributes = Safe-then read_u2 _ Safe-u2 Safe-section

Safe-process_file : Safe Anything process_file
unfolding process_file
Safe-process_file = Safe-then read_constants_pool _ Safe-pool (λ pool.
    Safe-then read_main_class_info _ Safe-main (λ main.
      Safe-then read_interfaces _ Safe-interfaces (λ interfaces.
        Safe-then read_fields _ Safe-fields (λ fields.
          Safe-then read_methods _ Safe-methods (λ methods.
            Safe-map {B = ClassFile} read_attributes
              (λ attributes. record {
                constant_pool = pool;
                main_class_info = main;
                interfaces = interfaces;
                fields = fields;
                methods = methods;
                attributes = attributes;
              })
              Safe-attributes)))))

-- The rest of the header, once it is known whether its magic number is valid.
Safe-versions :
    (valid : Bool) (r : Reader)
    → r.source ≡ memory
    → Returned
        (λ (u, r'). Anything u × (r'.source ≡ memory))
        (if valid
          then (read_u2 >>= λ minor. read_u2 >>= λ major. pure {A = Unit} tt) r
          else ok (tt, r))
Safe-versions true r m =
    (Safe-then read_u2 _ Safe-u2 (λ minor. Safe-map read_u2 (λ major. tt) Safe-u2)).run r m
Safe-versions false r m = (tt, m)

Safe-header : Safe Anything read_header
unfolding read_header
Safe-header =
    Safe-bind (λ v. length v ≡ 4) Anything (read_raw 4) _ (Safe-raw 4)
      (λ v e. record {
        run = λ r m.
            let found = little (over_zeros 4 v) in
            let big = found == magic_number in
            let valid = big || found == swap_long magic_number in
            Safe-versions valid (record r { is_big_endian = big; is_valid_header = valid }) m;
      })

Returned-iff :
    {A : Type 0} (P : A → Type 0) (r : Outcome A)
    → Returned P r
    → (r ≡ threw) ⊎ ((a : A) × ((r ≡ ok a) × P a))
Returned-iff P (ok a) h = inr (a, (refl, h))
Returned-iff P threw h = inl refl
Returned-iff P fault h = absurd h
Returned-iff P out_of_fuel h = absurd h

caught_returns :
    (r : Outcome (ClassFile × Reader))
    → Returned (λ (c, r'). Anything c × (r'.source ≡ memory)) r
    → (o : Option ClassFile) × (caught r ≡ ok o)
caught_returns (ok (c, r)) h = (some c, refl)
caught_returns threw h = (none, refl)
caught_returns fault h = absurd h
caught_returns out_of_fuel h = absurd h

if_returns :
    (valid : Bool) {x : Outcome (Option ClassFile)}
    → (o : Option ClassFile) × (x ≡ ok o)
    → (o : Option ClassFile) × ((if valid then x else ok none) ≡ ok o)
if_returns true h = h
if_returns false h = (none, refl)

parse_returns : (r : Reader) → r.source ≡ memory → (o : Option ClassFile) × (parse r ≡ ok o)
unfolding parse
parse_returns r m =
    if_returns r.is_valid_header (caught_returns (process_file r) (Safe-process_file.run r m))

open_returns : (bytes : Bytes) → Returned (λ r. r.source ≡ memory) (open_reader memory bytes)
unfolding open_reader
open_returns [] = tt
open_returns (b ∷ bytes) =
    Returned-bind (λ (u, r). Anything u × (r.source ≡ memory)) (λ r. r.source ≡ memory)
      (read_header (fresh memory (b ∷ bytes))) (λ (u, r). ok r)
      (Safe-header.run (fresh memory (b ∷ bytes)) refl) (λ (u, r) h. h.1)

-- On every sequence of bytes in memory, either the reader's constructor throws, or the reader is
-- made and `parse` returns, with a class or with false: it never reads past the bytes, throws
-- nothing and comes to an end.
pub parse-memory_returns :
    (bytes : Bytes)
    → (open_reader memory bytes ≡ threw)
      ⊎ ((r : Reader) × ((open_reader memory bytes ≡ ok r)
            × ((o : Option ClassFile) × (parse r ≡ ok o))))
parse-memory_returns bytes =
    elim (Returned-iff (λ r. r.source ≡ memory) (open_reader memory bytes) (open_returns bytes)) [
      | inl e ↦ inl e
      | inr (r, (e, m)) ↦ inr (r, (e, parse_returns r m))
    ]
