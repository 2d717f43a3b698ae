-- ===== src/ClassFile/SafePool.antt =====
-- On reading the constant pool and attributes from any bytes in memory.
use tarracsh.Prelude.{
  ℕ, zero, suc, ◌+◌, ◌<◌, ◌≡◌, [], ◌∷◌, length, arith, ltb, ltb→lt, Bool-cases, inl, inr,
  if◌then◌else◌, ◌==◌,
}
use tarracsh.ClassFile.Reader.{
  Parse, ◌>>=◌, pure, read_bytes, read_raw, over_zeros, read_u1, read_u2, read_u4, read_zeroed_u2,
  read_zeroed_u4,
}
use tarracsh.ClassFile.Pool.{
  utf8_info, integer_info, float_info, long_info, double_info, class_info, string_info,
  fieldref_info, methodref_info, interface_methodref_info, name_and_type_info, method_handle_info,
  method_type_info, dynamic_info, invoke_dynamic_info, module_info, package_info, ConstantPool,
  empty_pool,
}
use tarracsh.ClassFile.Parser.{
  AttributeInfo, Entry, skipped, single, wide, read_entry_of, read_const_pool_entry, add_entry,
  slots, read_entries, read_constants_pool, times, read_attribute, read_attributes_section,
}
use tarracsh.ClassFile.Safe.{
  Safe, Anything, Safe-pure, Safe-raise, Safe-then, Safe-if, Safe-weaken, Safe-bytes, Safe-raw,
  Safe-u1, Safe-u2, Safe-u4, Safe-zeroed_u2, Safe-zeroed_u4, Safe-map, Safe-one, Safe-two,
  Safe-two_words,
}

-- A case of the switch, and the cases behind it.
Safe-case :
    {x y : Parse Entry} (tag n : ℕ)
    → Safe Anything x
    → Safe Anything y
    → Safe Anything (if tag == n then x else y)
Safe-case {x = x} {y = y} tag n hx hy = Safe-if Anything (tag == n) x y hx hy

Safe-utf8 :
    Safe Anything
      (read_u2 >>= λ n. read_raw n >>= λ value. pure (single (utf8_info (over_zeros n value))))
Safe-utf8 = Safe-then read_u2 _ Safe-u2 (λ n.
    Safe-map (read_raw n) (λ v. single (utf8_info (over_zeros n v)))
      (Safe-weaken (λ v. length v ≡ n) (read_raw n) (Safe-raw n)))

Safe-entry_of : (tag : ℕ) → Safe Anything (read_entry_of tag)
unfolding read_entry_of
Safe-entry_of tag = Safe-case tag 1 Safe-utf8 (
    Safe-case tag 4 (Safe-map read_u4 (λ a. single (float_info a)) Safe-u4) (
      Safe-case tag 3 (Safe-map read_u4 (λ a. single (integer_info a)) Safe-u4) (
        Safe-case tag 5 (Safe-two_words long_info) (
          Safe-case tag 6 (Safe-two_words double_info) (
            Safe-case tag 16 (Safe-one method_type_info) (
              Safe-case tag 8 (Safe-one string_info) (
                Safe-case tag 7 (Safe-one class_info) (
                  Safe-case tag 12 (Safe-two name_and_type_info) (
                    Safe-case tag 10 (Safe-two methodref_info) (
                      Safe-case tag 9 (Safe-two fieldref_info) (
                        Safe-case tag 11 (Safe-two interface_methodref_info) (
                          Safe-case tag 15
                            (Safe-then read_u1 _ Safe-u1
                              (λ kind. Safe-one (method_handle_info kind)))
                            (Safe-case tag 18 (Safe-two invoke_dynamic_info) (
                              Safe-case tag 19 (Safe-one module_info) (
                                Safe-case tag 20 (Safe-one package_info) (
                                  Safe-case tag 17 (Safe-two dynamic_info) (
                                    Safe-case tag 2 (Safe-pure skipped) (
                                      Safe-case tag 0 (Safe-pure skipped)
                                        Safe-raise))))))))))))))))))

Safe-entry : Safe Anything read_const_pool_entry
unfolding read_const_pool_entry
Safe-entry = Safe-then read_u1 read_entry_of Safe-u1 Safe-entry_of

pub slots_pos : (e : Entry) → 0 < slots e
slots_pos skipped = omega arith
slots_pos (single c) = omega arith
slots_pos (wide c) = omega arith

-- Every round moves the index, so the fuel lasts.
Safe-entries :
    (f index count : ℕ) (pool : ConstantPool)
    → 0 < f
    → count < index + f
    → Safe Anything (read_entries f index count pool)
unfolding read_entries
Safe-entries zero index count pool h k = absurd (omega arith)
Safe-entries (suc f) index count pool h k = elim (Bool-cases (ltb index count)) [
  | inl more ↦ rw more (
      Safe-then read_const_pool_entry
        (λ e. read_entries f (index + slots e) count (add_entry e pool)) Safe-entry
        (λ e.
          Safe-entries f (index + slots e) count (add_entry e pool)
            (omega (arith, ltb→lt index count more)) (omega (arith, slots_pos e))))
  | inr done ↦ rw done (Safe-pure pool)
]

pub Safe-pool : Safe Anything read_constants_pool
unfolding read_constants_pool
Safe-pool =
    Safe-then read_u2 _ Safe-u2
      (λ count. Safe-entries (suc count) 1 count empty_pool (omega arith) (omega arith))

pub Safe-times : {A : Type 0} (p : Parse A) (n : ℕ) → Safe Anything p → Safe Anything (times p n)
unfolding times
Safe-times p zero h = Safe-pure []
Safe-times p (suc n) h =
    Safe-then p _ h (λ a. Safe-map (times p n) (λ rest. a ∷ rest) (Safe-times p n h))

Safe-attribute : Safe Anything read_attribute
unfolding read_attribute
Safe-attribute = Safe-then read_zeroed_u2 _ Safe-zeroed_u2 (λ name_index.
    Safe-then read_zeroed_u4 _ Safe-zeroed_u4 (λ n.
      Safe-map {B = AttributeInfo} (if ltb 0 n then read_bytes n else pure [])
        (λ info. record { name_index = name_index; info = over_zeros n info })
        (Safe-if Anything (ltb 0 n) (read_bytes n) (pure [])
          (Safe-weaken (λ v. length v ≡ n) (read_bytes n) (Safe-bytes n)) (Safe-pure []))))

pub Safe-section : (count : ℕ) → Safe Anything (read_attributes_section count)
unfolding read_attributes_section
Safe-section count = Safe-times read_attribute count Safe-attribute
