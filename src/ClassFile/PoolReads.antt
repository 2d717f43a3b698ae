-- ===== src/ClassFile/PoolReads.antt =====
-- On reading back the constant pool of a written class file.
use tarracsh.Prelude.{
  ℕ, zero, suc, ◌+◌, ◌-◌, ◌<◌, ◌≡◌, refl, List, [], ◌∷◌, ◌++◌, append_assoc, append-nil, length,
  length-append, All, arith, lt→ltb, ltb-ge,
}
use tarracsh.ClassFile.Reader.{read_raw, over_zeros, read_u1, read_u2, read_u4}
use tarracsh.ClassFile.Pool.{
  Bytes, Constant, utf8_info, integer_info, float_info, long_info, double_info, class_info,
  string_info, fieldref_info, methodref_info, interface_methodref_info, name_and_type_info,
  method_handle_info, method_type_info, dynamic_info, invoke_dynamic_info, module_info,
  package_info, ConstantPool, empty_pool,
}
use tarracsh.ClassFile.Parser.{
  Entry, single, wide, one, two, two_words, read_entry_of, read_const_pool_entry, add_entry, slots,
  read_entries, read_constants_pool,
}
use tarracsh.ClassFile.Encode.{
  u2_bytes, u4_bytes, write_all, write_constant, entries_of, pool_of, Word16, Word32, ConstantFits,
  write_pool,
}
use tarracsh.ClassFile.Reads.{
  Reads, Reads-pure, Reads-bind, Reads-map, Reads-raw, Reads-u1, Reads-u2, Reads-u4,
}

one_entry :
    (make : ℕ → Constant) (a : ℕ) → Word16 a → Reads (one make) (u2_bytes a) (single (make a))
one_entry make a h = Reads-map read_u2 (λ x. single (make x)) (u2_bytes a) a (Reads-u2 a h)

two_entry :
    (make : ℕ → ℕ → Constant) (a b : ℕ)
    → Word16 a × Word16 b
    → Reads (two make) (u2_bytes a ++ u2_bytes b) (single (make a b))
two_entry make a b h =
    Reads-bind read_u2 _ (u2_bytes a) (u2_bytes b) a (single (make a b)) (Reads-u2 a h.0)
      (Reads-map read_u2 (λ x. single (make a x)) (u2_bytes b) b (Reads-u2 b h.1))

words_entry :
    (make : ℕ → ℕ → Constant) (a b : ℕ)
    → Word32 a × Word32 b
    → Reads (two_words make) (u4_bytes a ++ u4_bytes b) (wide (make a b))
words_entry make a b h =
    Reads-bind read_u4 _ (u4_bytes a) (u4_bytes b) a (wide (make a b)) (Reads-u4 a h.0)
      (Reads-map read_u4 (λ x. wide (make a x)) (u4_bytes b) b (Reads-u4 b h.1))

-- A buffer that is read in full shows none of its zeros.
pub over_zeros_all : (v : Bytes) → over_zeros (length v) v ≡ v
over_zeros_all v =
    let none_left : length v - length v ≡ 0 = omega arith in rw (none_left, append-nil)

utf8_entry :
    (value : Bytes)
    → Word16 (length value)
    → Reads (read_entry_of 1) (u2_bytes (length value) ++ value) (single (utf8_info value))
unfolding read_entry_of
utf8_entry value h =
    Reads-bind read_u2 _ (u2_bytes (length value)) value (length value) (single (utf8_info value))
      (Reads-u2 (length value) h)
      (rw (over_zeros_all value) at (
        Reads-map (read_raw (length value)) (λ v. single (utf8_info (over_zeros (length value) v)))
          value value (Reads-raw value)))

-- The entry that a constant makes.
abbrev pub entry_of : Constant → Entry
entry_of (long_info a b) = wide (long_info a b)
entry_of (double_info a b) = wide (double_info a b)
entry_of c = single c

-- An entry is its tag and what the tag calls for.
tagged :
    (tag : ℕ) (bs : Bytes) (e : Entry)
    → Reads (read_entry_of tag) bs e
    → Reads read_const_pool_entry (tag ∷ bs) e
unfolding read_const_pool_entry
tagged tag bs e h = Reads-bind read_u1 read_entry_of (tag ∷ []) bs tag e (Reads-u1 tag) h

Reads-entry :
    (c : Constant) → ConstantFits c → Reads read_const_pool_entry (write_constant c) (entry_of c)
unfolding read_entry_of
Reads-entry (utf8_info value) h =
    tagged 1 (u2_bytes (length value) ++ value) (single (utf8_info value)) (utf8_entry value h)
Reads-entry (integer_info a) h =
    tagged 3 (u4_bytes a) (single (integer_info a))
      (Reads-map read_u4 (λ x. single (integer_info x)) (u4_bytes a) a (Reads-u4 a h))
Reads-entry (float_info a) h =
    tagged 4 (u4_bytes a) (single (float_info a))
      (Reads-map read_u4 (λ x. single (float_info x)) (u4_bytes a) a (Reads-u4 a h))
Reads-entry (long_info a b) h =
    tagged 5 (u4_bytes a ++ u4_bytes b) (wide (long_info a b)) (words_entry long_info a b h)
Reads-entry (double_info a b) h =
    tagged 6 (u4_bytes a ++ u4_bytes b) (wide (double_info a b)) (words_entry double_info a b h)
Reads-entry (class_info a) h =
    tagged 7 (u2_bytes a) (single (class_info a)) (one_entry class_info a h)
Reads-entry (string_info a) h =
    tagged 8 (u2_bytes a) (single (string_info a)) (one_entry string_info a h)
Reads-entry (fieldref_info a b) h =
    tagged 9 (u2_bytes a ++ u2_bytes b) (single (fieldref_info a b)) (two_entry fieldref_info a b h)
Reads-entry (methodref_info a b) h =
    tagged 10 (u2_bytes a ++ u2_bytes b) (single (methodref_info a b))
      (two_entry methodref_info a b h)
Reads-entry (interface_methodref_info a b) h =
    tagged 11 (u2_bytes a ++ u2_bytes b) (single (interface_methodref_info a b))
      (two_entry interface_methodref_info a b h)
Reads-entry (name_and_type_info a b) h =
    tagged 12 (u2_bytes a ++ u2_bytes b) (single (name_and_type_info a b))
      (two_entry name_and_type_info a b h)
Reads-entry (method_handle_info a b) h =
    tagged 15 (a ∷ u2_bytes b) (single (method_handle_info a b)) (
      Reads-bind read_u1 _ (a ∷ []) (u2_bytes b) a (single (method_handle_info a b)) (Reads-u1 a)
        (Reads-map read_u2 (λ x. single (method_handle_info a x)) (u2_bytes b) b (Reads-u2 b h.1)))
Reads-entry (method_type_info a) h =
    tagged 16 (u2_bytes a) (single (method_type_info a)) (one_entry method_type_info a h)
Reads-entry (dynamic_info a b) h =
    tagged 17 (u2_bytes a ++ u2_bytes b) (single (dynamic_info a b)) (two_entry dynamic_info a b h)
Reads-entry (invoke_dynamic_info a b) h =
    tagged 18 (u2_bytes a ++ u2_bytes b) (single (invoke_dynamic_info a b))
      (two_entry invoke_dynamic_info a b h)
Reads-entry (module_info a) h =
    tagged 19 (u2_bytes a) (single (module_info a)) (one_entry module_info a h)
Reads-entry (package_info a) h =
    tagged 20 (u2_bytes a) (single (package_info a)) (one_entry package_info a h)

add_entry_lem :
    (c : Constant) (pool : ConstantPool) → add_entry (entry_of c) pool ≡ pool ++ entries_of c
unfolding add_entry
add_entry_lem (long_info a b) pool = rw append_assoc
add_entry_lem (double_info a b) pool = rw append_assoc
add_entry_lem c pool = refl

slots_lem : (c : Constant) → slots (entry_of c) ≡ length (entries_of c)
slots_lem (long_info a b) = refl
slots_lem c = refl

slots_pos : (c : Constant) → 0 < length (entries_of c)
slots_pos (long_info a b) = omega arith
slots_pos c = omega arith

Reads-entries :
    (cs : List Constant) (f index count : ℕ) (pool : ConstantPool)
    → All ConstantFits cs
    → length (pool_of cs) < f
    → index + length (pool_of cs) ≡ count
    → Reads (read_entries f index count pool) (write_all write_constant cs) (pool ++ pool_of cs)
unfolding read_entries
Reads-entries cs zero index count pool fits h e = absurd (omega arith)
Reads-entries [] (suc f) index count pool fits h e =
    rw (ltb-ge index count (omega arith), append-nil) (Reads-pure pool)
Reads-entries (c ∷ cs) (suc f) index count pool fits h e =
    let parts = length-append {0} (entries_of c) (pool_of cs) in
    rw (lt→ltb index count (omega (arith, parts, slots_pos c))) (
      Reads-bind read_const_pool_entry
        (λ d. read_entries f (index + slots d) count (add_entry d pool)) (write_constant c)
        (write_all write_constant cs) (entry_of c) (pool ++ (entries_of c ++ pool_of cs))
        (Reads-entry c fits.0)
        (rw (add_entry_lem c pool, slots_lem c, ← append_assoc)
          (Reads-entries cs f (index + length (entries_of c)) count (pool ++ entries_of c) fits.1
            (omega (arith, parts, slots_pos c)) (omega (arith, parts)))))

-- The constant pool is read back, an unused index behind each long and double.
pub Reads-pool :
    (cs : List Constant)
    → All ConstantFits cs
    → Word16 (suc (length (pool_of cs)))
    → Reads read_constants_pool (write_pool cs) (empty_pool ++ pool_of cs)
unfolding read_constants_pool
Reads-pool cs fits h =
    let count = suc (length (pool_of cs)) in
    Reads-bind read_u2 (λ n. read_entries (suc n) 1 n empty_pool) (u2_bytes count)
      (write_all write_constant cs) count (empty_pool ++ pool_of cs) (Reads-u2 count h)
      (Reads-entries cs (suc count) 1 count empty_pool fits (omega arith) (omega arith))
