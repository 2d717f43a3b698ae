-- ===== src/Attributes/ClassArguments.antt =====
-- Classes among the arguments of bootstrap methods, in `constantPoolIndexToString` of
-- src/domain/classfile/AttributesManager.h.
use tarracsh.Prelude.{ℕ, ◌≡◌, ◌≢◌, refl, false, ◌==◌, ◌∷◌, arith}
use tarracsh.Outcome.{ok, fault}
use tarracsh.ClassFile.Pool.{Bytes, utf8_info, class_info, ConstantPool}
use tarracsh.ClassFile.Entries.{get_entry, utf8_at, class_at, get_classname, get_class_info_name}
use tarracsh.Attributes.Texts.{Formats}
use tarracsh.Attributes.Constants.{format_class_name, constant_text, constant_pool_index_to_string}

not_zero : (n : ℕ) → n ≢ 0 → (n == 0) ≡ false
not_zero n h = ground (arith, h)

-- Of a class whose name stands in the pool, the name's entry is read as if it were a class: the text
-- of every such argument is undefined, though `formatClassName` at the argument itself is not.
pub constant_pool_index_to_string-class :
    (formats : Formats) (fuel : ℕ) (pool : ConstantPool) (index name_index : ℕ) (c : ℕ)
    (name : Bytes)
    → index ≢ 0
    → name_index ≢ 0
    → get_entry pool index ≡ ok (class_info name_index)
    → get_entry pool name_index ≡ ok (utf8_info (c ∷ name))
    → (constant_pool_index_to_string formats fuel pool index ≡ fault)
      × (format_class_name formats fuel pool index ≡ ok (c ∷ name))
unfolding constant_pool_index_to_string constant_text format_class_name get_class_info_name class_at
    get_classname utf8_at
constant_pool_index_to_string-class formats fuel pool index name_index c name h k e f = (
  rw (not_zero index h, e, not_zero name_index k, f) refl,
  rw (not_zero index h, e, not_zero name_index k, f) refl,
)
