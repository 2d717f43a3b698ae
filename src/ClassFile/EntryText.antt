-- ===== src/ClassFile/EntryText.antt =====
-- The text of a type in the constant pool.
use tarracsh.Prelude.{ℕ, ◌≤◌, ◌≡◌, refl, [], ◌++◌}
use tarracsh.Outcome.{ok}
use tarracsh.ClassFile.Pool.{ConstantPool}
use tarracsh.ClassFile.Entries.{utf8_at, get_string, get_type_string}
use tarracsh.Descriptor.Parser.{to_string, brackets}
use tarracsh.Descriptor.Grammar.{FieldDescriptor, emit_field, component_type, cost_field}
use tarracsh.Descriptor.RoundTrip.{parse_descriptor-emit}

-- Where the pool holds a field descriptor that is spelled by the grammar, its type is shown as the
-- type's name, with `.` for `/`, and a pair of brackets for each dimension, given fuel for it.
pub get_type_string-emit :
    (f : ℕ) (pool : ConstantPool) (index : ℕ) (d : FieldDescriptor)
    → utf8_at pool index ≡ ok (emit_field d [])
    → cost_field d ≤ f
    → get_type_string f pool index ≡ ok (component_type d.component ++ brackets d.dims)
unfolding get_type_string get_string to_string
get_type_string-emit f pool index d h enough = rw (h, parse_descriptor-emit d f enough) refl
