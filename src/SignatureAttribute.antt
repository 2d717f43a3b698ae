-- ===== src/SignatureAttribute.antt =====
-- src/domain/classfile/signature/SignatureParser.cpp: the text of a Signature attribute, over the
-- signature parser and the constant pool.
use tarracsh.Prelude.{ℕ, List, [], ◌∷◌, codes}
use tarracsh.Outcome.{Outcome, ok, threw, fault, out_of_fuel, ◌>>=◌}
use tarracsh.ClassFile.Reader.{little, swap_short}
use tarracsh.ClassFile.Pool.{Bytes, ConstantPool}
use tarracsh.ClassFile.Entries.{get_string}
use tarracsh.Signature.Declarations.{parse_class_sig, parse_method_sig, parse_type_sig}
pub mod Returns

-- `AttributeOwner`
pub data Owner : Type 0 where
  class_file method field code_attribute record_component : Owner

-- `_reader.readU2()` at the start of the attribute, of a class file in the usual byte order; beyond
-- the content an assertion fails.
unfoldable pub signature_index : Bytes → Outcome ℕ
signature_index (a ∷ b ∷ info) = ok (swap_short (little (a ∷ b ∷ [])))
signature_index info = fault

-- What the `try` and `catch` of `getString` leave of a run of the parser: an exception is dropped,
-- as the tree is.
abbrev pub tried : {A : Type 0} → Outcome A → Outcome (Unit {0})
tried (ok tree) = ok tt
tried threw = ok tt
tried fault = fault
tried out_of_fuel = out_of_fuel

-- The parser that the owner calls for.
unfoldable pub try_parse : ℕ → Owner → Bytes → Outcome (Unit {0})
try_parse f class_file signature = tried (parse_class_sig f signature)
try_parse f method signature = tried (parse_method_sig f signature)
try_parse f field signature = tried (parse_type_sig f signature)
try_parse f owner signature = ok tt

-- `getString`
unfoldable pub get_signature_string : ℕ → ConstantPool → Owner → ℕ → Outcome Bytes
get_signature_string f pool owner index =
    get_string pool index >>= λ signature. try_parse f owner signature >>= λ tree. ok signature

-- `toString`; other owners have no signature.
unfoldable pub to_string : ℕ → ConstantPool → Owner → Bytes → Outcome Bytes
to_string f pool class_file info = signature_index info >>= get_signature_string f pool class_file
to_string f pool method info = signature_index info >>= get_signature_string f pool method
to_string f pool field info = signature_index info >>= get_signature_string f pool field
to_string f pool owner info = ok []
