-- ===== src/SignatureAttribute/Returns.antt =====
-- When the text of a Signature attribute is given.
use tarracsh.Prelude.{ℕ, ◌+◌, ◌*◌, ◌≤◌, ◌<◌, ◌≡◌, ◌≢◌, refl, length, ◌⊎◌, inl, inr}
use tarracsh.Outcome.{Outcome, ok, threw, fault, out_of_fuel}
use tarracsh.ClassFile.Pool.{Bytes, ConstantPool}
use tarracsh.ClassFile.Entries.{utf8_at, get_string}
use tarracsh.ClassFile.Encode.{u2_bytes, Word16}
use tarracsh.ClassFile.Reads.{swap_short_lem}
use tarracsh.Signature.Declarations.{parse_type_sig}
use tarracsh.Signature.DeclarationGrammar.{
  ClassDeclaration, MethodDeclaration, cost_class_signature, cost_method_signature,
  emit_class_signature, emit_method_signature,
}
use tarracsh.Signature.DeclarationRoundTrip.{parse_class_sig-emit, parse_method_sig-emit}
use tarracsh.Signature.Hazards.{parse_type_sig-ends}
use tarracsh.SignatureAttribute.{
  class_file, method, field, signature_index, tried, try_parse, get_signature_string, to_string,
}

tried_ends : {A : Type 0} (r : Outcome A) → r ≢ out_of_fuel → (tried r ≡ ok tt) ⊎ (tried r ≡ fault)
tried_ends (ok a) h = inl refl
tried_ends threw h = inl refl
tried_ends fault h = inr refl
tried_ends out_of_fuel h = absurd (h refl)

-- Whatever text the Signature attribute of a field names, with fuel of more than four units for
-- each character and six, the text itself is given, or the parser has read beyond it.
pub to_string-field :
    (f : ℕ) (pool : ConstantPool) (index : ℕ) (signature : Bytes)
    → Word16 index
    → utf8_at pool index ≡ ok signature
    → 4 * length signature + 6 < f
    → (to_string f pool field (u2_bytes index) ≡ ok signature)
      ⊎ (to_string f pool field (u2_bytes index) ≡ fault)
unfolding to_string signature_index get_signature_string get_string try_parse
to_string-field f pool index signature fits h enough =
    elim (tried_ends (parse_type_sig f signature) (parse_type_sig-ends signature f enough)) [
      | inl e ↦ inl (rw (swap_short_lem index fits, h, e) refl)
      | inr e ↦ inr (rw (swap_short_lem index fits, h, e) refl)
    ]

-- The text of the Signature attribute of a class and of a method is given, with fuel for its tree, if
-- it is spelled by the grammar, each type parameter has a bound and no name holds `$`.
pub to_string-emit :
    (f : ℕ) (pool : ConstantPool) (i j : ℕ) (c : ClassDeclaration) (m : MethodDeclaration)
    → Word16 i
    → Word16 j
    → utf8_at pool i ≡ ok (emit_class_signature c)
    → utf8_at pool j ≡ ok (emit_method_signature m)
    → cost_class_signature c ≤ f
    → cost_method_signature m ≤ f
    → (to_string f pool class_file (u2_bytes i) ≡ ok (emit_class_signature c))
      × (to_string f pool method (u2_bytes j) ≡ ok (emit_method_signature m))
unfolding to_string signature_index get_signature_string get_string try_parse
to_string-emit f pool i j c m fi fj hi hj ec em = (
  rw (swap_short_lem i fi, hi, parse_class_sig-emit c f ec) refl,
  rw (swap_short_lem j fj, hj, parse_method_sig-emit m f em) refl,
)
