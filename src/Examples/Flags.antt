-- ===== src/Examples/Flags.antt =====
-- The theorems on the access modifiers, at concrete inputs.
use tarracsh.Prelude.{◌≡◌, refl, true}
use tarracsh.AccessModifiers.{is_abstract}

abstract_example : is_abstract 0x0400 ≡ true
unfolding is_abstract
abstract_example = refl
