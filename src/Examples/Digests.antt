-- ===== src/Examples/Digests.antt =====
-- The theorems on the class digest, at concrete inputs.
use tarracsh.Prelude.{none, false, ◌≡◌, refl, ◌++◌, [], ◌∷◌, codes, length, some, List, ℕ}
use tarracsh.Outcome.{ok}
use tarracsh.AccessModifiers.{is_public}
use tarracsh.ClassFile.Entries.{get_entry, utf8_at}
use tarracsh.Digest.Class.{
  digest_utf8_entry, digest_attributes, attribute_digests, digest_method, digest,
}
use mathlib.Core.List.{Permᴰ}
use tarracsh.Digest.Buffer.{hash, digest_buffer, digest_set}
use tarracsh.Digest.MemberOrder.{digest-Perm}
use tarracsh.Digest.Blind.{digest-not_public}
use tarracsh.ClassFile.Pool.{ConstantPool, utf8_info, class_info}
use tarracsh.ClassFile.Parser.{AttributeInfo, ClassFile, MemberInfo}

-- A hash of one byte, and a class with a private and a public method.
abbrev sum_hash : List ℕ → List ℕ
sum_hash bytes = length bytes ∷ []

abbrev digest_pool : ConstantPool
digest_pool =
    none
    ∷ some (utf8_info (codes "A"))
    ∷ some (class_info 1)
    ∷ some (utf8_info (codes "()V"))
    ∷ some (utf8_info (codes "(I)V"))
    ∷ some (utf8_info (codes "Code"))
    ∷ []

abbrev digest_class : ClassFile
digest_class = record {
  constant_pool = digest_pool;
  main_class_info = record { access_flags = 33; this_class = 2; super_class = 0 };
  interfaces = [];
  fields = [];
  methods = [];
  attributes = [];
}

abbrev code_attribute : AttributeInfo
code_attribute = record { name_index = 5; info = 1 ∷ 2 ∷ [] }

abbrev hidden : MemberInfo
hidden = record { access_flags = 2; name_index = 1; descriptor_index = 3; attributes = [] }

abbrev shown : MemberInfo
shown = record { access_flags = 1; name_index = 1; descriptor_index = 3; attributes = [] }

hidden_lem : is_public 2 ≡ false
unfolding is_public
hidden_lem = refl

utf8_at-no_argument : utf8_at digest_pool 3 ≡ ok (codes "()V")
unfolding utf8_at get_entry
utf8_at-no_argument = refl

utf8_at-int_argument : utf8_at digest_pool 4 ≡ ok (codes "(I)V")
unfolding utf8_at get_entry
utf8_at-int_argument = refl

utf8_at-code : utf8_at digest_pool 5 ≡ ok (codes "Code")
unfolding utf8_at get_entry
utf8_at-code = refl

digest-not_public_example :
    (digest sum_hash (record digest_class { methods = shown ∷ hidden ∷ [] })
      ≡ digest sum_hash (record digest_class { methods = shown ∷ [] }))
    × (digest sum_hash (record digest_class { fields = shown ∷ hidden ∷ [] })
        ≡ digest sum_hash (record digest_class { fields = shown ∷ [] }))
digest-not_public_example =
    digest-not_public sum_hash digest_class (shown ∷ []) hidden [] hidden_lem

abbrev other : MemberInfo
other = record { access_flags = 1; name_index = 1; descriptor_index = 4; attributes = [] }

abbrev two_methods : ClassFile
two_methods = record digest_class { methods = shown ∷ other ∷ [] }

digest_method-shown :
    digest_method sum_hash digest_pool shown
    ≡ ok (
        digest_buffer sum_hash
          (hash sum_hash (codes "A") ++ (digest_set sum_hash [] ++ (b'(' ∷ 1 ∷ 0 ∷ []))))
unfolding digest_method digest_utf8_entry digest_attributes attribute_digests utf8_at get_entry
digest_method-shown = refl

digest_method-other :
    digest_method sum_hash digest_pool other
    ≡ ok (
        digest_buffer sum_hash
          (hash sum_hash (codes "A") ++ (digest_set sum_hash [] ++ (b'(' ∷ 1 ∷ 0 ∷ []))))
unfolding digest_method digest_utf8_entry digest_attributes attribute_digests utf8_at get_entry
digest_method-other = refl

digest-Perm_example :
    digest sum_hash two_methods
    ≡ digest sum_hash (record two_methods { methods = other ∷ shown ∷ []; fields = [] })
digest-Perm_example =
    digest-Perm sum_hash two_methods (other ∷ shown ∷ []) [] (Permᴰ.swap refl refl) Permᴰ.nil
      ((_, digest_method-shown), ((_, digest_method-other), tt)) tt
