-- ===== src/Digest/Blind.antt =====
-- On what goes into the digest of a class.
use tarracsh.Prelude.{ℕ, false, List, [], ◌∷◌, ◌++◌, ◌≡◌, refl, codes}
use tarracsh.Outcome.{Outcome, ok, threw, fault, out_of_fuel, ◌>>=◌}
use tarracsh.AccessModifiers.{is_public}
use tarracsh.ClassFile.Pool.{Bytes, ConstantPool}
use tarracsh.ClassFile.Parser.{AttributeInfo, MemberInfo, ClassFile}
use tarracsh.ClassFile.Entries.{utf8_at}
use tarracsh.Digest.Class.{
  insert_attribute, attribute_digests, digest_attributes, digest_method, digest_field,
  insert_public, public_digests, digest_public_methods, digest_public_fields, digest,
}

pub >>=-cong :
    {A B : Type 0} (r : Outcome A) {f g : A → Outcome B} → ((a : A) → f a ≡ g a) → r >>= f ≡ r >>= g
>>=-cong (ok a) h = h a
>>=-cong threw h = refl
>>=-cong fault h = refl
>>=-cong out_of_fuel h = refl

public_digests-skip :
    (digest_one : MemberInfo → Outcome Bytes) (digests : List Bytes) (xs : List MemberInfo)
    (m : MemberInfo) (ys : List MemberInfo)
    → is_public m.access_flags ≡ false
    → public_digests digest_one digests (xs ++ m ∷ ys)
      ≡ public_digests digest_one digests (xs ++ ys)
unfolding public_digests insert_public
public_digests-skip digest_one digests [] m ys h = rw h refl
public_digests-skip digest_one digests (x ∷ xs) m ys h =
    >>=-cong (insert_public digest_one digests x)
      (λ next. public_digests-skip digest_one next xs m ys h)

public_digests-same :
    (digest_one : MemberInfo → Outcome Bytes) (digests : List Bytes) (xs : List MemberInfo)
    (m m' : MemberInfo) (ys : List MemberInfo)
    → ((d : List Bytes) → insert_public digest_one d m ≡ insert_public digest_one d m')
    → public_digests digest_one digests (xs ++ m ∷ ys)
      ≡ public_digests digest_one digests (xs ++ m' ∷ ys)
unfolding public_digests
public_digests-same digest_one digests [] m m' ys h = rw (h digests) refl
public_digests-same digest_one digests (x ∷ xs) m m' ys h =
    >>=-cong (insert_public digest_one digests x)
      (λ next. public_digests-same digest_one next xs m m' ys h)

methods-skip :
    (sha256 : Bytes → Bytes) (pool : ConstantPool) (xs : List MemberInfo) (m : MemberInfo)
    (ys : List MemberInfo)
    → is_public m.access_flags ≡ false
    → digest_public_methods sha256 pool (xs ++ m ∷ ys)
      ≡ digest_public_methods sha256 pool (xs ++ ys)
unfolding digest_public_methods
methods-skip sha256 pool xs m ys h =
    rw (public_digests-skip (digest_method sha256 pool) [] xs m ys h) refl

fields-skip :
    (sha256 : Bytes → Bytes) (pool : ConstantPool) (xs : List MemberInfo) (m : MemberInfo)
    (ys : List MemberInfo)
    → is_public m.access_flags ≡ false
    → digest_public_fields sha256 pool (xs ++ m ∷ ys) ≡ digest_public_fields sha256 pool (xs ++ ys)
unfolding digest_public_fields
fields-skip sha256 pool xs m ys h =
    rw (public_digests-skip (digest_field sha256 pool) [] xs m ys h) refl

-- A method or a field that is not public, wherever it stands, makes no difference to the digest of
-- the class.
pub digest-not_public :
    (sha256 : Bytes → Bytes) (c : ClassFile) (xs : List MemberInfo) (m : MemberInfo)
    (ys : List MemberInfo)
    → is_public m.access_flags ≡ false
    → (digest sha256 (record c { methods = xs ++ m ∷ ys })
        ≡ digest sha256 (record c { methods = xs ++ ys }))
      × (digest sha256 (record c { fields = xs ++ m ∷ ys })
          ≡ digest sha256 (record c { fields = xs ++ ys }))
unfolding digest
digest-not_public sha256 c xs m ys h = (
  rw (methods-skip sha256 c.constant_pool xs m ys h) refl,
  rw (fields-skip sha256 c.constant_pool xs m ys h) refl,
)

method-descriptor :
    (sha256 : Bytes → Bytes) (pool : ConstantPool) (m : MemberInfo) (i j b : ℕ) (bs cs : Bytes)
    → utf8_at pool i ≡ ok (b ∷ bs)
    → utf8_at pool j ≡ ok (b ∷ cs)
    → digest_method sha256 pool (record m { descriptor_index = i })
      ≡ digest_method sha256 pool (record m { descriptor_index = j })
unfolding digest_method
method-descriptor sha256 pool m i j b bs cs hi hj = rw (hi, hj) refl

methods-descriptor :
    (sha256 : Bytes → Bytes) (pool : ConstantPool) (xs : List MemberInfo) (m : MemberInfo)
    (ys : List MemberInfo) (i j b : ℕ) (bs cs : Bytes)
    → utf8_at pool i ≡ ok (b ∷ bs)
    → utf8_at pool j ≡ ok (b ∷ cs)
    → digest_public_methods sha256 pool (xs ++ record m { descriptor_index = i } ∷ ys)
      ≡ digest_public_methods sha256 pool (xs ++ record m { descriptor_index = j } ∷ ys)
unfolding digest_public_methods insert_public
methods-descriptor sha256 pool xs m ys i j b bs cs hi hj =
    let one = digest_method sha256 pool in
    let same = method-descriptor sha256 pool m i j b bs cs hi hj in
    rw
      (public_digests-same one [] xs (record m { descriptor_index = i })
        (record m { descriptor_index = j }) ys (λ d. rw same refl))
      refl

-- The descriptor of a method makes no difference to the digest of the class beyond its first byte,
-- which is `(` for every method.
pub digest-descriptor :
    (sha256 : Bytes → Bytes) (c : ClassFile) (xs : List MemberInfo) (m : MemberInfo)
    (ys : List MemberInfo) (i j b : ℕ) (bs cs : Bytes)
    → utf8_at c.constant_pool i ≡ ok (b ∷ bs)
    → utf8_at c.constant_pool j ≡ ok (b ∷ cs)
    → digest sha256 (record c { methods = xs ++ record m { descriptor_index = i } ∷ ys })
      ≡ digest sha256 (record c { methods = xs ++ record m { descriptor_index = j } ∷ ys })
unfolding digest
digest-descriptor sha256 c xs m ys i j b bs cs hi hj =
    rw (methods-descriptor sha256 c.constant_pool xs m ys i j b bs cs hi hj) refl

attribute_digests-skip :
    (sha256 : Bytes → Bytes) (pool : ConstantPool) (digests : List Bytes) (xs : List AttributeInfo)
    (a : AttributeInfo) (ys : List AttributeInfo)
    → utf8_at pool a.name_index ≡ ok (codes "Code")
    → attribute_digests sha256 pool digests (xs ++ a ∷ ys)
      ≡ attribute_digests sha256 pool digests (xs ++ ys)
unfolding attribute_digests
attribute_digests-skip sha256 pool digests [] a ys h = rw h refl
attribute_digests-skip sha256 pool digests (x ∷ xs) a ys h =
    >>=-cong (utf8_at pool x.name_index) (λ name.
      attribute_digests-skip sha256 pool (insert_attribute sha256 pool digests x name) xs a ys h)

-- A `Code` attribute of a method, wherever it stands and whatever its content, makes no difference
-- to the digest of the method.
pub digest_method-code :
    (sha256 : Bytes → Bytes) (pool : ConstantPool) (m : MemberInfo) (xs : List AttributeInfo)
    (a : AttributeInfo) (ys : List AttributeInfo)
    → utf8_at pool a.name_index ≡ ok (codes "Code")
    → digest_method sha256 pool (record m { attributes = xs ++ a ∷ ys })
      ≡ digest_method sha256 pool (record m { attributes = xs ++ ys })
unfolding digest_method digest_attributes
digest_method-code sha256 pool m xs a ys h =
    rw (attribute_digests-skip sha256 pool [] xs a ys h) refl
