-- ===== src/Digest/Class.antt =====
-- src/domain/digest/ClassFileDigest.cpp, on what a ClassFileParser holds.
use tarracsh.Prelude.{
  ℕ, Bool, true, false, List, [], ◌∷◌, ◌++◌, ◌==◌, ◌&&◌, ◌||◌, if◌then◌else◌, codes,
}
use tarracsh.Outcome.{Outcome, ok, ◌>>=◌}
use tarracsh.AccessModifiers.{is_public}
use tarracsh.ClassFile.Pool.{Bytes, ConstantPool}
use tarracsh.ClassFile.Entries.{utf8_at, class_at}
use tarracsh.ClassFile.Parser.{AttributeInfo, MemberInfo, ClassFile}
use tarracsh.Digest.Buffer.{zeros, short_bytes, hash, digest_buffer, insert, digest_set}

-- `append(utf8Info.bytes)`, where `bytes` is declared as an array of one byte. An empty entry has
-- its terminator there.
abbrev pub first_byte : Bytes → Bytes
first_byte [] = 0 ∷ []
first_byte (b ∷ bytes) = b ∷ []

abbrev pub equal : Bytes → Bytes → Bool
equal [] [] = true
equal (x ∷ xs) (y ∷ ys) = x == y && equal xs ys
equal xs ys = false

abbrev pub is_empty_info : Bytes → Bool
is_empty_info [] = true
is_empty_info (b ∷ info) = false

module _ (sha256 : Bytes → Bytes) (pool : ConstantPool) where
  unfoldable pub digest_utf8_entry : ℕ → Outcome Bytes
  digest_utf8_entry index = utf8_at pool index >>= λ bytes. ok (hash sha256 bytes)

  unfoldable pub digest_class_info : ℕ → Outcome Bytes
  digest_class_info index =
      if index == 0 then ok zeros else (class_at pool index >>= digest_utf8_entry)

  -- A round of `digestAttributes`: code and empty attributes are passed over.
  abbrev pub insert_attribute : List Bytes → AttributeInfo → Bytes → List Bytes
  insert_attribute digests a name =
      if equal name (codes "Code") || is_empty_info a.info
      then digests
      else insert (digest_buffer sha256 a.info) digests

  -- The loop of `digestAttributes`.
  unfoldable pub attribute_digests : List Bytes → List AttributeInfo → Outcome (List Bytes)
  attribute_digests digests [] = ok digests
  attribute_digests digests (a ∷ rest) =
      utf8_at pool a.name_index >>= λ name. attribute_digests (insert_attribute digests a name) rest

  unfoldable pub digest_attributes : List AttributeInfo → Outcome Bytes
  digest_attributes attributes =
      attribute_digests [] attributes >>= λ digests. ok (digest_set sha256 digests)

  unfoldable pub digest_method : MemberInfo → Outcome Bytes
  digest_method m = digest_utf8_entry m.name_index >>= λ name.
      digest_attributes m.attributes >>= λ attributes.
      utf8_at pool m.descriptor_index >>= λ descriptor. ok (
        digest_buffer sha256
          (name ++ (attributes ++ (first_byte descriptor ++ short_bytes m.access_flags))))

  -- The attributes are appended twice, as in the code.
  unfoldable pub digest_field : MemberInfo → Outcome Bytes
  digest_field m = digest_utf8_entry m.name_index >>= λ name.
      digest_attributes m.attributes >>= λ attributes.
      utf8_at pool m.descriptor_index >>= λ descriptor. ok (
        digest_buffer sha256 (
          name
          ++ (attributes ++ (attributes ++ (first_byte descriptor ++ short_bytes m.access_flags)))))

  unfoldable pub digest_interface : ℕ → Outcome Bytes
  digest_interface index = class_at pool index >>= λ name_index.
      utf8_at pool name_index >>= λ name. ok (digest_buffer sha256 (first_byte name))

  -- The loop of `digestInterfaces`.
  unfoldable pub interface_digests : List Bytes → List ℕ → Outcome (List Bytes)
  interface_digests digests [] = ok digests
  interface_digests digests (index ∷ rest) =
      digest_interface index >>= λ d. interface_digests (insert d digests) rest

  unfoldable pub digest_interfaces : List ℕ → Outcome Bytes
  digest_interfaces interfaces =
      interface_digests [] interfaces >>= λ digests. ok (digest_set sha256 digests)

-- A round of the loops over members: the digest of a public one is inserted.
unfoldable pub insert_public :
    (MemberInfo → Outcome Bytes) → List Bytes → MemberInfo → Outcome (List Bytes)
insert_public digest_one digests m =
    if is_public m.access_flags then (digest_one m >>= λ d. ok (insert d digests)) else ok digests

unfoldable pub public_digests :
    (MemberInfo → Outcome Bytes) → List Bytes → List MemberInfo → Outcome (List Bytes)
public_digests digest_one digests [] = ok digests
public_digests digest_one digests (m ∷ rest) =
    insert_public digest_one digests m >>= λ next. public_digests digest_one next rest

-- `digestPublicMethods` and `digestPublicFields`
unfoldable pub digest_public_methods :
    (Bytes → Bytes) → ConstantPool → List MemberInfo → Outcome Bytes
digest_public_methods sha256 pool methods =
    public_digests (digest_method sha256 pool) [] methods >>= λ digests.
    ok (digest_set sha256 digests)

unfoldable pub digest_public_fields :
    (Bytes → Bytes) → ConstantPool → List MemberInfo → Outcome Bytes
digest_public_fields sha256 pool fields =
    public_digests (digest_field sha256 pool) [] fields >>= λ digests.
    ok (digest_set sha256 digests)

-- `digest`
unfoldable pub digest : (Bytes → Bytes) → ClassFile → Outcome Bytes
digest sha256 c =
    let pool = c.constant_pool in
    let main = c.main_class_info in
    digest_class_info sha256 pool main.this_class >>= λ this_class.
    digest_class_info sha256 pool main.super_class >>= λ super_class.
    digest_attributes sha256 pool c.attributes >>= λ attributes.
    digest_public_methods sha256 pool c.methods >>= λ methods.
    digest_public_fields sha256 pool c.fields >>= λ fields.
    digest_interfaces sha256 pool c.interfaces >>= λ interfaces. ok (
      hash sha256 (
        this_class
        ++ (super_class
            ++ (attributes
                ++ (methods ++ (fields ++ (interfaces ++ short_bytes main.access_flags)))))))
