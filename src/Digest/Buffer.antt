-- ===== src/Digest/Buffer.antt =====
-- src/domain/digest/DigestUtils.h. A DigestVector always has `DIGEST_LENGTH` bytes.
use tarracsh.Prelude.{
  ℕ, ◌-◌, ◌/◌, ◌%◌, Bool, true, false, List, [], ◌∷◌, ◌++◌, ltb, if◌then◌else◌, length, replicate,
}
use tarracsh.ClassFile.Pool.{Bytes}

abbrev pub digest_length : ℕ
digest_length = 40

-- `DigestVector(DIGEST_LENGTH)`
abbrev pub zeros : Bytes
zeros = replicate digest_length 0

-- `append(const unsigned short &)`
abbrev pub short_bytes : ℕ → Bytes
short_bytes value = value % 256 ∷ value / 256 % 256 ∷ []

-- `digest(const char *, const uint64_t)`: the hash is written over the front of a vector of zeros.
unfoldable pub hash : (Bytes → Bytes) → Bytes → Bytes
hash sha256 bytes =
    let hashed = sha256 bytes in hashed ++ replicate (digest_length - length hashed) 0

-- `digest(const std::vector<unsigned char> &)`
unfoldable pub digest_buffer : (Bytes → Bytes) → Bytes → Bytes
unfolding hash
digest_buffer sha256 [] = zeros
digest_buffer sha256 (b ∷ buffer) = hash sha256 (b ∷ buffer)

-- `operator<` of vectors.
unfoldable pub less : Bytes → Bytes → Bool
less xs [] = false
less [] (y ∷ ys) = true
less (x ∷ xs) (y ∷ ys) =
    let rest = less xs ys in if ltb x y then true else if ltb y x then false else rest

-- `insert` of a `std::set<DigestVector>`, the set in its order.
unfoldable pub insert : Bytes → List Bytes → List Bytes
insert d [] = d ∷ []
insert d (x ∷ xs) =
    let rest = insert d xs in if less d x then d ∷ x ∷ xs else if less x d then x ∷ rest else x ∷ xs

abbrev pub concat : List Bytes → Bytes
concat [] = []
concat (d ∷ ds) = d ++ concat ds

-- `digestSet`
unfoldable pub digest_set : (Bytes → Bytes) → List Bytes → Bytes
unfolding digest_buffer
digest_set sha256 [] = zeros
digest_set sha256 (d ∷ ds) = digest_buffer sha256 (concat (d ∷ ds))
