-- ===== src/Digest.antt =====
-- The digest of a class: src/domain/digest. The hash, crypto_hash_sha256 of libsodium, is a parameter.
pub mod Buffer
pub mod Class
pub mod Order
pub mod Blind
pub mod MemberOrder
