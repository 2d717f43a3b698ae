-- ===== src/ClassFile.antt =====
-- The class-file parser: src/domain/classfile/ClassFileParser.{h,cpp} over the readers of
-- src/domain/classfile/reader and the constant pool of src/domain/classfile/constantpool.
pub mod Reader
pub mod Pool
pub mod Parser
pub mod Entries
pub mod EntryText
pub mod Encode
pub mod Reads
pub mod PoolReads
pub mod BodyReads
pub mod RoundTrip
pub mod Safe
pub mod SafePool
pub mod Returns
pub mod Truncated
pub mod Indexes
