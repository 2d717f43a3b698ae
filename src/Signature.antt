-- ===== src/Signature.antt =====
-- The parser of generic signatures: src/domain/classfile/signature/parser/Parser.{h,cpp} and the
-- tree that it builds, src/domain/classfile/types/SignatureNodes.h.
pub mod Nodes
pub mod Cursor
pub mod Parser
pub mod Declarations
pub mod Grammar
pub mod DeclarationGrammar
pub mod Parameters
pub mod DeclarationRoundTrip
pub mod Names
pub mod Measure
pub mod Total
pub mod Hazards
pub mod Reads
pub mod RoundTrip
