-- ===== src/Attributes.antt =====
-- The texts of attributes: src/domain/classfile/AttributesManager.h.
pub mod Texts
pub mod Constants
pub mod Frames
pub mod Tables
pub mod Members
pub mod Manager
pub mod FrameGrammar
pub mod FrameReads
pub mod Grammar
pub mod Steps
pub mod Reads
pub mod RecordReads
pub mod Tags
pub mod Escapes
pub mod ClassArguments
