-- ===== src/Annotations.antt =====
-- src/domain/classfile/AnnotationsParser.cpp: the reading of annotations, over
-- src/domain/classfile/reader/VectorReader.h.
pub mod Reader
pub mod Parser
pub mod Types
pub mod Grammar
pub mod RoundTrip
pub mod TypeGrammar
pub mod TypeRoundTrip
pub mod TypeArguments
pub mod Bounded
pub mod Termination
pub mod Texts
