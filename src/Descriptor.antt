-- ===== src/Descriptor.antt =====
-- The parser of field and method descriptors: src/domain/classfile/DescriptorParser.h and
-- MethodDescriptorParser.h over signature/SignatureScanner.h, with types/DescriptorTypes.h.
pub mod Scanner
pub mod Parser
pub mod Grammar
pub mod FieldReads
pub mod RoundTrip
pub mod Hazards
