-- ===== src/Diff.antt =====
-- The comparison of two class files: src/interfaces/cfdiff/ClassfileDiffApp.cpp.
pub mod Names
pub mod Compare
pub mod Members
pub mod Application
pub mod Readable
pub mod Self
pub mod SelfMembers
pub mod SameFile
pub mod Interfaces
pub mod Missing
pub mod OneSide
