-- ===== src/Examples.antt =====
-- The theorems on concrete inputs, by component.
mod Signatures
mod Descriptors
mod ClassFiles
mod Flags
mod Digests
mod Strings
mod Tables
mod Annotated
mod Diffs
mod AttributeTexts
mod CallGraphs
