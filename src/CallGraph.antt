-- ===== src/CallGraph.antt =====
-- The call graph: src/app/commands/callgraph/CallGraphAnalyzer.{h,cpp}, which links references to what
-- they name, and CallGraphExporter.cpp, which makes a graph of the links.
pub mod Rows
pub mod Link
pub mod NewEdges
pub mod Links
pub mod Exporter
pub mod Output
pub mod Nodes
pub mod Ends
pub mod Owners
pub mod Quoted
pub mod Analysis
pub mod Linked
pub mod Indexes
pub mod Matches
pub mod Gml
pub mod GmlSteps
pub mod GmlReads
pub mod Drawing
pub mod Exports
