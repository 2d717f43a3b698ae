-- ===== src/Lib.antt =====
-- tarracsh, a command-line analyser of Java class files and jars: the parts that read a class file
-- and those that keep strings and rows.
--
-- The program reads class files one by one or out of a jar, builds a constant pool and lists of
-- members and attributes from each, decodes descriptors and generic signatures out of the pool's
-- strings, and hands the result to printers, digests, a database and a query engine. This library
-- models the reading side and the storage below the database.
--
-- - Outcome: what a run of the C++ comes to: a value, an exception, undefined behaviour or a failed
--   assertion (`fault`), or, on fuel, no more fuel.
-- - ClassFile: src/domain/classfile/ClassFileParser.{h,cpp} over the readers of
--   src/domain/classfile/reader and the pool of src/domain/classfile/constantpool. A reader is a
--   state with the bytes that remain (`_position` or the stream), `_size`, `_bytesRead`, the byte
--   order and the validity of the header; `read_raw` is ClassFileReader::readRaw, `read_bytes` both
--   readBytes, `read_u1`, `read_u2` and `read_u4` are readU1, readU2 and readU4, `read_zeroed_u2`
--   and `read_zeroed_u4` the two `read`. ClassFile.Parser has a function for each method of
--   ClassFileParser, under its name. ClassFile.Encode is the independent writer by the Java virtual
--   machine specification; Reads, PoolReads, BodyReads and RoundTrip are about reading what it
--   writes, Safe, SafePool and Returns about any bytes in memory, Truncated about content cut off.
--   Indexes is the walk over the pool's entries by `getNextIndex`.
-- - Signature: src/domain/classfile/signature/parser/Parser.{h,cpp} with the nodes of
--   src/domain/classfile/types/SignatureNodes.h. `_input` and `_position` are a cursor on the text
--   that is left, with the terminator that std::string keeps behind it. Grammar and
--   DeclarationGrammar are the part of the specification's grammar (4.7.9.1) in which each type
--   parameter has a bound that is not empty and no name holds `$`, as trees, with their spelling, the
--   nodes they ought to become and the fuel they take. The parser throws at `<T:>`, and takes `$` for
--   the end of a name.
-- - Descriptor: src/domain/classfile/DescriptorParser.h and MethodDescriptorParser.h over
--   src/domain/classfile/signature/SignatureScanner.h, with src/domain/classfile/types/
--   DescriptorTypes.h. Descriptor.Grammar is the grammar of 4.3.
-- - ClassFile.Entries: the getters of src/domain/classfile/constantpool/ConstantPool.cpp.
-- - SignatureAttribute: src/domain/classfile/signature/SignatureParser.cpp, which looks the text of a
--   Signature attribute up in the pool and runs the signature parser on it.
-- - AccessModifiers: src/domain/classfile/AccessModifiers.h: the tests of flags and their text.
-- - Digest: src/domain/digest: Buffer is DigestUtils.h, with a std::set as a list in order, and Class
--   is ClassFileDigest.cpp on what a ClassFileParser holds. The hash is a parameter.
-- - Annotations: the reading half of src/domain/classfile/AnnotationsParser.cpp over
--   src/domain/classfile/reader/VectorReader.h, on fuel for the nesting of values. Grammar and
--   TypeGrammar are the layout of 4.7.16 to 4.7.20 as writers.
-- - Annotations.Texts: the other half, what is written of annotations for a reader.
-- - Attributes: src/domain/classfile/AttributesManager.h. Manager has `getTag`, `toString` and the
--   tables of `init`; Tables, Frames and Members have a function for each START_ATTR_TO_STRING block,
--   Constants the texts of constants, Texts `join` and `escapeUtf8` of StringUtils.h. `jump` is
--   VectorReader::jump, of which the whole content is an argument. FrameGrammar and Grammar are the
--   layout of 4.7.3 to 4.7.30 as writers, FrameReads, Reads and RecordReads are about reading it.
-- - Diff: src/interfaces/cfdiff/ClassfileDiffApp.cpp. Names has its maps by name, Compare and Members
--   the comparisons, under their names, with `_differenceCount` as argument and result; Application
--   has `compare` and `start` on two parsed class files. Readable says which classes have all the names
--   that are looked up; Self, SelfMembers and SameFile are about a class beside itself, Interfaces,
--   Missing and OneSide about what one side has alone.
-- - StringPool: src/infrastructure/db/StringPool.{h,cpp}. A pool is the bytes below `_position`, the
--   size of the block, the nodes of `_hash` with their views, and the dirty flag; `generation` tells
--   the blocks apart that `_pool` has pointed to. `internal_add` is internalAdd, `get_c_string`
--   getCString. Layout is the specification, a list of distinct strings; Refinement, Identity and
--   Growth are about adding, Reopening and Termination about reading, Dangling about `realloc`.
-- - Table: src/infrastructure/db/table/Table.{h,cpp}. A table is `_rows`, `_autoIncrementIndex`,
--   `_dirtyRows`, `_isDirty` and the memory that its rows and the caller's lie in, by address; a freed
--   address is not given out again, so that a read of it shows. A file is a signature and rows.
--   Contents is the specification, a list of rows by id with distinct keys; Adding, Changing, Lookups,
--   Reading, Reopened and Writing are about the operations one by one, Marks, Validity and InPlace
--   about what they keep, History and Safety about orders of them and of reading the file again,
--   Hazards about rows that are freed or deleted.
-- - CallGraph: src/app/commands/callgraph. Rows is the rows of src/domain/db/table that make up the
--   graph; a table is the list of its rows, none of them deleted. Link is the linking of
--   CallGraphAnalyzer.{h,cpp}, where methods and fields share a function as they share a template, and
--   adding an edge asserts that its key is new; Links and NewEdges are about when it is;
--   Exporter and Output are CallGraphExporter.cpp, the graph and its files; Analysis puts them together
--   as `linkRefNodes`, `run` and `endAnalysis` do. Nodes, Ends and Linked are about the nodes that edges
--   join, Indexes and Matches about which members references are linked to, Owners about where the edges
--   of classes start. Gml is an independent reader of the GML file; Quoted, GmlSteps and GmlReads are
--   about reading a label, a line and a file with it, Drawing about the colors and styles of edges,
--   Exports about all of it together.
-- - Examples: runs on concrete inputs.
--
-- ClassFileParser takes its bytes from a reader. The text of signatures and descriptors comes from
-- the pool's Utf8 entries, so these two parsers meet any bytes that a class file holds; what they do
-- with bytes outside the grammar is in Signature.Hazards and Descriptor.Hazards. The digest reads
-- the parsed class through the pool, where an index that has no entry of the kind wanted is a fault.
-- The texts of attributes and the comparison of classes do so too.
--
-- Numbers are natural numbers with the wrap-around of `unsigned int` written out in `read_raw`;
-- a number in a class file keeps its 8, 16 or 32 bits by how it is read. Loops that the text bounds
-- run on fuel. The constant pool's loop is given `count + 1` units, one for each value of `index` and
-- one more. Fuel is handed to the calls of a call alike, so it bounds how deep they nest: a type
-- signature nests to at most four units for each character and six; a class or method signature or a
-- descriptor of the grammar to at most the sum `cost_...` of its tree.
-- A host in which the least significant byte comes first is assumed, as `readHeader` assumes it.
--
-- A table has fewer than 2 ^ 32 rows, which `forEach` counts in an unsigned int.
-- A string pool's block can be allocated, and its positions stay below 2 ^ 64. A lookup compares the
-- bytes of a node only where hash code and length agree, which is as seldom as a container can.
-- Annotations are given one unit more than there are bytes, or as many as they are deep.
-- Reading a pool is given one unit more than the file has bytes. A walk over a constant pool, which
-- has fewer than 2 ^ 16 slots, is given a unit for each slot, and so is the search for the next entry.
--
-- What a comparison reads of a vector that the code has freed is a parameter. How fmt and the standard
-- library print numbers is another, and so is the string pool's `getCString` for the call graph, which
-- has fewer than 2 ^ 31 nodes. A std::unordered_map or unordered_set is walked in the order of insertion.
--
-- Not modelled: log lines and messages; the lists' owner tag; the options of the command line; locks;
-- files that cannot be opened; the schema and the columns of tables, the tables derived from them but
-- for their rows, and the database's thread; how the tables of the call graph are filled; jars,
-- queries, printers and the programs around them.
pub mod Prelude
pub mod Outcome
pub mod Signature
pub mod Descriptor
pub mod ClassFile
pub mod AccessModifiers
pub mod SignatureAttribute
pub mod Digest
pub mod StringPool
pub mod Table
pub mod Annotations
pub mod Attributes
pub mod Diff
pub mod CallGraph
pub mod Examples
