-- ===== src/Lib.antt =====
-- morgue decompiles and unpacks games and programs for reading. This library is about the parts of it
-- that read untrusted binary files by hand: the .usmap mappings and the .uasset packages of Unreal
-- Engine (internal/recipe/usmap.go and internal/recipe/uasset.go) and the blobs of Odin Serializer in
-- Unity assets (internal/odin). It also covers which files are skipped (internal/skiplist) and which
-- directories are the roots of Unreal games (internal/scanner/grouper.go), how decompiled C code is
-- split into functions (internal/recipe/csplit.go), the SDK that is made of the mappings
-- (internal/recipe/sdk.go), and the pipeline that puts every target through
-- recon, a recipe and its tools (internal/engine).
--
-- How the parts interact. Both readers are a position in a buffer with methods that fail or move it.
-- `parseUsmapBytes` reads a header off one cursor, decompresses the body behind it, and reads the
-- tables off a second one; names in the tables are indices that a closure resolves. `decoder.run`
-- reads one entry after another off its reader and appends a token for most of them, with the depth
-- and a cache of type names as its state; `buildTree` makes one value of the tokens. `splitDecompiledC`
-- feeds lines to a record state, whose flush writes a block through `bucketWriter` and an entry to each
-- catalog. `Engine.Run` asks the skip list about every file of the scan, installs what the recipes
-- need, runs them, and runs itself over what an installer has unpacked.
--
-- Files.
--   Common        lists, integers, results, decimal digits and Boolean tests that all parts share.
--   Cursor        the cursor (byteReader, reader) and the monad of its methods. Cursor/Words: little
--                 endian words. Cursor/Reads: "the method takes exactly these bytes and returns this".
--                 Cursor/Ensures: "whatever it returns has this property, and the cursor stays inside".
--   ByteReader    the methods of byteReader. A Go error is the data type `Error`.
--   Usmap         the tables of a decompressed body: parseUsmapBody, parseUsmapStruct,
--                 parseUsmapProperty, parseUsmapPropertyType, usmapName. Usmap/Format: the documented
--                 format as a writer. Usmap/File: ParseUsmap, parseUsmapBytes, skipVersioningBlock and
--                 decompressUsmap. The others hold what is proved of them.
--   Odin/Reader   the methods of `reader`; a panic is an error of type `Panic`.
--   Odin/Decoder  `decoder`, readType, readGuidHex and run, whose switch is a table of cases.
--   Odin/Format   the entries that a BinaryDataWriter writes, and the tokens that they stand for.
--   Odin/Json     the maps, slices and scalars that the tree builder makes.
--   Odin/Scalars  scalarValue, refValue and primArrayToValue of internal/odin/tree.go.
--   Odin/Tree     treeBuilder: nextItem, fillContainer, buildNodeBody, buildArrayBody and buildTree.
--                 Odin/Tree/Shape: the documents that well-formed tokens stand for.
--   Odin/Asset    decodeBlobValue of internal/odin/value.go.
--   Uasset        readNameTable and scanNameTableStart of internal/recipe/uasset.go. Uasset/Package:
--                 parseUAsset, fstring, readImports and readExports. Uasset/Written: the format of a
--                 name table.
--   SkipList      New and ShouldSkip of internal/skiplist/skiplist.go.
--   UnrealRoots   dedupeUnrealRoots of internal/scanner/grouper.go, with pathComponents,
--                 hasBuildsSegment and isAncestorRoot.
--   Csplit        internal/recipe/csplit.go. Csplit/Names: the regular expressions of its headers,
--                 extractFuncName and cppClassOwner. Csplit/Refs: extractRefs. Csplit/Refs/Literals
--                 and Csplit/Refs/Found: where its matches stand. Csplit/Buckets: bucketFor and
--                 bucketWriter over an association list of files. Csplit/Splitter: the record state
--                 with flush, startRecord, appendLine and onLine. Csplit/Split: splitDecompiledC.
--                 Csplit/Records: a combined file as a list of records, which the splitter is
--                 compared with.
--   Engine        internal/engine: the types and the emitter, and the world that answers its calls.
--                 Engine/Tools: recipeTools, ensureRuntimeDeps and ensureTools. Engine/Execute:
--                 executeRecipe, executeRecipeWithFilter and their forwarder. Engine/Summary:
--                 buildSummary. Engine/Pipeline: the first pass. Engine/Passes: the second pass, the
--                 native phases, maybeRecurseUnpack and Run.
--   Sdk           internal/recipe/sdk.go: cppType and the sorted classes and enums of a dump, with String
--                 of internal/recipe/usmap.go and isBoilerplateClass of internal/recipe/hookable.go.
--                 Sdk/Sort: sort.Slice. Sdk/Dump: writeSDKDump and its writers. Sdk/Fallback:
--                 sdkFallbackFromSymbols. Sdk/Resolution: buildUsmapResolution.
--
-- Bounds and fuel. Go's int is taken as 64 bits wide, so that none of the sums of positions and
-- lengths here overflows. parseUsmapPropertyType counts down the depth that is left, 33 at the
-- start, in place of counting up to 32. The loop of `run` has a round for each byte of the blob,
-- and each round takes a byte at least. The tree builder has one more call of nextItem than there
-- are tokens, and the scan for a name table a round for each byte. The strip of white space, the
-- searches for strings and calls and the qualifiers of a call have one round for each byte of their
-- text, since each round passes one. A run of the engine has one level more than maxUnpackDepth,
-- and Engine.Ends shows that more levels change nothing. All other loops are over lists, or over
-- counts that have been read.
--
-- Not modelled. The Zstd codec, the file system, the formatting of floats, and Go's functions on
-- paths, patterns and letter case are parameters; for the engine, so are the scan, the recon, the
-- recipes and the tool manager, as functions of a world that each call may change; for the SDK, so
-- is the text of its readme files. JSON is kept as the value that is encoded. A float is its bit
-- pattern. Writes behind a buffer, flushes and closes do not fail in the model, and a line above 16
-- MB, for which streamLines has a fallback, is read as any other. The model has no stack that ends:
-- buildTree recurses as deep as the nodes of a blob are nested, and Go does not recover from a
-- stack that overflows there. The text of a message is kept only as far as its numbers and its
-- context. In the Unreal files a string is its bytes, in Odin blobs its code points. The rest of
-- the program runs external tools, writes text or shows it.
pub mod Common
pub mod Csplit
pub mod Engine
pub mod Cursor
pub mod ByteReader
pub mod Sdk
pub mod SkipList
pub mod Uasset
pub mod UnrealRoots
pub mod Usmap
pub mod Odin
