-- ===== src/Lib.antt =====
-- Verification of gpsxdb, a builder of navigation databases (C++).
--
-- The program imports OpenStreetMap data and other sources into PostGIS. This library models the
-- parts that decide what is stored: the formats that the program writes and reads itself, the node
-- stores and the appliers of changes. Paths are relative to the repository's root.
--
-- Prelude: shared names, lists, Boolean tests, integers.
-- Bytes (with Words, Signed, Bits): byte buffers, little-endian words, casts between signed and
--   unsigned integers, bits of a byte. A `double` is its 64-bit pattern, since the code that is
--   modelled moves doubles and does not compute with them. Where it compares them, the comparison
--   is a parameter. A bit pattern or a size is a natural number, and wraps where the code wraps.
-- Wkb: the EWKB geometries. Wkb.Cursor and Wkb.Decode are src/WkbDecode.cpp: a `Cursor` is a record
--   that each read returns anew, `nullopt` is a value of `Outcome`, and `decodeOne` recurs on fuel,
--   which `decode` takes from the buffer's length. Wkb.Encode and Wkb.Hex are the encoders of
--   src/GeoUtils.cpp; Wkb.Encode.Local is the copy that src/DeltaApplier.cpp and
--   src/RegionalDeltaApplier.cpp keep. `g_srid` is a parameter. `reserve` may fail for want of
--   memory in the code, and does nothing here.
-- NodeStore: `OSMMMap` of src/OSMMMap.cpp, the node coordinates by id. The mapped files are
--   functions with a size, an access outside of a mapping is the value `segv`, and offsets wrap at
--   2 ^ 64 as `size_t` does. System calls succeed. `read_record` and `write_record` are the accesses
--   through the mapping, `grow_merged_if_needed`, `update`, `remove` and `select` the methods.
--   NodeStore.Shards is the node phase of the import: `insert` into shard files and `merge`, with the
--   calls of LZ4 as a record; the outputs of its decompression may have any lengths. NodeStore.Scan is
--   `forEachPopulatedRange` and `highestPopulatedId`, NodeStore.Reopened the constructor on files
--   that are there.
--
-- NodeFile: `RegionalNodeMap` of src/RegionalNodeMap.cpp, the sorted file of a region's nodes. A file
--   is the list of its bytes. The loop of `select` recurs on fuel, one more than the count of the
--   records, which is enough since each round at least halves what is left. Writes succeed.
-- Nav: the update interface of `NavDB`, src/NavDB.cpp: the filter on tags, `diffTags`, the upserts
--   and `deleteEntity`, and `getWay`. A table is a function from ids to rows, and the SQL of a call
--   is one update of it; calls succeed. Nav.Sanitize is `sanitizeUtf8` and `sanitizeTag`. The
--   buffered inserts of the import are in Buffers.
-- Delta: src/DeltaApplier.cpp, which applies the changes of an OSC file to NodeStore and Nav and
--   builds geometries by Wkb. `toMercator` is a parameter. The counters do not overflow.
-- Region: src/RegionIndex.cpp, the test of a geometry against a region; the operations of
--   Boost.Geometry are the fields of a record, and what the code relies on of them another.
-- Regional: src/RegionalDeltaApplier.cpp, which applies the same changes to a region's database,
--   by NodeFile, Nav, Region and Wkb; it shares with Delta what its file repeats.
--
-- PgCopyBinary: the streams of COPY BINARY, src/PgCopyBinary.cpp. The answers of libpq are a list, so
--   that a theorem holds for any division into chunks; `fill` recurs on it.
-- OscReader: the handlers of src/OSCReader.cpp as steps on `ParseState`, one for each event of the XML
--   parser. The changes that the callback gets are the list `out`, which Delta and Regional take.
-- OsmReader: src/OSMReader.cpp, the reader of PBF files. The messages of protobuf are records, and
--   protobuf and zlib a record of functions; integers of 64 bits wrap, where overflow of a signed
--   one is undefined in C++. OsmReader.Encode is the
--   encoding by differences, for the round trip. `next` recurs on the number of the bytes, of which
--   each blob takes four at least.
-- Replicator: src/Replicator.cpp, the process that polls for diffs, with the checks of external data.
--   All that the process meets is a `World`: answers by the number of the actions before. A run is a
--   number of rounds, and the applier any type with the two calls; file and rows are as they were
--   when an exception was thrown.
-- Rings: `stitchRings` of src/GeoUtils.cpp. Each round of its loops takes a segment away, so the
--   number of segments is fuel enough.
-- Import: `isArea`, `buildMultipolygon` and what `wayThread` does with an entry, of src/main.cpp, over
--   Rings, Wkb.Encode and Buffers. Order and equality of doubles are parameters, as are the look-ups
--   of coordinates and geometries.
-- Export: `processPair` of src/regional_db_export.cpp, which divides a table and its tags among the
--   regions. The tests of the regions are parameters, and a pass is a function of the chunk's number,
--   so that the order in which the threads take the chunks is of no matter.
-- Buffers: the bulk inserts of `NavDB`, src/NavDB.cpp, with their flushes and retries. What the n-th
--   COPY ends in is a parameter, a text that `std::stoi` does not read included; `tryCopyBatch` recurs
--   on the number of rows.
--
-- Not modelled: PostgreSQL and its driver, LZ4, PROJ, Boost.Geometry, expat, protobuf, zlib, curl; the
-- threads of the import, the polygons of regions, the loaders of external data, the command-line
-- tools.
pub mod Prelude
pub mod Bytes
pub mod Wkb
pub mod NodeStore
pub mod NodeFile
pub mod Nav
pub mod Delta
pub mod Region
pub mod Regional
pub mod PgCopyBinary
pub mod OscReader
pub mod Rings
pub mod Import
pub mod Buffers
pub mod Replicator
pub mod OsmReader
pub mod Export
