-- ===== src/Lib.antt =====
-- AsterVec is a vector store: points with an id, a vector and a JSON payload are kept on disk
-- behind an operation log. A write is resolved from the caller's point id to a dense id, logged,
-- and applied to the index, which maps dense ids to internal ids as points are updated. After a
-- crash the log is scanned from the last checkpoint on and replayed. A query descends the layers of
-- the graph and then searches the lowest one. This library models the parts that decide which
-- records survive, which ids a caller sees and what a query finds.
--
-- Which file models which part:
--   Crc: include/crc32.h. The table and the register; a 32-bit register is a number.
--   OpLog: include/oplog.h and src/oplog.cc. Record and frame (OpLog.Record), the segments of a
--     directory (Names: segmentPath, listSegments), OpLog::Scan and DiskBytes (Scan), OpLog::Open,
--     Append, LastLsn and TruncateBelow (Writer). A directory is a list of named files, an open
--     file is known by its name. Groups has the abstract log, the numbered records of a chain of
--     segments, each with the torn bytes behind it; the modules behind it prove what each operation
--     does to that log.
--   PointId: include/point_id.h, `PointId::Encode` and `Decode`.
--   BigEndian: the big-endian numbers in the keys of src/metadata_store.cc and include/point_id.h.
--   Bloom: src/bloom_filter.cc, `add`, `might_contain` and `reset`.
--   IdMap: include/id_types.h, and the update mappings and tombstones of
--     include/astervec_index.h and src/astervec_index.cc (`resolve_internal`, `resolve_real`,
--     `is_alive`, `record_update_mapping`, `forget_update_mapping`, `allocate_update_id`,
--     `observe_update_id`). It works with Bloom.
--   MetadataStore: src/metadata_store.cc, the payload rows and the map of point ids.
--   Resolving: `AsterVecDB::resolveId` and `observeDenseId` of src/astervec_db.cc, on
--     MetadataStore and PointId.
--   Predicate: src/metadata.cc and include/metadata.h, filters on payloads: the tree (Kinds), the
--     parser (Parse) and `Predicate::matches`; Meaning reads a filter by its names, without
--     the parser and the matcher; Kinded and Named lead from the matcher to it.
--   Engine: src/astervec_db.cc, on OpLog, IdMap, MetadataStore and Resolving. Engine itself has
--     `logOp` and `deleteDense`; Writing has `insertDense`, `updateDense` and `logAbort`; Payloads
--     the reads and payload calls on dense ids; Public the calls on point ids (`Insert`, `Update`,
--     `Delete` as remove, `Get` and the payload calls); Replay has `replayRecord` and the two passes
--     of `recoverFromOpLog`. Action is the state and error monad of these calls.
--   IndexFile: `SerializeMetadata` (Save), `DeserializeMetadata` (Load) and `PeekGraphEncoding`
--     (Peek) of src/astervec_index.cc, the checkpoint file of the index.
--   Search: the search in src/astervec_index.cc, on IdMap. Search itself has
--     `greedySearchUpperLayer`, `searchLayer` for one layer and `knnSearchK`; Filtered has
--     `searchLayer` with a predicate and `knnSearchKFiltered`. Heaps, Keep and Walk are about the
--     queues and the visited set; Batch, Rounds, Local and Ends about the search of a layer, Nearer
--     and Greedy about the descent, FirstAlive and Nearest about the whole search; FilteredWalk,
--     FilteredFound, FilteredRuns and FilteredEnds about the search with a filter.
--   Engine.Queries: `searchUnfilteredDense`, `searchDense`, `toIntIds`, `toPointHits`, `SearchKnn` and
--     `SearchPoints` of src/astervec_db.cc, on Search, Predicate, Resolving and PointId; Answers is
--     about them.
--   Checkpoint: `writeMetadataFile`, `checkpointLocked` and the choice of the checkpoint file in
--     `Open` of src/astervec_db.cc, on IndexFile and OpLog. A run of `writeMetadataFile` lists the
--     states that the directory goes through, since a crash can stop it at each (Crash); Covers is
--     about the whole checkpoint.
--   Base: numbers, lists, bits, bytes, association lists and the status type that the parts share.
--
-- Conventions. A w-bit integer is a native number, its wrap-around written with `% 2 ^ w`. A byte
-- is a number below 256. A status is a `Result`; the texts of messages are left out. A call that
-- throws gives `none`. A lock makes the member function that takes it one step. Hash maps are
-- association lists.
--
-- Parameters. What the operating system answers (`OpenIo`, `AppendIo`, the answers of `write`), the
-- floating-point sizes of a Bloom filter (`Rate`), the graph with its vectors (`Graph`, with the
-- hypothesis `IsGraph` that a node which was inserted is there), RocksDB (`Kv`, with the hypothesis
-- `IsStore` that a batch which was written is read back), the JSON library (`Json`, `JsonValue`), the
-- quantized vectors and the block of the paged storage in a checkpoint file (`Points`, `Paged`),
-- `std::sort` (with the hypothesis `IsSort`), what the graph store answers to a search, and what the
-- calls of a checkpoint answer (`CheckpointIo`, `MetaIo`) are arguments of the definitions that use
-- them. A distance to the query is a number, its place in the order of floats; a
-- vector that a search reads can be read.
--
-- Fuel. The inner loop of a scan runs on one more round than its file has bytes: each round takes a
-- frame of at least eight bytes or ends the loop. `write_all` follows the list of answers of
-- `write` and is `pending` where the list ends before the bytes do. The descent on a layer has enough
-- with one more round than there are nodes in memory, each round moving to a nearer one; the search
-- of a layer has enough with two more than the ids that edges lead to, each round taking an id that
-- was not taken before. `insertDense` and `updateDense`
-- call each other, two calls deep. The filter parser counts down from 33 levels. All other loops are
-- structural.
--
-- Not modelled: insertion into the graph with its choice of neighbours (src/astervec_index.cc), the
-- graph store and its cache (src/aster_graph_store.cc), bulk build (src/astervec_bulk_build.cc,
-- src/astervec_rnn_descent.cc), the vector files (include/disk_vector.h) and distances
-- (include/distance.h), which are floating-point and threaded code; in src/astervec_db.cc the rest
-- of opening, closing and bulk loading, and the checkpoint that may follow a write; the HTTP server,
-- options, logging and statistics, which are input and output; the read counters of the metadata
-- store and the opening of its database; `write` and `read` of the Bloom filter, which the engine
-- does not call.
pub mod Base
pub mod Crc
pub mod OpLog
pub mod BigEndian
pub mod PointId
pub mod Bloom
pub mod IdMap
pub mod MetadataStore
pub mod Resolving
pub mod Predicate
pub mod Engine
pub mod IndexFile
pub mod Search
pub mod Checkpoint
