-- ===== src/Lib.antt =====
-- gocachez: a helper for the go command's build cache (GOCACHEPROG) that keeps compressed blobs on
-- disk and a catalog of them in SQLite.
--
-- The program's parts and the files that model them:
--   * The catalog (catalog.go, the schema in store.go) maps an action to the output it produced. Its
--     three tables are lists of rows in the record `Catalog` of Catalog.antt, with one function per
--     SQL statement: `upsert_output` is `upsertOutputSQL`, `lookup_entry` is `lookupEntrySQL` with
--     the check of `lookupEntry`, and so on. Catalog/Put.antt is the transaction of `upsertEntry`
--     with its retries. Catalog/Steps.antt has the statements as steps of one catalog, in any order,
--     which is how concurrent builds and maintenance appear: SQLite serialises the statements.
--     Catalog/Listing.antt is what status reads.
--   * The store (cache.go, store.go, protocol.go) serves `put` and `get`. Store/State.antt is its
--     state with the files that it works on: blobs by output ID, and the files of the run directory.
--     Store/Put.antt is `put` with `streamPutBody` and `installBlobLocked`; Store/Get.antt is `get`
--     with `materialize`, `dropAction` and `markEntryAccess`, and `handle`.
--   * The classification of blobs (blob_type.go) is BlobType.antt and its children; recognising
--     package archives and generated sources (export_archive.go) is Archive.antt. Bytes.antt has the
--     functions of Go's bytes, strings, unicode/utf8 and strconv packages that they call.
--   * Maintenance (cache.go, catalog.go) is Maintenance.antt and its children: Due (`pruneDue`,
--     `sweepDue`, `trimCutoff`, `planOldEntries`), Plan (`planToMaxSize`, `evictionCandidates`) and
--     Evict (`evictToMaxSize`). Eviction runs on the catalog and the blobs, for any candidates.
--   * Expiry by age (catalog.go, `pruneOldEntries` of cache.go) is Expiry.antt: the batches of the two
--     loops, each with its transaction and with what other processes do around it.
--   * The names of files (util.go, catalog.go, store.go, cache.go) are Files.antt: hex, shards, paths.
--   * Orphan collection (cache.go, catalog.go) is Orphans.antt: the query of a shard, the plan from
--     directory walks that are an argument, and the removal. A disk gives each path its
--     modification time. `sweep_orphans` is that part of `sweepUnlocked`.
--   * The life of a run (store.go, cache.go) and the clean command (clean.go) are Runs.antt: rows,
--     directories and locks; Runs/Close closes a run, Runs/Expire sweeps directories and retained
--     files, Runs/Clean cleans. What can fail is an argument; a removal that fails leaves its
--     directory. A process that dies lets its lock go and leaves the rest.
--   * Refinement.antt is the specification of the catalog, a map from actions to outputs, with what
--     each statement is on it.
--   * The status report (status.go): Status.antt has its tables, where none is a panic, and how an
--     age is written.
--   * The configuration (config.go, `parseSize` and `parseAge` of util.go) is Config.antt, with the
--     sources and their order in Config/Sources.antt. Reading numbers and durations is the record
--     `Numbers`, an argument.
--   * The request stream (protocol.go): Protocol.antt has the JSON string of a body, read in pieces
--     through a buffer, down to `jsonStringReader.Read`.
--   * Tests.antt applies the theorems and runs the definitions at concrete inputs.
--
-- Conventions. An ID is the raw digest, a list of bytes; the source turns it to lower-case
-- hexadecimal and back, which loses nothing. Sizes of files are ℕ; the sums over the catalog are not
-- wrapped at 64 bits. Times in milliseconds are ℤ. What the operating system or the database
-- reports at a call is an argument of the operation (`PutFaults`, `GetFaults`, `Attempt`), so that
-- a theorem that assumes nothing of it holds for all of its failures. A transaction that is rolled
-- back leaves the tables as they were, as SQLite documents. The zstd library is the record `Codec`,
-- with the round trip that it documents as a law.
--
-- Bounds. `retry_from` recurses on the number of attempts that are left, three at first, and the
-- source's loop returns at the third, so the case of no attempts left is never reached.
-- `plan_pages` recurses on fuel, one unit for each page and one to notice that nothing is needed any
-- more, and returns none without fuel, as at a failed read. Every page moves the cursor on, so more
-- fuel than the catalog has outputs is enough while the catalog stands still.
-- `delete_stale_entries` recurses on fuel, one unit for each batch and one to notice the end; every
-- batch removes an entry while nobody else writes, so more fuel than entries is enough then. The
-- loop over outputs has the 2000 batches of the source.
-- `read_all` recurses on fuel, one unit for each call of Read, and returns none without fuel; every
-- call but the last gives a byte, so one more than the bytes of the body is enough.
--
-- Not modelled: opening and tuning the database, the lifecycle and maintenance locks, the pools of
-- encoders and buffers, the worker goroutines (the order in which their results arrive is an
-- argument), signals, profiling, help texts and printing, which are services of the system or of
-- libraries; the content of retained files, what the status report counts, how blobs'
-- classifications are written back and the run mode, which stand apart from what is modelled here;
-- and the order of the passes of `prune`, of which each pass is modelled by itself. Requests and
-- evictions are modelled without steps of other processes inside them: `put`, `get` and
-- `evict_each` run from a state to a state. Of what others do meanwhile only the branches are there
-- that the code has for it (`vanishes` and `overtaken` of `installBlobLocked`, commits that take
-- effect although they report a failure); a put between the delete of an output's row and the
-- unlink of its blob, which the source accepts as a later miss, is not among them. Expiry, orphan
-- collection and the life of runs do have steps of others between their own.
pub mod Prelude
pub mod Bytes
pub mod Archive
pub mod BlobType
pub mod Catalog
pub mod Store
pub mod Maintenance
pub mod Config
pub mod Expiry
pub mod Files
pub mod Orphans
pub mod Runs
pub mod Refinement
pub mod Status
pub mod Protocol
pub mod Tests
