-- ===== src/Lib.antt =====
-- facetta: an embedded aggregation table over dictionary-encoded dimensions.
--
-- A table has an immutable base snapshot, sorted by a packed index key, and a small delta of newer
-- rows over it. Readers load one view (base, delta, extra dictionary entries, marks of shadowed base
-- rows); one writer publishes new views. A query is planned into row intervals of the base, which one
-- sweep visits, and then scans the delta. Compaction merges the delta into a fresh base.
--
-- Files and what they model (paths from the repository's root):
--   Schema      schema.go: Schema, Record, Config, validate, dimIndex, isInt
--   Result      the errors that schema.go, query.go, agg.go, groupby.go and persist.go declare or format
--   Strconv     the calls strconv.ParseInt(s, 10, 64) and strconv.FormatInt of dict.go and view.go
--   Dict        dict.go: getOrAdd, getOrAddN, addFrom, lookup, lookupN, str, len, clone
--   Keys        snapshot.go: dictBits, computeShifts, packKey, and the span of a prefix in query.go
--   Bitmap      view.go: bitGet, bitSet
--   Snapshot    snapshot.go: snapshot, trackMin, expireMilli; Snapshot/Build: buildFromRecords;
--               Snapshot/WellFormed: the invariant of a base
--   View        view.go: view, delta, lookups, findRow; View/Apply: applyDelta; View/Merge:
--               mergeView and zipMerge of snapshot.go
--   Query       query.go: Cond, groupPlan; Query/Resolve and Query/Plan: plan; Query/Expand:
--               planExpand; Query/Match: matchBase, matchDelta, matchIns, matchRanges; Query/Sweep
--               and Query/Groups: planGroups, queryClock, queryGroups; Query/Scan: the answer
--               that a query should give, and a scan without the planner
--   Scratch     scratch.go: measureShape, fits, the capacity of the interval slice; Scratch/Pool:
--               getPooledScratch and release
--   GroupBy     groupby.go: queryGroupBy; GroupBy/Visit: what one row does to the groups;
--               GroupBy/Output: the sort and the layout of the result
--   Persist     persist.go: the bytes of a snapshot file, with Schema.fingerprint; Persist/Read:
--               readSnapshotFile; Store/Files: SaveSnapshot and LoadSnapshot
--   Codec       CRC-32C, FNV-1a and the bits of a float64 as parameters
--   Agg         agg.go: resolveAggs, foldAgg, queryAggs
--   Stats       stats.go: the counters and Stats
--   Store       store.go: New, Apply, Compact, ReplaceAll, NeedsCompaction, SyncPosition
--   Compactor   compactor.go: Run as a function of the ticks that it receives, and compactAndSave
--   Float       float64 as a parameter
--   Prelude     shared names: lists, integers, strings, maps, bits, sorting and binary search
--   Tests       concrete tables on which the theorems are applied
--
-- How code becomes definitions. The parallel columns of a snapshot or a delta are one list of rows;
-- the key column stays apart. An index of -1 and a zero time are `none`. Times are int64 milliseconds
-- as unbounded integers, readings of the clock are arguments in the order of the calls, and a
-- duration is a number of nanoseconds. uint32 ids and uint64 keys wrap where the code computes them.
-- The offsets and counts of the conditions and windows of one query, which the code narrows to int32,
-- are plain numbers: a query with 2^31 conditions or values is outside the model.
-- Maps are association lists whose newest entry counts. The mutex and the atomic pointer make every
-- writer call one step, so a call maps a store to a store and a result. slices.SortFunc is an
-- insertion sort. float64 arithmetic is the instance argument `Float64`, of which no law is assumed.
--
-- Fuel. `sort.Search` on n entries gets fuel n, since each round shortens the interval; the odometer
-- of the IN expansion gets as many rounds as there are combinations; `bits.Len` of n gets fuel n.
--
-- Files. A path is the bytes that stand under it, or nothing. A snapshot file is written under another
-- name and renamed, so a write that fails leaves the path as it was, and whether it fails is an argument. No partly written file is modelled.
--
-- Not modelled: the wall-clock measurement of a compaction, the buffered writer and the calls of the
-- operating system behind a snapshot file, and the bootstrap helper seed.
pub mod Prelude
pub mod Result
pub mod Schema
pub mod Strconv
pub mod Dict
pub mod Keys
pub mod Bitmap
pub mod Snapshot
pub mod View
pub mod Float
pub mod Codec
pub mod Query
pub mod Stats
pub mod Store
pub mod Scratch
pub mod Agg
pub mod GroupBy
pub mod Persist
pub mod Compactor
pub mod Tests
