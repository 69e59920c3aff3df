-- ===== src/Lib.antt =====
-- The storage core of the proxy's disk cache (xproxy-beta/cache).
--
-- A cached object is stored in fragments. Each fragment is a packed `range_elem` with its range in the
-- object and its place on the disk. The fragments of one object stand in a `range_vector`, sorted and
-- without overlaps; an `fs_table` maps the key of an object to its vector and counts what it holds. An
-- `fs_metadata` joins the table with a header, a footer and the write position; the volume saves it in
-- two copies in turn, and the load chooses one of them. The writer goes round the volume block by block
-- from the write position, and readers take the volume lock where they may meet it.
--
-- Units       cache_common.h, unit_blocks.h, and the functions of
--             x3me_libs-master/x3me_libs/math_funcs.h that the cache calls
-- Range       range.h
-- RangeElem   range_elem.h, range_elem.cpp; Fields has the packing, Readers the counter
-- RangeVector range_vector.h, range_vector.cpp: state and searches; Update has add_range and rem_range,
--             Trim has trim_overlaps; Sorted has the invariant; FullRange, InRange, ExactRange,
--             Insertion, Removal and Trimming have the proofs on one operation each; Stored has load and save
--             with their bytes, RoundTrip what they are to each other
-- FsTable     fs_table.h, fs_table.cpp; Nodes, Data and Counters have the lemmas on the map, the bytes
--             and the counters, Adding, Removing and Limits the theorems; Stored has load and save, RoundTrip
--             what they are to each other
-- FsMetadata  fs_metadata.*, fs_metadata_hdr.h, fs_ops_data.h, and of cache_fs_operations.cpp the step of
--             the write position and the lock test; WritePos, Copies and Table have the theorems; Stored has
--             load and save, RoundTrip what they are to each other
-- CacheFs     cache_fs.cpp, task_md_sync.cpp: the saves of the metadata in parts, as a step relation; Safe
--             has the state of the two copies, Sync what a load finds
-- Bytes       memory blocks and numbers as bytes; Streams has memory_reader.h, memory_writer.h and the
--             reads of disk_reader.cpp, Writes and Laws the lemmas
-- AggWriteMeta  agg_write_meta.cpp, agg_write_meta.h, agg_meta_entry.h: the entries of one write block;
--             Order is about add_entry, Members about has_entry, Stored has load and save, RoundTrip
--             what they are to each other
-- AggWriteBlock  agg_write_block.cpp, agg_write_block.h, object_frag_hdr.h: the block that the writer fills;
--             Placed has the invariant, Adding, Reading and Writing the theorems
-- Transactions  read_transaction.* and write_transaction.*
-- FsOperations  cache_fs_operations.cpp: begin and end of a read here, the writer's operations in Writes.
--             Marks, Reading, Readers and Restored are about the marks of readers; Kept and Unread about
--             elements with readers; Commit and Marked about the end of a write, FinalFlush about the last one, NextElem about what a reader finds; Evacuation, Truncation, Adding, Overwriting and NewFragment about the
--             writer's operations
-- AggWriter   agg_writer.cpp: the state machine of the writer, over an interface of the operations of
--             cache_fs_ops.h that it calls; Ready has what holds between two calls, NextState, IoSteps and
--             WriteSteps what each call does, Runs and Evacuating the theorems on many calls, Filtered
--             what fsmd_rem_non_evac_frags gives to the writer, and VolumeOps the modelled operations as
--             such an interface. An operation may abort; the writer then holds `none` as the state of the
--             volume, and the outcome of the call is operation_aborted
-- AioTaskQueue  aio_task_queue.cpp: the queue of tasks; Order has its invariant, Priority who is served when
-- AioService  aio_service.cpp, aio_task.h: the queue with the counters of references; Balance has the theorem
-- Tests       test data, and each theorem at a concrete input
--
-- Conventions. An unsigned 64-bit value is a natural number, reduced modulo 2 ^ 64 where the source
-- computes with it (`u64`, `sub64`), and 32-bit values likewise. A failed X3ME_ENFORCE aborts the program
-- and is `none`. X3ME_ASSERT is not evaluated in the table and below it, as in a build with NDEBUG; in
-- AggWriteBlock, Transactions, FsOperations and AggWriter a failed one is `none` too, so that a theorem that a
-- function returns says that it holds. A loop over a vector is a recursion on the number of elements
-- that are left, so it needs no fuel; the outer loops of fsmd_rem_non_evac_frags and of
-- fsmd_commit_disk_write have the number of their entries as fuel, since each round takes away one of
-- them or more. adler32 of zlib is an argument. The map of fs_table is a list; its order stands for
-- the order of the hash map. An iterator is a position. Changed
-- objects are passed on as values. A callback is a function argument. The allocator never fails.
--
-- Not modelled: the bytes of the metadata in the steps of CacheFs, where a copy is its header, the place
-- of its footer and what stands there; the threads of the service and the condition variable of its queue;
-- object handles; the HTTP, network, plugin and management parts of xproxy-beta; vendored libraries. In
-- CacheFs a part of a save that was written is there as a whole, the part with the header comes first and
-- the one with the footer last, also where one write holds both, and a write that fails has not written
-- the footer. The reset of a volume whose load finds no copy ends a run.
pub mod Prelude
pub mod Units
pub mod Range
pub mod RangeElem
pub mod RangeVector
pub mod FsTable
pub mod FsMetadata
pub mod CacheFs
pub mod AggWriteBlock
pub mod AggWriteMeta
pub mod AggWriter
pub mod AioService
pub mod AioTaskQueue
pub mod Bytes
pub mod FsOperations
pub mod Transactions
pub mod Tests
