-- ===== src/Lib.antt =====
-- libcrpm keeps a heap in persistent memory and takes checkpoints of it: after a crash a program
-- goes on from the last checkpoint. A compiler pass (instrumentation/) puts a call of a hook before
-- each store; the hook tells the engine (runtime/src/engines/) which block is about to change, and
-- the engine keeps what the block held at the last checkpoint.
--
-- The parts and their files:
--   Constants, Align, BitSet: the constants, `RoundUp`, `FlushRegion` and `AtomicBitSet` of
--     runtime/include/internal/common.h.
--   Pm: persistent memory, on which `Flush`, `StoreFence`, `NTStore`, `NonTemporalCopy64` and
--     `WriteBackAndInvalidate` of the same file act. `Pm.Region` is an array that the hardware may
--     tear: after a crash a cell that is not clean holds anything. `Pm.Word` is a word of at most 8
--     bytes, which is not torn: after a crash it holds one of the values stored since it was last
--     known to be on the medium. `Pm.Run` is a run of instructions and its crash points.
--   Buckets: `flush_blocks` and `flush_blocks_count`, the lists of dirty blocks of each thread, and
--     the leader's choice of a flush mode.
--   Undo: the undo-log engine (runtime/src/engines/undolog_engine.cpp). Undo.Defs is its state,
--     Undo.Hook is `hook_routine`, Undo.Checkpoint is `checkpoint` with `flush_parallel` and
--     `clear_dirty_bits_parallel`, Undo.Recover is `recover` with what a crash leaves, Undo.Open is
--     `Open`. Undo.Log says what the log holds, Undo.Restore what the recovery makes of it,
--     Undo.Safety and Undo.HookResult what the hook keeps, Undo.Flush, Undo.Clear and
--     Undo.CheckpointResult what the checkpoint does, Undo.CheckpointCrash a crash in its commit,
--     Undo.RecoverCrash one in the recovery, Undo.HookRange the hook on a range of bytes,
--     Undo.Registry is the registry of engines, and Undo.Program
--     runs programs against two copies of the data, `saved` and `current`.
--   Image: the checkpoint image (runtime/src/checkpoint.cpp, runtime/include/internal/checkpoint.h).
--     Image.Defs is its state with the operations on the states of the segments, Image.Crash what a
--     crash leaves of these, Image.Update, Image.Commit, Image.Committed and Image.Atomic what each
--     operation keeps, Image.Calls sequences of calls against committed and pending states,
--     Image.Binding is `bind_back_segment`, Image.Layout is the layout of the file, Image.Open is
--     `Open`, Image.Recovery is `recovery`, at the size of whole segments, Image.RecoveryRound and
--     Image.Recovered say what it achieves, and Image.Stale is an update after a restart.
--   Meta: MetadataV1 (runtime/src/metadata.cpp), which the engines without hooks use; Meta.Recovery is
--     about `recover_data`.
--   Alloc: the size classes (Alloc.SizeClass, Alloc.Lookup) and the bins of the thread caches
--     (Alloc.Bin) of runtime/src/lrmalloc_util.cpp and its header.
--   Nvm: NvmInstEngine (runtime/src/engines/nvm_inst_engine.cpp and its header), over Image and BitSet.
--     Nvm.Defs is its state with the locks, Nvm.BackSegment the search for a back segment,
--     Nvm.WriteBack is `lazy_write_back`, Nvm.Hook the two hooks, Nvm.Program the address buffers and
--     the entry points that instrumented code calls, Nvm.Checkpoint is `checkpoint`, Nvm.Cleaner the
--     background thread and Nvm.Open what `Open` sets. Nvm.Allocation and Nvm.Finding are about the
--     search, Nvm.Protection and Nvm.Invariant say when a checkpoint is protected, Nvm.Copying,
--     Nvm.Covering, Nvm.CrashSafety, Nvm.Binding, Nvm.Lazy and Nvm.Filling what the copy on write and
--     the binding keep, Nvm.Hooked and Nvm.HookCrash what the hook achieves, Nvm.Telling, Nvm.Buffers,
--     Nvm.Running, Nvm.Stores and Nvm.Session what a program with buffered addresses may do,
--     Nvm.Layout and Nvm.Whole what a checkpoint commits, Nvm.Cleaning that the cleaner ends, and
--     Nvm.Exposed what a binding leaves for a crash. BitSet.Scan and BitSet.Words are the loop over
--     the lowest set bits of a word, and over the words, that the engine uses throughout.
--   Hybrid: HybridInstEngine (runtime/src/engines/hybrid_inst_engine.cpp and its header), in the build
--     that the file defines. Hybrid.Defs is its state with the two epochs, Hybrid.BackSegment the
--     search for a back segment, Hybrid.Apply the copies between DRAM, the main and the back segments,
--     Hybrid.Hook the hooks and the entry points, Hybrid.Checkpoint is `checkpoint`. Hybrid.Marks says
--     what the hook marks, Hybrid.Turning how the epochs change places, Hybrid.Layout what a checkpoint
--     commits and Hybrid.Overwriting what is done to a main segment without a back segment.
--     BitSet.Clearing is about `clear`.
--   Lmc: LmcEngine (runtime/src/engines/lmc_engine.cpp and its header). Lmc.Defs is its state with the
--     advance of the epoch, Lmc.Hook the hook, Lmc.Checkpoint is `checkpoint`, Lmc.Recover the
--     recovery and `Open`. Lmc.Safety is about a crash in the hook, Lmc.Committing about one in the
--     advance of the epoch, and Lmc.Recovering about the recovery.
--   Tests: concrete inputs, and the theorems at these.
--
-- `IsLogging snap e` is the state of the engine between two calls, when `snap` is the data of the
-- last checkpoint; `IsTracked e` says that the buckets account for the marks; `Leaves e m` says
-- that a crash of `e` may leave the file `m`; `SafeAt snap e head` says that the log up to `head`
-- and the blocks outside it give `snap`; `IsRecoverable snap e` says of the engine that the
-- recovery of every file that a crash may leave of it returns with `snap`.
--
-- `IsUpdating old new m` says of an image that its current copy is on the medium with the states
-- `old`, that the other copy holds the states `new`, and that each line in which the other copy may
-- not reach the medium by a fence, or differs, is marked; `LeavesStates m f` says that a crash may
-- leave the states `f`, and `IsBound m` that the two tables of the bindings are inverse.
--
-- `IsProtected s pending old e` says of an engine that the checkpoint `s` survives a crash now and
-- will survive the hooks to come, with the states `old`, where `pending` are the blocks that the
-- program has written and the engine will be told of; `IsRunning` adds that every segment has a
-- back segment and that the locks are free; `IsSafe s m` says that whatever a crash of the image
-- leaves, the recovery finds `s`. In Lmc, `Covers s e` says that whichever of its tags a block has
-- after a crash, the state that this tag says to take is on the medium with the content `s`.
--
-- A call that ends the process is `exited`, one that waits for ever is `spins`. The fuel of
-- `recover_loop` is the head of the log and one, since each round moves the cursor on by at least a
-- cache line; that of `hook_loop` is the number of blocks that a range of the length can meet and
-- one; a strided loop takes its bound, since the step is at least 1. The loops of the image run by
-- the rounds that are left, as do the scan of a bit set, the search for a back segment and the
-- cleaner: `wait_for_background_task` has the number of segments and two.
--
-- Not modelled: two threads inside the hook at the same time (the calls of threads are a sequence,
-- and the phases of a checkpoint are run thread by thread, which the barriers allow); the wrap of
-- 64-bit sizes, which a file never reaches; statistics but for `checkpoint_traffic`; the failing
-- branches of `Open`; a crash inside the recovery of the image, its parity and its attributes; the
-- creation of the metadata; of the instrumented NVM engine the registry, the variants for MPI and
-- the cleaner at the same time as a program; of the hybrid engine Open and the registry; the
-- registry of the LMC engine; the other engines, the allocator over the bins, the compiler pass and
-- the MPI extension.
pub mod Base
pub mod Constants
pub mod Align
pub mod Pm
pub mod BitSet
pub mod Undo
pub mod Buckets
pub mod Image
pub mod Alloc
pub mod Meta
pub mod Nvm
pub mod Hybrid
pub mod Lmc
pub mod Tests
