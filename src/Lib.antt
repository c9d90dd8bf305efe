-- ===== src/Lib.antt =====
-- A model of LLVM-MCA-Daemon, which runs LLVM's machine code analyser on streams of instructions:
-- a broker supplies the instructions and metadata on them, the worker puts them through a pipeline of
-- LLVM's stages with stages and hardware units of its own, and views print what the pipeline reports.
--
-- Which file models which part:
-- - Prelude: names of the libraries, Boolean tests and wrap-around at 32 and 64 bits, lists and
--   association lists over native numbers.
-- - Statistics: `OverflowableCount` of Statistics.h, the counter behind the printed statistics.
-- - Metadata: `MDInstrAddr` of MetadataCategories.h, `MDMemoryAccess` of CustomHWUnits/MCADLSUnit.h
--   with its ranges and `append`, and `RegionMarker` of RegionMarker.h. Metadata/Registry:
--   `MetadataRegistry` of MetadataRegistry.h, the table by which brokers pass metadata to the stages.
-- - Cache: `CacheUnit` and `MemoryUnit` of CustomHWUnits/Cache.h and `buildCache` of MCAWorker.cpp. A
--   unit with what its `nextLevelCache` leads to is a `Level`; `load` and `store` return the latency
--   and the levels after the access.
-- - Branch: `AbstractBranchPredictorUnit` as a record of operations, and below it the units of
--   CustomHWUnits that predict branches: Naive, Local, Indirect and Skylake.
-- - LoadStore: `MCADLSUnit` of CustomHWUnits, over LLVM's memory groups and queue slots; `dispatch` uses
--   the registry, the data cache and the access ranges of Metadata. The operations after it stand in
--   LoadStore/Progress.
-- - FetchDelay: `MCADFetchDelayStage` of CustomStages. Its `execute` and `cycleStart` work over a
--   branch predictor and a next stage, which are parameters; it looks addresses up in the registry
--   and loads them from the instruction cache.
-- - Brokers: Brokers/Broker.h and, below it, AsmFile, whose assembly parser is a parameter, and
--   Vivisect, the broker of plugins/vivisect-broker, over a disassembler; its pool of instructions is a
--   vector that moves as it grows, and a batch is pointers into it.
-- - Qemu: the broker of plugins/qemu-broker. Its receiver is told of translated blocks (`addTB`,
--   Qemu/Block, with `disassemble`) and of executed ones (`tbExec`, Qemu/Exec), which it queues as
--   slices; `fetchRegion` (Qemu/Fetch) reads batches off that queue. Qemu/Regions reads the manifests of
--   regions that BinaryRegions.cpp parses, of addresses and, in Regions/Symbols, of symbols. A call gives
--   a `Run`: it returns, waits on the condition variable, spins, or reads out of bounds. Qemu/Plugin is
--   the other side, plugins/qemu-broker/Qemu/Plugin.cpp: QEMU's callbacks, and the messages that they
--   write to the socket; Plugin/Events and Plugin/Steps say in which order these may come. Qemu/Receive
--   hands the messages to the broker, as `recvWorker` does.
-- - Binja: the broker of plugins/binja-broker: its service, listener and fetchRegion, over a disassembler.
-- - Worker: `MCAWorker::run` of MCAWorker.cpp over the answers of a broker, and LLVM's builder, source
--   manager and pipeline as an interface. Worker/Stream says what it is to report, and Worker/File puts
--   it together with the broker for assembly files. Worker/Recycle is its pool of freed instructions,
--   which LLVM's builder and source manager call.
-- - Timeline: the row that `printTimelineViewEntry` of MCAViews/TimelineView.cpp prints for an
--   instruction.
--
-- Values of `unsigned` wrap at 2 ^ 32 and those of 64 bits at 2 ^ 64, as `u32` and `u64` write out.
-- Null pointers, indices past the end of a vector, failed casts and failed assertions are `none`. A
-- shared pointer to the next cache level is the level itself, so a theorem is about one first-level
-- unit and what is behind it. No function needs fuel: every loop runs over a list or over the
-- number that bounds it in the code; the worker's runs over the answers of the broker, and waits
-- where there is no more of them.
--
-- The operations of the two threads of the QEMU broker are modelled as whole steps. They hold a
-- lock around each change of the queue and around the growth of the block table and the entry of a
-- new block; `tbExec` disassembles a block of the table without that lock, before it queues the
-- block. `lower_bound` on a chain of accesses is the place after all entries below, which is what
-- it finds in an ordered chain.
--
-- A write of the plugin succeeds or fails as a whole; which ones succeed is a parameter.
--
-- Not modelled: the set-up of LLVM's objects in the worker, the sockets and the framing of messages
-- between the QEMU broker and its plugin, and the rest of the views. Printing, sockets,
-- disassembly, LLVM, gem5's counter and generated code are outside; what the code uses of them is a
-- parameter.
pub mod Prelude
pub mod Statistics
pub mod Metadata
pub mod Cache
pub mod Branch
pub mod LoadStore
pub mod FetchDelay
pub mod Brokers
pub mod Qemu
pub mod Worker
pub mod Binja
pub mod Timeline
